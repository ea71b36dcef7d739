-- ===== src/Core.antt =====
-- packages/core: the binary format of CAS nodes.
pub mod Errors
pub mod Words
pub mod Text
pub mod Pascal
pub mod ByteOrder
pub mod NodeType
pub mod SizeFlag
pub mod Header
pub mod Node
pub mod Topology
pub mod Validation
