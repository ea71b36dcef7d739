-- ===== src/Encoding.antt =====
-- packages/encoding: text encodings of bytes.
pub mod Cb32
pub mod Hex
