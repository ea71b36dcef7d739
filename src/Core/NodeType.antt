-- ===== src/Core/NodeType.antt =====
-- NODE_TYPE of packages/core/src/constants.ts: bits 0 and 1 of the flags word.
use casfa.Base.{ℕ}

abbrev pub set : ℕ
set = 0

abbrev pub dict : ℕ
dict = 1

abbrev pub successor : ℕ
successor = 2

abbrev pub file : ℕ
file = 3
