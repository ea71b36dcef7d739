-- ===== src/Core/Header/Flags.antt =====
-- The bit fields of the flags word.
use casfa.Base.{ℕ, ◌%◌, ◌≡◌, arith}
use casfa.Core.Header.{
  get_node_type, get_extension_count, set_extension_count, get_block_size_limit,
  set_block_size_limit, get_hash_algo, set_hash_algo, reserved_bits,
}

-- Two flag words agree on all fields but the named ones.
abbrev SameType : ℕ → ℕ → Type 0
SameType f g = (get_node_type f ≡ get_node_type g) × (reserved_bits f ≡ reserved_bits g)

-- Setting the extension count stores it modulo 4 and keeps the node type, the block size limit, the hash
-- algorithm and the reserved bits.
pub set_extension_count_fields :
    (f count : ℕ)
    → (get_extension_count (set_extension_count f count) ≡ count % 4)
      × (get_block_size_limit (set_extension_count f count) ≡ get_block_size_limit f)
      × (get_hash_algo (set_extension_count f count) ≡ get_hash_algo f)
      × SameType (set_extension_count f count) f
unfolding get_extension_count set_extension_count get_block_size_limit get_hash_algo get_node_type
set_extension_count_fields f count = omega arith

-- Setting the block size limit stores it modulo 16 and keeps the node type, the extension count, the hash
-- algorithm and the reserved bits.
pub set_block_size_limit_fields :
    (f limit : ℕ)
    → (get_extension_count (set_block_size_limit f limit) ≡ get_extension_count f)
      × (get_block_size_limit (set_block_size_limit f limit) ≡ limit % 16)
      × (get_hash_algo (set_block_size_limit f limit) ≡ get_hash_algo f)
      × SameType (set_block_size_limit f limit) f
unfolding get_extension_count set_block_size_limit get_block_size_limit get_hash_algo get_node_type
set_block_size_limit_fields f limit = omega arith

-- Setting the hash algorithm stores it modulo 256 and keeps the node type, the extension count, the
-- block size limit and the reserved bits.
pub set_hash_algo_fields :
    (f algo : ℕ)
    → (get_extension_count (set_hash_algo f algo) ≡ get_extension_count f)
      × (get_block_size_limit (set_hash_algo f algo) ≡ get_block_size_limit f)
      × (get_hash_algo (set_hash_algo f algo) ≡ algo % 256)
      × SameType (set_hash_algo f algo) f
unfolding get_extension_count set_hash_algo get_block_size_limit get_hash_algo get_node_type
set_hash_algo_fields f algo = omega arith
