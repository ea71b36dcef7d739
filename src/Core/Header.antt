-- ===== src/Core/Header.antt =====
-- packages/core/src/header.ts and the constants that it uses. A 32-bit `flags` is its bit pattern,
-- and a mask with a shift is written as `/` and `%`: `(flags & 0b1100) >>> 2` is `flags / 4 % 4`.
pub mod Flags
pub mod RoundTrip
mod Examples
use casfa.Base.{
  ℕ, ◌+◌, ◌-◌, ◌*◌, ◌/◌, ◌%◌, ◌≡◌, refl, ◌++◌, ltb, ◌==◌, not, length, Bytes, Result, ok, err,
  guard, ◌>>=◌, ◌>>◌,
}
use casfa.Core.Errors.{CoreError, buffer_too_small, invalid_magic}
use casfa.Core.NodeType
use casfa.Core.Words.{u32_bytes, get_uint32}

abbrev pub magic_number : ℕ
magic_number = 0x01534143

abbrev pub header_size : ℕ
header_size = 16

abbrev pub hash_size : ℕ
hash_size = 16

abbrev pub blake3s_128 : ℕ
blake3s_128 = 0

pub record CasHeader : Type 0 where
  pub magic : ℕ
  pub flags : ℕ
  pub size : ℕ
  pub count : ℕ

unfoldable pub encode_header : CasHeader → Bytes
encode_header h =
    u32_bytes h.magic ++ (u32_bytes h.flags ++ (u32_bytes h.size ++ u32_bytes h.count))

unfoldable pub decode_header : Bytes → Result CoreError CasHeader
decode_header buffer = do
  guard (not (ltb (length buffer) header_size)) buffer_too_small
  magic ← get_uint32 buffer 0
  guard (magic == magic_number) invalid_magic
  flags ← get_uint32 buffer 4
  size ← get_uint32 buffer 8
  count ← get_uint32 buffer 12
  ok (record { magic = magic; flags = flags; size = size; count = count })

unfoldable pub get_node_type : ℕ → ℕ
get_node_type flags = flags % 4

unfoldable pub get_extension_count : ℕ → ℕ
get_extension_count flags = flags / 4 % 4

unfoldable pub set_extension_count : ℕ → ℕ → ℕ
set_extension_count flags count = flags - flags / 4 % 4 * 4 + count % 4 * 4

unfoldable pub get_block_size_limit : ℕ → ℕ
get_block_size_limit flags = flags / 16 % 16

unfoldable pub set_block_size_limit : ℕ → ℕ → ℕ
set_block_size_limit flags limit = flags - flags / 16 % 16 * 16 + limit % 16 * 16

unfoldable pub get_hash_algo : ℕ → ℕ
get_hash_algo flags = flags / 256 % 256

unfoldable pub set_hash_algo : ℕ → ℕ → ℕ
set_hash_algo flags algo = flags - flags / 256 % 256 * 256 + algo % 256 * 256

-- The reserved bits 16 to 31, `flags & RESERVED_MASK`, shifted down.
abbrev pub reserved_bits : ℕ → ℕ
reserved_bits flags = flags / 65536

abbrev pub build_set_flags : ℕ
build_set_flags = NodeType.set + blake3s_128 * 256

abbrev pub build_dict_flags : ℕ
build_dict_flags = NodeType.dict + blake3s_128 * 256

abbrev pub build_successor_flags : ℕ
build_successor_flags = NodeType.successor + blake3s_128 * 256

abbrev pub build_file_flags : ℕ
build_file_flags = NodeType.file + blake3s_128 * 256

abbrev pub create_header : ℕ → ℕ → ℕ → CasHeader
create_header flags size count = record {
  magic = magic_number;
  flags = flags;
  size = size;
  count = count;
}

unfoldable pub create_set_header : ℕ → CasHeader
create_set_header count = create_header build_set_flags 0 count

unfoldable pub create_dict_header : ℕ → ℕ → CasHeader
create_dict_header payload_size count = create_header build_dict_flags payload_size count

unfoldable pub create_successor_header : ℕ → ℕ → CasHeader
create_successor_header data_size count = create_header build_successor_flags data_size count

unfoldable pub create_file_header : ℕ → ℕ → CasHeader
create_file_header payload_size count = create_header build_file_flags payload_size count
