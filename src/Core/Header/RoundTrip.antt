-- ===== src/Core/Header/RoundTrip.antt =====
-- What `decodeHeader` makes of the output of `encodeHeader`, and of other buffers.
use casfa.Base.{◌≡◌, refl, ◌++◌, arith, length, Bytes, IsU32, ok}
use casfa.Core.Words.{u32_bytes, get_uint32}
use casfa.Core.Header.{CasHeader, magic_number, encode_header, decode_header}

pub record IsHeader (h : CasHeader) : Type 0 where
  pub magic : h.magic ≡ magic_number
  pub flags : IsU32 h.flags
  pub size : IsU32 h.size
  pub count : IsU32 h.count

pub length-encode_header : (h : CasHeader) → length (encode_header h) ≡ 16
unfolding encode_header u32_bytes
length-encode_header h = refl

-- A header of 32-bit fields with the magic number is read back from the front of any buffer.
pub decode_header-encode :
    (h : CasHeader) (rest : Bytes) → IsHeader h → decode_header (encode_header h ++ rest) ≡ ok h
unfolding encode_header decode_header u32_bytes get_uint32
decode_header-encode h rest v = ground arith
