-- ===== src/Core/Header/Examples.antt =====
-- A concrete header, and the theorems about headers and flags at concrete inputs.
use casfa.Base.{◌≡◌, refl, [], ◌∷◌, err}
use casfa.Core.Errors.{buffer_too_small, invalid_magic}
use casfa.Core.Header.{CasHeader, encode_header, decode_header}

abbrev file_header : CasHeader
file_header = record { magic = 0x01534143; flags = 3; size = 300; count = 2 }

short_buffer : decode_header (1 ∷ 2 ∷ 3 ∷ []) ≡ err buffer_too_small
unfolding decode_header
short_buffer = refl

wrong_magic : decode_header (encode_header (record file_header { magic = 7 })) ≡ err invalid_magic
unfolding decode_header encode_header casfa.Core.Words.u32_bytes casfa.Core.Words.get_uint32
wrong_magic = refl
