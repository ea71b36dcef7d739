-- ===== src/Core/Text.antt =====
-- Strings at the border of packages/core. A well-formed string is the list of its UTF-8 bytes, so
-- `TextEncoder.encode` is the identity, and equality of strings is equality of the lists.
-- The decoder of the platform is a parameter.
use casfa.Base.{Bytes, Bool, true, ◌≡◌, ◌&&◌, [], ◌∷◌, ltb, if◌then◌else◌, refl, arith}

abbrev pub Text : Type 0
Text = Bytes

-- `TextDecoder`: `decode` replaces what is no UTF-8 and takes a byte order mark off the front, and
-- `is_utf8` is the test that a decoder with `fatal: true` makes. Plain text is UTF-8 without a byte order
-- mark in front: it passes the test and is decoded to itself.
pub record TextDecoder : Type 0 where
  pub decode : Bytes → Text
  pub is_utf8 : Bytes → Bool
  pub is_plain : Bytes → Bool
  pub decode-plain : (bytes : Bytes) → is_plain bytes ≡ true → decode bytes ≡ bytes
  pub utf8-plain : (bytes : Bytes) → is_plain bytes ≡ true → is_utf8 bytes ≡ true

-- A decoder for ASCII texts, which shows that the law can be met.
abbrev pub is_ascii : Bytes → Bool
is_ascii [] = true
is_ascii (b ∷ bs) = ltb b 128 && is_ascii bs

abbrev pub decode_ascii : Bytes → Text
decode_ascii [] = []
decode_ascii (b ∷ bs) = (if ltb b 128 then b else b'?') ∷ decode_ascii bs

pub decode_ascii-valid : (bytes : Bytes) → is_ascii bytes ≡ true → decode_ascii bytes ≡ bytes
decode_ascii-valid [] h = refl
decode_ascii-valid (b ∷ bs) h = ground (arith, decode_ascii-valid bs)

abbrev pub ascii_decoder : TextDecoder
ascii_decoder = record {
  decode = decode_ascii;
  is_utf8 = is_ascii;
  is_plain = is_ascii;
  decode-plain = decode_ascii-valid;
  utf8-plain = λ bytes h. h;
}
