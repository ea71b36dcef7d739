-- ===== src/Encoding/Cb32.antt =====
-- packages/encoding/src/crockford-base32.ts. A string is the list of its character codes.
-- The bit buffer is a 32-bit integer: its pattern is kept, and `<<` wraps modulo 2 ^ 32. Each use of
-- `>>` is masked to bits that the buffer still holds, so it reads the pattern as an unsigned number.
pub mod RoundTrip
pub mod Alphabet
mod Examples
use Prim.Native.Char.{code}
use Prim.Native.String.{String}
use casfa.Base.{
  ℕ, zero, suc, ◌+◌, ◌-◌, ◌*◌, ◌/◌, ◌%◌, ◌^◌, ◌≡◌, refl, Bool, ◌||◌, ◌&&◌, Option, none, some, List,
  [], ◌∷◌, ◌++◌, ltb, leb, ◌==◌, if◌then◌else◌, get_or, Bytes, Result, ok, err, ◌>>=◌,
}

pub data Cb32Error : Type 0 where
  invalid_character : ℕ → Cb32Error

abbrev pub codes : String → List ℕ
codes String.[] = []
codes (String.◌∷◌ c s) = code c ∷ codes s

abbrev pub cb32_alphabet : List ℕ
cb32_alphabet = codes "0123456789ABCDEFGHJKMNPQRSTVWXYZ"

-- `toLowerCase` on one ASCII character.
to_lower_case : ℕ → ℕ
to_lower_case c = if leb b'A' c && leb c b'Z' then c + 32 else c

-- The position in the alphabet of a character or of its lower-case form.
alphabet_index : ℕ → ℕ → List ℕ → Option ℕ
unfolding to_lower_case
alphabet_index c i [] = none
alphabet_index c i (a ∷ rest) =
    if a == c || to_lower_case a == c then some i else alphabet_index c (i + 1) rest

-- The table CB32_DECODE. The confusable characters are assigned last, so they come first here.
unfoldable pub cb32_decode : ℕ → Option ℕ
unfolding alphabet_index
cb32_decode c =
    if c == b'I' || c == b'i' || c == b'L' || c == b'l'
    then some 1
    else if c == b'O' || c == b'o'
    then some 0
    else alphabet_index c 0 cb32_alphabet

pub cb32_char : ℕ → ℕ
cb32_char v = get_or cb32_alphabet v 0

-- The inner `while (bitsLeft >= 5)` of `encodeCB32`: what it appends, and the bits left behind it.
-- Each round takes 5 bits, so `bitsLeft` rounds are enough.
emit_quintets : ℕ → ℕ → ℕ → List ℕ × ℕ
emit_quintets zero buffer bits_left = ([], bits_left)
emit_quintets (suc fuel) buffer bits_left =
    let rest = emit_quintets fuel buffer (bits_left - 5) in
    if leb 5 bits_left
    then (cb32_char (buffer / 2 ^ (bits_left - 5) % 32) ∷ rest.0, rest.1)
    else ([], bits_left)

encode_loop : Bytes → ℕ → ℕ → List ℕ
unfolding emit_quintets
encode_loop [] buffer bits_left =
    if ltb 0 bits_left then cb32_char (buffer * 2 ^ (5 - bits_left) % 32) ∷ [] else []
encode_loop (byte ∷ bytes) buffer bits_left =
    let buffer' = buffer * 256 % 2 ^ 32 + byte in
    let (out, bits_left') = emit_quintets (bits_left + 8) buffer' (bits_left + 8) in
    out ++ encode_loop bytes buffer' bits_left'

unfoldable pub encode_cb32 : Bytes → List ℕ
unfolding encode_loop cb32_char
encode_cb32 bytes = encode_loop bytes 0 0

decode_loop : List ℕ → ℕ → ℕ → Result Cb32Error Bytes
decode_loop [] buffer bits_left = ok []
decode_loop (char ∷ chars) buffer bits_left = elim (cb32_decode char) [
  | none ↦ err (invalid_character char)
  | some value ↦
      let buffer' = buffer * 32 % 2 ^ 32 + value in
      let bits_left' = bits_left + 5 in
      let skipped = decode_loop chars buffer' bits_left' in
      let pushed : Result Cb32Error Bytes = (do
        rest ← decode_loop chars buffer' (bits_left' - 8)
        ok ((buffer' / 2 ^ (bits_left' - 8) % 256) ∷ rest)) in
      if leb 8 bits_left' then pushed else skipped
]

unfoldable pub decode_cb32 : List ℕ → Result Cb32Error Bytes
unfolding decode_loop cb32_decode
decode_cb32 str = decode_loop str 0 0

-- The pattern /^[0-9A-HJ-KM-NP-TV-Za-hj-km-np-tv-z]+$/ on one character.
is_cb32_char : ℕ → Bool
is_cb32_char c =
    leb b'0' c && leb c b'9'
    || leb b'A' c && leb c b'H'
    || leb b'J' c && leb c b'K'
    || leb b'M' c && leb c b'N'
    || leb b'P' c && leb c b'T'
    || leb b'V' c && leb c b'Z'
    || leb b'a' c && leb c b'h'
    || leb b'j' c && leb c b'k'
    || leb b'm' c && leb c b'n'
    || leb b'p' c && leb c b't'
    || leb b'v' c && leb c b'z'

unfoldable pub is_valid_cb32 : List ℕ → Bool
unfolding is_cb32_char
is_valid_cb32 [] = Bool.true
is_valid_cb32 (c ∷ cs) = is_cb32_char c && is_valid_cb32 cs
