-- ===== src/Encoding/Hex.antt =====
-- packages/encoding/src/hex.ts. A string is the list of its character codes.
use casfa.Base.{
  ℕ, ◌+◌, ◌-◌, ◌*◌, ◌/◌, ◌%◌, ◌≡◌, refl, Bool, true, ◌||◌, ◌&&◌, Option, none, some, List, [], ◌∷◌,
  ◌++◌, ltb, leb, ◌==◌, if◌then◌else◌, Bytes, Result, ok, err, ◌>>=◌, arith, All, IsByte, length,
  every_below, every_below-at,
}

pub data HexError : Type 0 where
  odd_length : HexError

-- One digit of `toString(16)`.
abbrev pub hex_digit : ℕ → ℕ
hex_digit n = if ltb n 10 then b'0' + n else b'a' + n - 10

-- b.toString(16).padStart(2, "0")
abbrev byte_to_hex : ℕ → List ℕ
byte_to_hex b = hex_digit (b / 16) ∷ hex_digit (b % 16) ∷ []

unfoldable pub bytes_to_hex : Bytes → List ℕ
bytes_to_hex [] = []
bytes_to_hex (b ∷ bytes) = byte_to_hex b ++ bytes_to_hex bytes

unfoldable pub hex_value : ℕ → Option ℕ
hex_value c =
    if leb b'0' c && leb c b'9'
    then some (c - b'0')
    else if leb b'a' c && leb c b'f'
    then some (c - b'a' + 10)
    else if leb b'A' c && leb c b'F'
    then some (c - b'A' + 10)
    else none

-- The white space that `parseInt` skips.
abbrev is_space : ℕ → Bool
is_space c =
    (leb 9 c && leb c 13 || (c == 32 || c == 0xa0))
    || ((c == 0x1680 || leb 0x2000 c && leb c 0x200a)
        || ((leb 0x2028 c && leb c 0x2029 || c == 0x202f)
            || (c == 0x205f || (c == 0x3000 || c == 0xfeff))))

abbrev or_zero : Option ℕ → ℕ
or_zero none = 0
or_zero (some n) = n

-- `Number.parseInt(s, 16)` of two characters, stored into a `Uint8Array`: what is no number becomes 0, and
-- -n becomes 256 - n. The prefix 0x has no digit behind it, and reads as its 0 does.
abbrev parse_after : ℕ → ℕ → ℕ
parse_after a b =
    if is_space a || a == b'+'
    then or_zero (hex_value b)
    else if a == b'-'
    then (256 - or_zero (hex_value b)) % 256
    else 0

abbrev parse_digits : Option ℕ → Option ℕ → ℕ → ℕ → ℕ
parse_digits (some v) (some w) a b = v * 16 + w
parse_digits (some v) none a b = v
parse_digits none w a b = parse_after a b

unfoldable pub parse_byte : ℕ → ℕ → ℕ
unfolding hex_value
parse_byte a b = parse_digits (hex_value a) (hex_value b) a b

unfoldable pub hex_to_bytes : List ℕ → Result HexError Bytes
unfolding parse_byte
hex_to_bytes [] = ok []
hex_to_bytes (a ∷ []) = err odd_length
hex_to_bytes (a ∷ b ∷ hex) = do bytes ← hex_to_bytes hex; ok (parse_byte a b ∷ bytes)

abbrev reads_back : ℕ → Bool
reads_back b = parse_byte (hex_digit (b / 16)) (hex_digit (b % 16)) == b

bytes_table : every_below reads_back 256 ≡ true
unfolding every_below parse_byte
bytes_table = refl

-- hexToBytes reads back what bytesToHex writes.
pub hex_to_bytes-bytes_to_hex :
    (bytes : Bytes) → All IsByte bytes → hex_to_bytes (bytes_to_hex bytes) ≡ ok bytes
unfolding hex_to_bytes bytes_to_hex
hex_to_bytes-bytes_to_hex [] h = refl
hex_to_bytes-bytes_to_hex (b ∷ bytes) h =
    let same : parse_byte (hex_digit (b / 16)) (hex_digit (b % 16)) ≡ b =
      ground (arith, every_below-at reads_back 256 b h.0 bytes_table) in
    rw (hex_to_bytes-bytes_to_hex bytes h.1) (rw same refl)

pub length-bytes_to_hex : (bytes : Bytes) → length (bytes_to_hex bytes) ≡ 2 * length bytes
unfolding bytes_to_hex
length-bytes_to_hex [] = refl
length-bytes_to_hex (b ∷ bytes) = omega (arith, length-bytes_to_hex bytes)
