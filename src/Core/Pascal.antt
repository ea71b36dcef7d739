-- ===== src/Core/Pascal.antt =====
-- Pascal strings of packages/core/src/utils.ts: a 16-bit length and the UTF-8 bytes.
pub mod RoundTrip
mod Examples
use casfa.Base.{
  ℕ, zero, suc, ◌+◌, ◌≡◌, refl, List, [], ◌∷◌, ◌++◌, ltb, not, length, take, drop, concat, Bytes,
  Result, ok, err, guard, ◌>>=◌, ◌>>◌,
}
use casfa.Core.Errors.{CoreError, string_too_long, no_string_length, no_string_content}
use casfa.Core.Words.{u16_bytes, get_uint16}
use casfa.Core.Text.{Text, TextDecoder}

-- buffer.slice(from, from + size) and the same `subarray`: short at the end of the buffer.
abbrev pub slice : Bytes → ℕ → ℕ → Bytes
slice buffer from size = take size (drop from buffer)

unfoldable pub encode_pascal_string : Text → Result CoreError Bytes
encode_pascal_string str = do
  guard (not (ltb 0xffff (length str))) string_too_long
  ok (u16_bytes (length str) ++ str)

unfoldable pub encode_pascal_strings : List Text → Result CoreError Bytes
encode_pascal_strings [] = ok []
encode_pascal_strings (str ∷ strings) = do
  head ← encode_pascal_string str
  rest ← encode_pascal_strings strings
  ok (head ++ rest)

module _ (text : TextDecoder) where
  -- The string at the offset, and the bytes consumed.
  unfoldable pub decode_pascal_string : Bytes → ℕ → Result CoreError (Text × ℕ)
  decode_pascal_string buffer offset = do
    guard (not (ltb (length buffer) (offset + 2))) no_string_length
    size ← get_uint16 buffer offset
    guard (not (ltb (length buffer) (offset + 2 + size))) no_string_content
    ok (text.decode (slice buffer (offset + 2) size), 2 + size)

  -- The loop over `count` strings from the position `pos`.
  unfoldable pub decode_pascal_strings : Bytes → ℕ → ℕ → Result CoreError (List Text)
  decode_pascal_strings buffer pos zero = ok []
  decode_pascal_strings buffer pos (suc count) = do
    (str, consumed) ← decode_pascal_string buffer pos
    rest ← decode_pascal_strings buffer (pos + consumed) count
    ok (str ∷ rest)

unfoldable pub concat_bytes : List Bytes → Bytes
concat_bytes arrays = concat arrays
