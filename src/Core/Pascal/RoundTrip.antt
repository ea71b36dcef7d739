-- ===== src/Core/Pascal/RoundTrip.antt =====
-- Encoded strings are read back, wherever they stand in a buffer.
use casfa.Base.{
  ℕ, suc, ◌+◌, ◌<◌, ◌≡◌, refl, ◌∙◌, ap, true, List, [], ◌∷◌, ◌++◌, append_assoc, arith, length,
  take, drop, Bytes, All, ok, length-append, drop-append, take-append, drop-drop, >>=-eq-ok, ◌-◌,
  length-drop, le→ltb,
}
use casfa.Core.Words.{u16_bytes, get_uint16, get_uint16-u16_bytes}
use casfa.Core.Text.{Text, TextDecoder}
use casfa.Core.Pascal.{
  encode_pascal_string, encode_pascal_strings, decode_pascal_string, decode_pascal_strings,
}

pub length-encoding_at :
    (str rest : Bytes)
    → length (u16_bytes (length str) ++ (str ++ rest)) ≡ 2 + length str + length rest
unfolding u16_bytes
length-encoding_at str rest = omega (arith, length-append str rest)

pub drop-encoding :
    (str rest : Bytes) → drop (2 + length str) (u16_bytes (length str) ++ (str ++ rest)) ≡ rest
unfolding u16_bytes
drop-encoding str rest =
    let e : 2 + length str ≡ suc (suc (length str)) = omega arith in rw e (drop-append str rest)

pub get_uint16_at :
    (buffer : Bytes) (offset n : ℕ) (rest : Bytes)
    → n < 65536
    → drop offset buffer ≡ u16_bytes n ++ rest
    → get_uint16 buffer offset ≡ ok n
unfolding get_uint16
get_uint16_at buffer offset n rest hn h = rw h (unfold get_uint16 in get_uint16-u16_bytes n rest hn)

-- A string is encoded exactly if its bytes fit a 16-bit length.
encode-string-eq-ok :
    (str bytes : Bytes)
    → encode_pascal_string str ≡ ok bytes
    → (length str < 65536) × (bytes ≡ u16_bytes (length str) ++ str)
unfolding encode_pascal_string
encode-string-eq-ok str bytes h = ground arith

pub encode-strings-eq-ok :
    (str : Text) (strings : List Text) (bytes : Bytes)
    → encode_pascal_strings (str ∷ strings) ≡ ok bytes
    → (tail : Bytes) × (encode_pascal_strings strings ≡ ok tail)
      × (length str < 65536)
      × (bytes ≡ u16_bytes (length str) ++ (str ++ tail))
unfolding encode_pascal_strings
encode-strings-eq-ok str strings bytes h =
    let (head, eh, h') = >>=-eq-ok (encode_pascal_string str) _ h in
    let (tail, et, h'') = >>=-eq-ok (encode_pascal_strings strings) _ h' in
    let (small, e) = encode-string-eq-ok str head eh in
    (tail, et, small, ground (arith, append_assoc (u16_bytes (length str)) str tail))

module _ (text : TextDecoder) where
  abbrev pub IsText : Text → Type 0
  IsText str = text.is_plain str ≡ true

  -- A string whose encoding stands at the offset.
  decode-string_at :
      (buffer : Bytes) (offset : ℕ) (str rest : Bytes)
      → IsText str
      → length str < 65536
      → drop offset buffer ≡ u16_bytes (length str) ++ (str ++ rest)
      → decode_pascal_string text buffer offset ≡ ok (str, 2 + length str)
  unfolding decode_pascal_string
  decode-string_at buffer offset str rest hv hl h =
      let size : length buffer - offset ≡ 2 + length str + length rest =
        rw (← length-drop offset buffer) (ap length h ∙ length-encoding_at str rest) in
      let head : get_uint16 buffer offset ≡ ok (length str) =
        get_uint16_at buffer offset (length str) (str ++ rest) hl h in
      let body : take (length str) (drop (offset + 2) buffer) ≡ str =
        rw (← drop-drop offset 2 buffer, h) (unfold u16_bytes in take-append str rest) in
      rw
        (
          le→ltb (length buffer) (offset + 2) (omega arith),
          head,
          le→ltb (length buffer) (offset + 2 + length str) (omega arith),
          body,
          text.decode-plain str hv,
        )
        refl

  -- Strings whose encodings stand one behind the other at the position.
  pub decode-strings_at :
      (buffer : Bytes) (pos : ℕ) (strings : List Text) (bytes rest : Bytes)
      → All IsText strings
      → encode_pascal_strings strings ≡ ok bytes
      → drop pos buffer ≡ bytes ++ rest
      → decode_pascal_strings text buffer pos (length strings) ≡ ok strings
  unfolding decode_pascal_strings
  decode-strings_at buffer pos [] bytes rest hv he h = refl
  decode-strings_at buffer pos (str ∷ strings) bytes rest hv he h =
      let (tail, et, small, e) = encode-strings-eq-ok str strings bytes he in
      let here : drop pos buffer ≡ u16_bytes (length str) ++ (str ++ (tail ++ rest)) =
        h ∙ rw e (simp append_assoc) in
      let next : drop (pos + (2 + length str)) buffer ≡ tail ++ rest =
        rw (← drop-drop pos (2 + length str) buffer, here) (drop-encoding str (tail ++ rest)) in
      rw
        (
          decode-string_at buffer pos str (tail ++ rest) hv.0 small here,
          decode-strings_at buffer (pos + (2 + length str)) strings tail rest hv.1 et next,
        )
        refl

  -- Reading as many strings as were encoded gives the strings back, whatever stands before and behind
  -- them in the buffer, where the strings are valid for the decoder and the encoder took them.
  pub decode-encode_strings :
      (strings : List Text) (front bytes rest : Bytes)
      → All IsText strings
      → encode_pascal_strings strings ≡ ok bytes
      → decode_pascal_strings text (front ++ (bytes ++ rest)) (length front) (length strings)
        ≡ ok strings
  decode-encode_strings strings front bytes rest hv he =
      decode-strings_at _ (length front) strings bytes rest hv he
        (drop-append front (bytes ++ rest))
