-- ===== src/Encoding/Cb32/Alphabet.antt =====
-- What `encodeCB32` writes: how many characters, and that `isValidCB32` accepts them.
use casfa.Base.{
  ℕ, zero, suc, ◌+◌, ◌-◌, ◌*◌, ◌/◌, ◌%◌, ◌^◌, ◌<◌, ◌≤◌, ◌≡◌, refl, true, List, [], ◌∷◌, ◌++◌, arith,
  Bytes, length, length-append, every_below, every_below-at, leb, ltb, Bool-cases, inl, inr,
}
use casfa.Encoding.Cb32.{
  cb32_char, emit_quintets, encode_loop, encode_cb32, is_cb32_char, is_valid_cb32,
}

chars_valid_table : every_below (λ v. is_cb32_char (cb32_char v)) 32 ≡ true
unfolding every_below is_cb32_char cb32_char
chars_valid_table = refl

char-valid : (v : ℕ) → v < 32 → is_cb32_char (cb32_char v) ≡ true
char-valid v h = every_below-at _ 32 v h chars_valid_table

valid-append :
    (xs ys : List ℕ)
    → is_valid_cb32 xs ≡ true
    → is_valid_cb32 ys ≡ true
    → is_valid_cb32 (xs ++ ys) ≡ true
unfolding is_valid_cb32
valid-append [] ys h k = k
valid-append (x ∷ xs) ys h k = ground (arith, valid-append xs ys)

-- The inner loop leaves fewer than 5 bits, and writes one character for each 5 that it takes.
record Emitted (bits_left : ℕ) (r : List ℕ × ℕ) : Type 0 where
  left : r.1 ≡ bits_left % 5
  written : length r.0 ≡ bits_left / 5
  valid : is_valid_cb32 r.0 ≡ true

emit_quintets-Emitted :
    (fuel buffer bits_left : ℕ)
    → bits_left ≤ fuel
    → Emitted bits_left (emit_quintets fuel buffer bits_left)
unfolding emit_quintets is_valid_cb32
emit_quintets-Emitted zero buffer n h = record {
  left = omega arith;
  written = omega arith;
  valid = refl;
}
emit_quintets-Emitted (suc fuel) buffer n h = elim (Bool-cases (leb 5 n)) [
  | inl e ↦
      let big : 5 ≤ n = ground arith in
      let rest = emit_quintets-Emitted fuel buffer (n - 5) (omega arith) in
      rw e (record {
        left = omega (arith, rest.left);
        written = omega (arith, rest.written);
        valid = rw (char-valid (buffer / 2 ^ (n - 5) % 32) (omega arith)) rest.valid;
      })
  | inr e ↦
      let small : n < 5 = ground arith in
      rw e (record { left = omega arith; written = omega arith; valid = refl })
]

record Encoded (count bits_left : ℕ) (out : List ℕ) : Type 0 where
  written : length out ≡ (bits_left + 8 * count + 4) / 5
  valid : is_valid_cb32 out ≡ true

encode_loop-Encoded :
    (bytes : Bytes) (buffer bits_left : ℕ)
    → bits_left < 5
    → Encoded (length bytes) bits_left (encode_loop bytes buffer bits_left)
unfolding encode_loop is_valid_cb32
encode_loop-Encoded [] buffer n h = elim (Bool-cases (ltb 0 n)) [
  | inl e ↦
      let some_bits : 0 < n = ground arith in
      rw e (record {
        written = omega arith;
        valid = rw (char-valid (buffer * 2 ^ (5 - n) % 32) (omega arith)) refl;
      })
  | inr e ↦
      let none_left : n ≡ 0 = ground arith in rw e (record { written = omega arith; valid = refl })
]
encode_loop-Encoded (byte ∷ bytes) buffer n h =
    let buffer' = buffer * 256 % 2 ^ 32 + byte in
    let r = emit_quintets (n + 8) buffer' (n + 8) in
    let first = emit_quintets-Emitted (n + 8) buffer' (n + 8) (omega arith) in
    let rest = encode_loop-Encoded bytes buffer' r.1 (omega (arith, first.left)) in
    record {
      written = omega (
        arith,
        length-append r.0 (encode_loop bytes buffer' r.1),
        first.left,
        first.written,
        rest.written,
      );
      valid = valid-append r.0 (encode_loop bytes buffer' r.1) first.valid rest.valid;
    }

-- n bytes are written as 8 n / 5 characters, rounded up.
pub length-encode : (bytes : Bytes) → length (encode_cb32 bytes) ≡ (8 * length bytes + 4) / 5
unfolding encode_cb32
length-encode bytes =
    let e = encode_loop-Encoded bytes 0 0 (omega arith) in omega (arith, e.written)

-- What the encoder writes is accepted as valid.
pub valid-encode : (bytes : Bytes) → is_valid_cb32 (encode_cb32 bytes) ≡ true
unfolding encode_cb32
valid-encode bytes = let e = encode_loop-Encoded bytes 0 0 (omega arith) in e.valid
