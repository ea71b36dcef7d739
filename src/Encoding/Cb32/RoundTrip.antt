-- ===== src/Encoding/Cb32/RoundTrip.antt =====
-- What `decodeCB32` makes of the output of `encodeCB32`.
use casfa.Base.{
  ℕ, ◌+◌, ◌-◌, ◌*◌, ◌/◌, ◌%◌, ◌^◌, ◌<◌, ◌≡◌, refl, true, some, List, [], ◌∷◌, arith, Bytes, IsByte,
  All, ok, every_below, every_below-at, holds, holds→eq, ◌∙◌,
}
use casfa.Encoding.Cb32.{cb32_char, cb32_decode, encode_loop, decode_loop, encode_cb32, decode_cb32}

chars_table : every_below (λ v. holds (cb32_decode (cb32_char v)) v) 32 ≡ true
unfolding every_below cb32_decode cb32_char
chars_table = refl

-- Each character of the alphabet decodes to its position.
decode-char : (v : ℕ) → v < 32 → cb32_decode (cb32_char v) ≡ some v
decode-char v h = holds→eq _ v (every_below-at _ 32 v h chars_table)

-- One character that leaves fewer than 8 bits, and one that completes a byte.
decode_skip :
    (v : ℕ) (chars : List ℕ) (buffer bits_left : ℕ)
    → v < 32
    → bits_left < 3
    → decode_loop (cb32_char v ∷ chars) buffer bits_left
      ≡ decode_loop chars (buffer * 32 % 2 ^ 32 + v) (bits_left + 5)
unfolding decode_loop
decode_skip v chars buffer bits_left hv hb = ground (arith, decode-char v hv)

decode_push :
    (v : ℕ) (chars : List ℕ) (buffer bits_left x : ℕ) (rest : Bytes)
    → v < 32
    → 2 < bits_left
    → (buffer * 32 % 2 ^ 32 + v) / 2 ^ (bits_left + 5 - 8) % 256 ≡ x
    → decode_loop chars (buffer * 32 % 2 ^ 32 + v) (bits_left + 5 - 8) ≡ ok rest
    → decode_loop (cb32_char v ∷ chars) buffer bits_left ≡ ok (x ∷ rest)
unfolding decode_loop
decode_push v chars buffer bits_left x rest hv hb hx hr = ground (arith, decode-char v hv)

decode_nil : (buffer bits_left : ℕ) → decode_loop [] buffer bits_left ≡ ok []
unfolding decode_loop
decode_nil buffer bits_left = refl

-- The buffer of the encoder after one more byte, and of the decoder after one more character.
abbrev shift_byte : ℕ → ℕ → ℕ
shift_byte buffer y = buffer * 256 % 2 ^ 32 + y

abbrev shift_quintet : ℕ → ℕ → ℕ
shift_quintet buffer v = buffer * 32 % 2 ^ 32 + v

-- One lemma for each number of bits that the encoder holds between two bytes. They are the low bits
-- of the byte `x` before, and the decoder holds the bits of `x` above them.
mutual
  unfolding encode_loop

  after_0 :
      (bytes : Bytes) (B D : ℕ)
      → All IsByte bytes
      → decode_loop (encode_loop bytes B 0) D 0 ≡ ok bytes
  after_0 [] B D h = decode_nil _ _
  after_0 (y ∷ ys) B D h =
      let B' = shift_byte B y in
      let q = B' / 2 ^ 3 % 32 in
      decode_skip q (encode_loop ys B' 3) D 0 (omega arith) (omega arith)
      ∙ after_3 y ys B' (shift_quintet D q) h.0 h.1 (omega arith) (omega arith)

  after_3 :
      (x : ℕ) (bytes : Bytes) (B D : ℕ)
      → IsByte x
      → All IsByte bytes
      → B % 8 ≡ x % 8
      → D % 32 ≡ x / 8
      → decode_loop (encode_loop bytes B 3) D 5 ≡ ok (x ∷ bytes)
  after_3 x [] B D hx h hB hD =
      decode_push (B * 4 % 32) [] D 5 x [] (omega arith) (omega arith) (omega arith)
        (decode_nil _ _)
  after_3 x (y ∷ ys) B D hx h hB hD =
      let B' = shift_byte B y in
      let q = B' / 2 ^ 6 % 32 in
      let r = B' / 2 ^ 1 % 32 in
      let D' = shift_quintet D q in
      decode_push q (cb32_char r ∷ encode_loop ys B' 1) D 5 x (y ∷ ys) (omega arith) (omega arith)
        (omega arith)
        (decode_skip r (encode_loop ys B' 1) D' 2 (omega arith) (omega arith)
          ∙ after_1 y ys B' (shift_quintet D' r) h.0 h.1 (omega arith) (omega arith))

  after_1 :
      (x : ℕ) (bytes : Bytes) (B D : ℕ)
      → IsByte x
      → All IsByte bytes
      → B % 2 ≡ x % 2
      → D % 128 ≡ x / 2
      → decode_loop (encode_loop bytes B 1) D 7 ≡ ok (x ∷ bytes)
  after_1 x [] B D hx h hB hD =
      decode_push (B * 16 % 32) [] D 7 x [] (omega arith) (omega arith) (omega arith)
        (decode_nil _ _)
  after_1 x (y ∷ ys) B D hx h hB hD =
      let B' = shift_byte B y in
      let q = B' / 2 ^ 4 % 32 in
      decode_push q (encode_loop ys B' 4) D 7 x (y ∷ ys) (omega arith) (omega arith) (omega arith)
        (after_4 y ys B' (shift_quintet D q) h.0 h.1 (omega arith) (omega arith))

  after_4 :
      (x : ℕ) (bytes : Bytes) (B D : ℕ)
      → IsByte x
      → All IsByte bytes
      → B % 16 ≡ x % 16
      → D % 16 ≡ x / 16
      → decode_loop (encode_loop bytes B 4) D 4 ≡ ok (x ∷ bytes)
  after_4 x [] B D hx h hB hD =
      decode_push (B * 2 % 32) [] D 4 x [] (omega arith) (omega arith) (omega arith)
        (decode_nil _ _)
  after_4 x (y ∷ ys) B D hx h hB hD =
      let B' = shift_byte B y in
      let q = B' / 2 ^ 7 % 32 in
      let r = B' / 2 ^ 2 % 32 in
      let D' = shift_quintet D q in
      decode_push q (cb32_char r ∷ encode_loop ys B' 2) D 4 x (y ∷ ys) (omega arith) (omega arith)
        (omega arith)
        (decode_skip r (encode_loop ys B' 2) D' 1 (omega arith) (omega arith)
          ∙ after_2 y ys B' (shift_quintet D' r) h.0 h.1 (omega arith) (omega arith))

  after_2 :
      (x : ℕ) (bytes : Bytes) (B D : ℕ)
      → IsByte x
      → All IsByte bytes
      → B % 4 ≡ x % 4
      → D % 64 ≡ x / 4
      → decode_loop (encode_loop bytes B 2) D 6 ≡ ok (x ∷ bytes)
  after_2 x [] B D hx h hB hD =
      decode_push (B * 8 % 32) [] D 6 x [] (omega arith) (omega arith) (omega arith)
        (decode_nil _ _)
  after_2 x (y ∷ ys) B D hx h hB hD =
      let B' = shift_byte B y in
      let q = B' / 2 ^ 5 % 32 in
      let r = B' / 2 ^ 0 % 32 in
      let D' = shift_quintet D q in
      decode_push q (cb32_char r ∷ encode_loop ys B' 0) D 6 x (y ∷ ys) (omega arith) (omega arith)
        (omega arith)
        (decode_push r (encode_loop ys B' 0) D' 3 y ys (omega arith) (omega arith) (omega arith)
          (after_0 ys B' (shift_quintet D' r) h.1))

-- Decoding what was encoded gives the bytes back, for byte strings of every length whose elements are
-- below 256.
pub decode-encode : (bytes : Bytes) → All IsByte bytes → decode_cb32 (encode_cb32 bytes) ≡ ok bytes
unfolding decode_cb32 encode_cb32
decode-encode bytes h = after_0 bytes 0 0 h
