-- ===== src/Encoding/Cb32/Examples.antt =====
-- Concrete runs of the Base32 codec, and its theorems at concrete inputs.
use casfa.Base.{◌≡◌, refl, arith, [], ◌∷◌, ok, err, false}
use casfa.Encoding.Cb32.{invalid_character, codes, encode_cb32, decode_cb32, is_valid_cb32}
use casfa.Encoding.Cb32.RoundTrip.{decode-encode}

encode_sample : encode_cb32 (255 ∷ 0 ∷ 171 ∷ []) ≡ codes "ZW0AP"
unfolding encode_cb32
encode_sample = refl

-- Lower case and the confusable letters are read as their digits.
decode_confusable : decode_cb32 (codes "zwoap") ≡ ok (255 ∷ 0 ∷ 171 ∷ [])
unfolding decode_cb32
decode_confusable = refl

decode_invalid : decode_cb32 (codes "Z!") ≡ err (invalid_character b'!')
unfolding decode_cb32
decode_invalid = refl

-- The pattern of `isValidCB32` leaves out the confusable letters that `decodeCB32` takes.
valid_confusable : is_valid_cb32 (codes "ZWOAP") ≡ false
unfolding is_valid_cb32
valid_confusable = refl

decode-encode_example : decode_cb32 (encode_cb32 (255 ∷ 0 ∷ 171 ∷ [])) ≡ ok (255 ∷ 0 ∷ 171 ∷ [])
decode-encode_example = decode-encode (255 ∷ 0 ∷ 171 ∷ []) (omega arith)
