-- ===== src/Core/Pascal/Examples.antt =====
-- Two concrete names, and their encoding.
use casfa.Base.{◌≡◌, refl, List, [], ◌∷◌, Bytes, ok}
use casfa.Core.Text.{Text}
use casfa.Core.Pascal.{encode_pascal_strings, decode_pascal_strings}

abbrev names : List Text
names = (97 ∷ 98 ∷ []) ∷ (99 ∷ []) ∷ []

abbrev names_bytes : Bytes
names_bytes = 2 ∷ 0 ∷ 97 ∷ 98 ∷ 1 ∷ 0 ∷ 99 ∷ []

names_encoded : encode_pascal_strings names ≡ ok names_bytes
unfolding encode_pascal_strings casfa.Core.Pascal.encode_pascal_string casfa.Core.Words.u16_bytes
names_encoded = refl
