-- ===== src/Core/ByteOrder/Laws.antt =====
-- The lexicographic order of byte strings is a total order.
use casfa.Base.{◌≡◌, refl, IsOrder, [], ◌∷◌, Bytes, true, false, arith, not}
use Prim.Native.Nat.{eq}
use casfa.Core.ByteOrder.{compare_bytes, le_bytes, lt_bytes}

pub compare-eq : (a b : Bytes) → compare_bytes a b ≡ eq → a ≡ b
unfolding compare_bytes
compare-eq [] [] h = refl
compare-eq [] (b ∷ bs) h = cc
compare-eq (a ∷ x) [] h = cc
compare-eq (a ∷ x) (b ∷ y) h = ground (arith, compare-eq x y)

pub compare_self : (a : Bytes) → compare_bytes a a ≡ eq
unfolding compare_bytes
compare_self [] = refl
compare_self (a ∷ x) = ground (arith, compare_self x)

pub lt_bytes_trans :
    (a b c : Bytes) → lt_bytes a b ≡ true → lt_bytes b c ≡ true → lt_bytes a c ≡ true
unfolding lt_bytes
lt_bytes_trans [] [] c h k = cc
lt_bytes_trans [] (b ∷ y) [] h k = cc
lt_bytes_trans [] (b ∷ y) (c ∷ z) h k = refl
lt_bytes_trans (a ∷ x) [] c h k = cc
lt_bytes_trans (a ∷ x) (b ∷ y) [] h k = cc
lt_bytes_trans (a ∷ x) (b ∷ y) (c ∷ z) h k = ground (arith, lt_bytes_trans x y z)

-- Two byte strings are in order one way or the other, and in both only if they are equal.
pub le_bytes-not : (a b : Bytes) → le_bytes a b ≡ not (lt_bytes b a)
unfolding le_bytes lt_bytes
le_bytes-not [] [] = refl
le_bytes-not [] (b ∷ y) = refl
le_bytes-not (a ∷ x) [] = refl
le_bytes-not (a ∷ x) (b ∷ y) = ground (arith, le_bytes-not x y)

le_bytes_trans : (a b c : Bytes) → le_bytes a b ≡ true → le_bytes b c ≡ true → le_bytes a c ≡ true
unfolding le_bytes
le_bytes_trans [] [] [] h k = refl
le_bytes_trans [] [] (c ∷ z) h k = refl
le_bytes_trans [] (b ∷ y) [] h k = refl
le_bytes_trans [] (b ∷ y) (c ∷ z) h k = refl
le_bytes_trans (a ∷ x) [] c h k = cc
le_bytes_trans (a ∷ x) (b ∷ y) [] h k = cc
le_bytes_trans (a ∷ x) (b ∷ y) (c ∷ z) h k = ground (arith, le_bytes_trans x y z)

le_bytes_total : (a b : Bytes) → le_bytes a b ≡ false → le_bytes b a ≡ true
unfolding le_bytes
le_bytes_total [] [] h = cc
le_bytes_total [] (b ∷ y) h = cc
le_bytes_total (a ∷ x) [] h = refl
le_bytes_total (a ∷ x) (b ∷ y) h = ground (arith, le_bytes_total x y)

-- Byte strings that come before each other are equal.
pub le_bytes_antisymm : (a b : Bytes) → le_bytes a b ≡ true → le_bytes b a ≡ true → a ≡ b
unfolding le_bytes
le_bytes_antisymm [] [] h k = refl
le_bytes_antisymm [] (b ∷ y) h k = cc
le_bytes_antisymm (a ∷ x) [] h k = cc
le_bytes_antisymm (a ∷ x) (b ∷ y) h k = ground (arith, le_bytes_antisymm x y)

pub le_bytes-IsOrder : IsOrder le_bytes
le_bytes-IsOrder = record { total = le_bytes_total; trans = le_bytes_trans }
