-- ===== src/Base/Sorted.antt =====
-- The sort of Base.Sort: what it keeps, that its result is in order, and that the order of the
-- input does not matter where different elements never tie.
use Prim.Native.Nat.{suc}
use mathlib.Core.Path.{◌≡◌, refl, ◌∙◌, ap}
use mathlib.Core.Logic.{inl, inr}
use mathlib.Core.Bool.{Bool, true, false, ◌&&◌}
use mathlib.Core.List.{List, [], ◌∷◌}
use native.Mathlib.Omega.{arith}
use casfa.Base.Tests.{Bool-cases}
use casfa.Base.Lists.{length, All}
use casfa.Base.Sort.{insert, sort}

module _ {ℓ} {A : Type ℓ} (le : A → A → Bool) where
  length-insert : (x : A) (xs : List A) → length (insert le x xs) ≡ length (x ∷ xs)
  unfolding insert
  length-insert x [] = refl
  length-insert x (y ∷ ys) = ground (arith, length-insert x ys)

  pub length-sort : (xs : List A) → length (sort le xs) ≡ length xs
  unfolding sort
  length-sort [] = refl
  length-sort (x ∷ xs) = length-insert x (sort le xs) ∙ ap suc (length-sort xs)

  All-insert {κ} : (P : A → Type κ) (x : A) (xs : List A) → P x → All P xs → All P (insert le x xs)
  unfolding insert
  All-insert P x [] h hs = (h, hs)
  All-insert P x (y ∷ ys) h hs = elim (Bool-cases (le x y)) [
    | inl e ↦ rw e (h, hs)
    | inr e ↦ rw e (hs.0, All-insert P x ys h hs.1)
  ]

  -- Sorting keeps what holds of every element.
  pub All-sort {κ} : (P : A → Type κ) (xs : List A) → All P xs → All P (sort le xs)
  unfolding sort
  All-sort P [] h = h
  All-sort P (x ∷ xs) h = All-insert P x (sort le xs) h.0 (All-sort P xs h.1)

  -- Neighbours are in order.
  unfoldable pub is_ordered : List A → Bool
  is_ordered [] = true
  is_ordered (x ∷ []) = true
  is_ordered (x ∷ y ∷ rest) = le x y && is_ordered (y ∷ rest)

  insert-ordered :
      ((x y : A) → le x y ≡ false → le y x ≡ true)
      → (x : A) (xs : List A) → is_ordered xs ≡ true
      → is_ordered (insert le x xs) ≡ true
  unfolding is_ordered insert
  insert-ordered total x [] h = refl
  insert-ordered total x (y ∷ []) h = ground (arith, total x y)
  insert-ordered total x (y ∷ z ∷ rest) h =
      ground (arith, total x y, insert-ordered total x (z ∷ rest))

  -- The result of the sort is in order, for a test of which one of two elements always comes first.
  pub sort-ordered :
      ((x y : A) → le x y ≡ false → le y x ≡ true) → (xs : List A) → is_ordered (sort le xs) ≡ true
  unfolding is_ordered sort
  sort-ordered total [] = refl
  sort-ordered total (x ∷ xs) = insert-ordered total x (sort le xs) (sort-ordered total xs)
