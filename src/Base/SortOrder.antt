-- ===== src/Base/SortOrder.antt =====
-- The order of the input does not matter to the sort of Base.Sort where different elements never tie.
use mathlib.Core.Path.{◌≡◌, refl, sym, ◌∙◌}
use mathlib.Core.Logic.{∥∥₁_elim}
use mathlib.Core.HLevel.{Π_prop}
use mathlib.Core.Bool.{Bool, true, false}
use mathlib.Core.List.{List, [], ◌∷◌, Permᴰ, Perm, Pairwise, mem-cons_self}
use mathlib.Core.List.Permᴰ
use native.Mathlib.Omega.{arith}
use casfa.Base.Sort.{insert, sort}

-- A total preorder as a Boolean test.
pub record IsOrder {ℓ} {A : Type ℓ} (le : A → A → Bool) : Type ℓ where
  pub total : (x y : A) → le x y ≡ false → le y x ≡ true
  pub trans : (x y z : A) → le x y ≡ true → le y z ≡ true → le x z ≡ true

-- Elements that tie are equal.
abbrev pub Separates {ℓ} : {A : Type ℓ} → (A → A → Bool) → A → A → Type ℓ
Separates le x y = le x y ≡ true → le y x ≡ true → x ≡ y

module _ {ℓ} {A : Type ℓ} (le : A → A → Bool) (order : IsOrder le) where
  insert_comm :
      (x y : A) (l : List A)
      → Separates le x y
      → insert le x (insert le y l) ≡ insert le y (insert le x l)
  unfolding insert
  insert_comm x y [] s = ground (arith, order.total x y, order.total y x, s)
  insert_comm x y (z ∷ zs) s = ground (
    arith,
    order.total x y,
    order.total y x,
    order.trans x y z,
    order.trans y x z,
    s,
    insert_comm x y zs s,
  )

  module _ (set : IsSet A) where
    sort-Permᴰ :
        {xs ys : List A} → Permᴰ xs ys → Pairwise (Separates le) xs → sort le xs ≡ sort le ys
    unfolding sort
    sort-Permᴰ Permᴰ.nil h = refl
    sort-Permᴰ (Permᴰ.cons {a = a} {b = b} e p) (Pairwise.cons h t) = rw (e, sort-Permᴰ p t)
    sort-Permᴰ (Permᴰ.swap {a = a} {b = b} {l = l} e f) (Pairwise.cons h t) =
        rw (← e, ← f) (insert_comm a b (sort le l) (h b mem-cons_self))
    sort-Permᴰ (Permᴰ.trans p q) h =
        sort-Permᴰ p h
        ∙ sort-Permᴰ q (
            Permᴰ.pairwise (λ a b. Π_prop (λ _. Π_prop (λ _. set a b))) (λ a b s u v. sym (s v u)) p
              h)

    -- Lists of the same elements are sorted to the same list.
    pub sort-Perm :
        {xs ys : List A} → Perm xs ys → Pairwise (Separates le) xs → sort le xs ≡ sort le ys
    sort-Perm {xs = xs} {ys = ys} p h =
        let lists : IsSet (List A) = hlevel set in
        ∥∥₁_elim p (lists (sort le xs) (sort le ys)) (λ d. sort-Permᴰ d h)

-- Where ties are equalities everywhere, no condition is left.
pub Separates-Pairwise {ℓ} :
    {A : Type ℓ} (le : A → A → Bool)
    → ((x y : A) → Separates le x y)
    → (xs : List A) → Pairwise (Separates le) xs
Separates-Pairwise le h [] = Pairwise.nil
Separates-Pairwise le h (x ∷ xs) = Pairwise.cons (λ y _. h x y) (Separates-Pairwise le h xs)
