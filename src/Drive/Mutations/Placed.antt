-- ===== src/Drive/Mutations/Placed.antt =====
-- Where `addOrReplaceInDict` puts a new entry: names in the order of the collation stay in order, and the
-- child goes to the place of its name.
use casfa.Base.{
  ℕ, zero, suc, ◌+◌, ◌≤◌, ◌≡◌, refl, ap, true, Bool, none, some, List, [], ◌∷◌, ◌++◌, length, map,
  arith, if◌then◌else◌, inl, inr, Bool-cases, Option-cases, insert, sort, is_ordered, Bytes, All,
}
use casfa.Core.Text.{Text, TextDecoder}
use casfa.Core.Node.{Entry}
use casfa.Core.Node.Directory.{name_of}
use casfa.Storage.{same_key, same_key_iff, same_key_self}
use casfa.Drive.{index_of}
use casfa.Drive.Entries.{child_at, IsEntry, dict_size}
use casfa.Drive.Mutations.{insert_at}

module _ {ℓ} {A : Type ℓ} (le : A → A → Bool) where
  insert-front : (x : A) (ys : List A) → is_ordered le (x ∷ ys) ≡ true → insert le x ys ≡ x ∷ ys
  unfolding insert is_ordered
  insert-front x [] h = refl
  insert-front x (y ∷ ys) h = ground (arith, h)

  ordered-tail : (x : A) (ys : List A) → is_ordered le (x ∷ ys) ≡ true → is_ordered le ys ≡ true
  unfolding is_ordered
  ordered-tail x [] h = refl
  ordered-tail x (y ∷ ys) h = ground (arith, h)

  insert-behind :
      (y x : A) (j : ℕ) (zs : List A)
      → suc j ≤ length zs
      → is_ordered le (y ∷ zs) ≡ true
      → insert le y (insert_at (suc j) x zs) ≡ y ∷ insert_at (suc j) x zs
  unfolding insert is_ordered
  insert-behind y x j [] small o = absurd (omega arith)
  insert-behind y x j (z ∷ zs) small o = ground (arith, o)

  insert-placed :
      (y x : A) (j : ℕ) (ys : List A)
      → j ≤ length ys
      → is_ordered le (y ∷ ys) ≡ true
      → (k : ℕ) × (k ≤ suc (length ys)) × (insert le y (insert_at j x ys) ≡ insert_at k x (y ∷ ys))
  unfolding insert
  insert-placed y x zero ys small o = elim (Bool-cases (le y x)) [
    | inl first ↦ (1, omega arith, rw first refl)
    | inr later ↦ (0, omega arith, rw later (ap (λ t. x ∷ t) (insert-front y ys o)))
  ]
  insert-placed y x (suc j) ys small o = (suc (suc j), omega arith, insert-behind y x j ys small o)

  -- Sorting a list in order with one more element at its end puts that element somewhere.
  pub sort-last :
      (xs : List A) (x : A)
      → is_ordered le xs ≡ true
      → (j : ℕ) × (j ≤ length xs) × (sort le (xs ++ (x ∷ [])) ≡ insert_at j x xs)
  unfolding sort insert
  sort-last [] x h = (0, omega arith, refl)
  sort-last (y ∷ ys) x h =
      let (j, small, e) = sort-last ys x (ordered-tail y ys h) in
      let (k, bound, placed) = insert-placed y x j ys small h in (k, bound, rw e placed)

index_of-placed :
    (names : List Text) (name : Text) (j : ℕ)
    → index_of names name ≡ none
    → j ≤ length names
    → index_of (insert_at j name names) name ≡ some j
unfolding index_of
index_of-placed names name zero h small = rw (same_key_self name) refl
index_of-placed [] name (suc j) h small = absurd (omega arith)
index_of-placed (n ∷ names) name (suc j) h small = elim (Bool-cases (same_key n name)) [
  | inl e ↦ absurd (ground (arith, h, e))
  | inr e ↦ elim (Option-cases (index_of names name)) [
    | inl gone ↦ rw e (rw (index_of-placed names name j gone (omega arith)) refl)
    | inr (i, found) ↦ absurd (ground (arith, h, e, found))
  ]
]

-- A new name goes where the collation has it, if the names were in its order.
pub name-placed :
    (le : Text → Text → Bool) (names : List Text) (name : Text)
    → is_ordered le names ≡ true
    → index_of names name ≡ none
    → (j : ℕ) × (sort le (names ++ (name ∷ [])) ≡ insert_at j name names)
      × (index_of (sort le (names ++ (name ∷ []))) name ≡ some j)
name-placed le names name o h =
    let (j, small, e) = sort-last le names name o in
    (j, e, rw e (index_of-placed names name j h small))

pub map-insert_at :
    (f : Entry → Text) (j : ℕ) (p : Entry) (entries : List Entry)
    → map f (insert_at j p entries) ≡ insert_at j (f p) (map f entries)
map-insert_at f zero p entries = refl
map-insert_at f (suc j) p [] = refl
map-insert_at f (suc j) p (q ∷ entries) = ap (λ t. f q ∷ t) (map-insert_at f j p entries)

pub child_at-insert_at :
    (j : ℕ) (name : Text) (hash : Bytes) (entries : List Entry) (other : Text)
    → index_of (map name_of entries) name ≡ none
    → child_at (insert_at j (name, hash) entries) other
      ≡ (if same_key name other then some hash else child_at entries other)
unfolding child_at index_of
child_at-insert_at zero name hash entries other h = refl
child_at-insert_at (suc j) name hash [] other h = refl
child_at-insert_at (suc j) name hash (q ∷ entries) other h = elim (Bool-cases (same_key q.0 name)) [
  | inl e ↦ absurd (ground (arith, h, e))
  | inr e ↦ elim (Option-cases (index_of (map name_of entries) name)) [
    | inl gone ↦
        rw (child_at-insert_at j name hash entries other gone) (
          ground (arith, e, same_key_iff q.0 name, same_key_iff q.0 other, same_key_iff name other))
    | inr (i, found) ↦ absurd (ground (arith, h, e, found))
  ]
]

pub All-insert_at :
    (text : TextDecoder) (j : ℕ) (p : Entry) (entries : List Entry)
    → IsEntry text p
    → All (IsEntry text) entries
    → All (IsEntry text) (insert_at j p entries)
All-insert_at text zero p entries v h = (v, h)
All-insert_at text (suc j) p [] v h = (v, tt)
All-insert_at text (suc j) p (q ∷ entries) v h = (h.0, All-insert_at text j p entries v h.1)

pub dict_size-insert_at :
    (j : ℕ) (p : Entry) (entries : List Entry)
    → dict_size (insert_at j p entries) ≡ 18 + length p.0 + dict_size entries
dict_size-insert_at zero p entries = refl
dict_size-insert_at (suc j) p [] = refl
dict_size-insert_at (suc j) p (q ∷ entries) = omega (arith, dict_size-insert_at j p entries)
