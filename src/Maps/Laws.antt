-- ===== src/Maps/Laws.antt =====
-- What a read of a map gives after a change of the map.
use casfa.Base.{
  ◌≡◌, refl, ◌∙◌, sym, List, [], ◌∷◌, false, none, some, arith, if◌then◌else◌, Bool-cases, inl, inr,
  ◌⊎◌,
}
use casfa.Core.Text.{Text}
use casfa.Storage.{same_key, same_key_iff}
use casfa.Maps.{map_get, map_set, map_delete, IsMap}

module _ {ℓ} {A : Type ℓ} where
  pub get-set :
      (m : List (Text × A)) (k j : Text) (v : A)
      → map_get (map_set m k v) j ≡ (if same_key k j then some v else map_get m j)
  unfolding map_get map_set
  get-set [] k j v = refl
  get-set ((i, w) ∷ m) k j v =
      ground (arith, get-set m k j v, same_key_iff k j, same_key_iff i k, same_key_iff i j)

  pub get-delete :
      (m : List (Text × A)) (k j : Text)
      → map_get (map_delete m k) j ≡ (if same_key k j then none else map_get m j)
  unfolding map_get map_delete
  get-delete [] k j = ground arith
  get-delete ((i, w) ∷ m) k j =
      ground (arith, get-delete m k j, same_key_iff k j, same_key_iff i k, same_key_iff i j)

  -- What a read after `set` found is the new value under its key, or was there before under another.
  pub get-set-eq-some :
      (m : List (Text × A)) (k j : Text) (v w : A)
      → map_get (map_set m k v) j ≡ some w
      → ((k ≡ j) × (v ≡ w)) ⊎ ((same_key k j ≡ false) × (map_get m j ≡ some w))
  get-set-eq-some m k j v w e = elim (Bool-cases (same_key k j)) [
    | inl same ↦ inl ((same_key_iff k j).0 same, ground (arith, get-set m k j v, same, e))
    | inr apart ↦ inr (apart, ground (arith, get-set m k j v, apart, e))
  ]

  -- What a read after `delete` found was there before, under another key.
  pub get-delete-eq-some :
      (m : List (Text × A)) (k j : Text) (w : A)
      → map_get (map_delete m k) j ≡ some w
      → (same_key k j ≡ false) × (map_get m j ≡ some w)
  get-delete-eq-some m k j w e = elim (Bool-cases (same_key k j)) [
    | inl same ↦ absurd (ground (arith, get-delete m k j, same, e))
    | inr apart ↦ (apart, ground (arith, get-delete m k j, apart, e))
  ]

  pub get-set_other :
      (m : List (Text × A)) (k j : Text) (v : A)
      → same_key k j ≡ false
      → map_get (map_set m k v) j ≡ map_get m j
  get-set_other m k j v apart = get-set m k j v ∙ rw apart refl

  pub get-delete_other :
      (m : List (Text × A)) (k j : Text)
      → same_key k j ≡ false
      → map_get (map_delete m k) j ≡ map_get m j
  get-delete_other m k j apart = get-delete m k j ∙ rw apart refl

  -- Setting a key that was deleted is setting it.
  pub get-set-delete :
      (m : List (Text × A)) (k j : Text) (v : A)
      → map_get (map_set (map_delete m k) k v) j ≡ map_get (map_set m k v) j
  get-set-delete m k j v = get-set (map_delete m k) k j v ∙ elim (Bool-cases (same_key k j)) [
    | inl same ↦ rw same (sym (get-set m k j v ∙ rw same refl))
    | inr apart ↦ rw apart (get-delete_other m k j apart ∙ sym (get-set_other m k j v apart))
  ]

  pub set-IsMap : (m : List (Text × A)) (k : Text) (v : A) → IsMap m → IsMap (map_set m k v)
  unfolding map_get map_set
  set-IsMap [] k v h = (refl, tt)
  set-IsMap ((j, w) ∷ m) k v (once, h) = elim (Bool-cases (same_key j k)) [
    | inl same ↦ rw same (once, h)
    | inr apart ↦
        let other : same_key k j ≡ false =
          ground (arith, apart, same_key_iff j k, same_key_iff k j) in
        rw apart (get-set_other m k j v other ∙ once, set-IsMap m k v h)
  ]

  pub delete-none :
      (m : List (Text × A)) (k j : Text) → map_get m j ≡ none → map_get (map_delete m k) j ≡ none
  delete-none m k j e = ground (arith, get-delete m k j, e)

  pub delete-IsMap : (m : List (Text × A)) (k : Text) → IsMap m → IsMap (map_delete m k)
  unfolding map_delete
  delete-IsMap [] k h = tt
  delete-IsMap ((j, w) ∷ m) k (once, h) = elim (Bool-cases (same_key j k)) [
    | inl same ↦ rw same (delete-IsMap m k h)
    | inr apart ↦ rw apart (delete-none m k j once, delete-IsMap m k h)
  ]
