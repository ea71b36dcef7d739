-- ===== src/Delegates/MemoryStore/Index.antt =====
-- An index of grants by a key of theirs, and that the changes of the store keep it right.
use casfa.Base.{
  ◌≡◌, refl, sym, ap, ◌∙◌, ◌≢◌, ◌⊎◌, [], false, Option, none, some, arith, Bool-cases, inl, inr,
}
use casfa.Core.Text.{Text}
use casfa.Storage.{same_key, same_key_iff, same_key_self}
use casfa.Maps.{map_get, map_set, map_delete}
use casfa.Maps.Laws.{
  get-set, get-delete, get-set-eq-some, get-delete-eq-some, get-set_other, get-delete_other,
}
use casfa.Delegates.{DelegateGrant}
use casfa.Delegates.MemoryStore.{Grants, set_at, delete_at}

-- The grants stand under their ids.
abbrev pub HasIds : Grants → Type 0
HasIds by_id = (id : Text) (g : DelegateGrant) → map_get by_id id ≡ some g → g.delegate_id ≡ id

-- The index has exactly the grants, each under its key.
pub record IsIndex (key_of : DelegateGrant → Option Text) (by_id index : Grants) : Type 0 where
  pub sound :
      (k : Text) (g : DelegateGrant)
      → map_get index k ≡ some g
      → (key_of g ≡ some k) × (map_get by_id g.delegate_id ≡ some g)
  pub complete :
      (id k : Text) (g : DelegateGrant)
      → map_get by_id id ≡ some g
      → key_of g ≡ some k
      → map_get index k ≡ some g

pub some-injective : {A : Type 0} {a b : A} → some a ≡ some b → a ≡ b
some-injective {a = a} e = ap (λ o. elim o [ none ↦ a | some x ↦ x ]) e

set_at-eq-some :
    (o : Option Text) (g h : DelegateGrant) (index : Grants) (k : Text)
    → map_get (set_at o g index) k ≡ some h
    → ((o ≡ some k) × (g ≡ h)) ⊎ ((o ≢ some k) × (map_get index k ≡ some h))
set_at-eq-some none g h index k e = inr ((λ u. cc), e)
set_at-eq-some (some j) g h index k e = elim (get-set-eq-some index j k g h e) [
  | inl (same, there) ↦ inl (ap some same, there)
  | inr (apart, found) ↦ inr ((λ u. ground (arith, u, apart, same_key_self j)), found)
]

set_at_self :
    (o : Option Text) (g : DelegateGrant) (index : Grants) (k : Text)
    → o ≡ some k
    → map_get (set_at o g index) k ≡ some g
set_at_self none g index k e = cc
set_at_self (some j) g index k e = ground (arith, get-set index j k g, e, same_key_self j)

set_at_other :
    (o : Option Text) (g : DelegateGrant) (index : Grants) (k : Text)
    → o ≢ some k
    → map_get (set_at o g index) k ≡ map_get index k
set_at_other none g index k apart = refl
set_at_other (some j) g index k apart =
    get-set_other index j k g (ground (arith, apart, same_key_iff j k))

delete_at-eq-some :
    (o : Option Text) (h : DelegateGrant) (index : Grants) (k : Text)
    → map_get (delete_at o index) k ≡ some h
    → (o ≢ some k) × (map_get index k ≡ some h)
delete_at-eq-some none h index k e = ((λ u. cc), e)
delete_at-eq-some (some j) h index k e =
    let (apart, found) = get-delete-eq-some index j k h e in
    ((λ u. ground (arith, u, apart, same_key_self j)), found)

delete_at_other :
    (o : Option Text) (index : Grants) (k : Text)
    → o ≢ some k
    → map_get (delete_at o index) k ≡ map_get index k
delete_at_other none index k apart = refl
delete_at_other (some j) index k apart =
    get-delete_other index j k (ground (arith, apart, same_key_iff j k))

-- A key that an index does not have, it does not have after a deletion.
pub delete_at-none :
    (o : Option Text) (index : Grants) (k : Text)
    → map_get index k ≡ none
    → map_get (delete_at o index) k ≡ none
delete_at-none none index k e = e
delete_at-none (some j) index k e = ground (arith, get-delete index j k, e)

module _ (key_of : DelegateGrant → Option Text) where
  pub empty-IsIndex : IsIndex key_of [] []
  unfolding map_get
  empty-IsIndex = record { sound = λ k g e. cc; complete = λ id k g e f. cc }

  -- Only what the grants are under their ids counts.
  pub IsIndex-same :
      (a b index : Grants)
      → ((id : Text) → map_get a id ≡ map_get b id)
      → IsIndex key_of a index
      → IsIndex key_of b index
  IsIndex-same a b index same i = record {
    sound = λ k g e. let (h, found) = i.sound k g e in (h, sym (same g.delegate_id) ∙ found);
    complete = λ id k g e h. i.complete id k g (same id ∙ e) h;
  }

  module _ (by_id index : Grants) (ids : HasIds by_id) (i : IsIndex key_of by_id index) where
    pub set-HasIds : (g : DelegateGrant) → HasIds (map_set by_id g.delegate_id g)
    set-HasIds g id h e = elim (get-set-eq-some by_id g.delegate_id id g h e) [
      | inl (k, same) ↦ rw (← same) k
      | inr (apart, found) ↦ ids id h found
    ]

    pub delete-HasIds : (id : Text) → HasIds (map_delete by_id id)
    delete-HasIds id j h e = ids j h (get-delete-eq-some by_id id j h e).1

    -- Grants of one id are one grant.
    same_grant :
        (g h : DelegateGrant) (k : Text)
        → map_get by_id g.delegate_id ≡ some g
        → map_get by_id h.delegate_id ≡ some h
        → g.delegate_id ≡ h.delegate_id
        → key_of h ≡ some k
        → key_of g ≡ some k
    same_grant g h k g_there h_there e keyed =
        let same : g ≡ h = some-injective (sym g_there ∙ (rw e h_there)) in rw same keyed

    -- A grant of a new id and a new key is added.
    pub set-IsIndex :
        (g : DelegateGrant)
        → map_get by_id g.delegate_id ≡ none
        → ((k : Text) → key_of g ≡ some k → map_get index k ≡ none)
        → IsIndex key_of (map_set by_id g.delegate_id g) (set_at (key_of g) g index)
    set-IsIndex g new fresh = record {
      sound = λ k h e. elim (set_at-eq-some (key_of g) g h index k e) [
        | inl (keyed, same) ↦ (
          rw (← same) keyed,
          rw (← same)
              (get-set by_id g.delegate_id g.delegate_id g ∙ rw (same_key_self g.delegate_id) refl),
        )
        | inr (apart, found) ↦
            let (keyed, there) = i.sound k h found in
            let other : same_key g.delegate_id h.delegate_id ≡ false =
              ground (arith, new, there, same_key_iff g.delegate_id h.delegate_id) in
            (keyed, get-set_other by_id g.delegate_id h.delegate_id g other ∙ there)
      ];
      complete = λ id k h e keyed. elim (get-set-eq-some by_id g.delegate_id id g h e) [
        | inl (at_id, same) ↦ rw (← same) (set_at_self (key_of g) g index k (rw same keyed))
        | inr (apart, there) ↦
            let found : map_get index k ≡ some h = i.complete id k h there keyed in
            let other : key_of g ≢ some k = λ u. ground (arith, fresh k u, found) in
            set_at_other (key_of g) g index k other ∙ found
      ];
    }

    -- A grant is taken out.
    pub delete-IsIndex :
        (g : DelegateGrant)
        → map_get by_id g.delegate_id ≡ some g
        → IsIndex key_of (map_delete by_id g.delegate_id) (delete_at (key_of g) index)
    delete-IsIndex g there = record {
      sound = λ k h e.
          let (apart, found) = delete_at-eq-some (key_of g) h index k e in
          let (keyed, h_there) = i.sound k h found in
          let other : same_key g.delegate_id h.delegate_id ≡ false =
            elim (Bool-cases (same_key g.delegate_id h.delegate_id)) [
              | inl same ↦ absurd (
                  apart (
                    same_grant g h k there h_there
                      ((same_key_iff g.delegate_id h.delegate_id).0 same) keyed))
              | inr other ↦ other
            ] in
          (keyed, get-delete_other by_id g.delegate_id h.delegate_id other ∙ h_there);
      complete = λ id k h e keyed.
          let (apart, h_there) = get-delete-eq-some by_id g.delegate_id id h e in
          let found : map_get index k ≡ some h = i.complete id k h h_there keyed in
          let other : key_of g ≢ some k = λ u.
            let same : g ≡ h =
              some-injective (sym (i.complete g.delegate_id k g there u) ∙ found) in
            let at_id : g.delegate_id ≡ id = rw same (ids id h h_there) in
            ground (arith, apart, at_id, same_key_self id) in
          delete_at_other (key_of g) index k other ∙ found;
    }
