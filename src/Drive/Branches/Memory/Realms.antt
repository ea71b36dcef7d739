-- ===== src/Drive/Branches/Memory/Realms.antt =====
-- Every realm has a root branch of its own, and the operations of the store keep it so.
use casfa.Base.{
  ℕ, ◌≡◌, refl, sym, ap, ◌∙◌, List, [], ◌∷◌, false, Option, none, some, arith, if◌then◌else◌,
  Bool-cases, Option-cases, inl, inr,
}
use casfa.Core.Text.{Text}
use casfa.Storage.{Key, same_key, same_key_iff, same_key_self}
use casfa.Maps.{map_get, IsMap}
use casfa.Maps.Laws.{
  get-set, get-set-eq-some, get-set_other, get-delete_other, set-IsMap, delete-IsMap,
}
use casfa.Delegates.MemoryStore.Index.{some-injective}
use casfa.Drive.Branches.{Branch}
use casfa.Drive.Branches.Memory.{
  MemoryBranches, forget_realm, insert_branch, set_branch_root, remove_branch,
  purge_expired_branches, with_root_branch, root_branch, get_branch, ensure_realm_root, keep_or_set,
  get_realm_root_record,
}
use casfa.Drive.Branches.Memory.Purge.{purge_lem, purge-IsMap}

-- The root branch of a realm.
pub record IsRootOf (s : MemoryBranches) (realm id : Text) : Type 0 where
  pub branch : Branch
  pub stored : map_get s.branches id ≡ some branch
  pub realm_eq : branch.realm_id ≡ realm
  pub no_parent : branch.parent_id ≡ none

pub record HasRealms (s : MemoryBranches) : Type 0 where
  pub branches_map : IsMap s.branches
  pub realms_map : IsMap s.realm_root_branch_id
  pub owned :
      (realm id : Text) → map_get s.realm_root_branch_id realm ≡ some id → IsRootOf s realm id

-- Realms have different root branches.
pub realm-injective :
    (s : MemoryBranches) (r q id : Text)
    → HasRealms s
    → map_get s.realm_root_branch_id r ≡ some id
    → map_get s.realm_root_branch_id q ≡ some id
    → r ≡ q
realm-injective s r q id h e f =
    let a = h.owned r id e in
    let b = h.owned q id f in
    let same : a.branch ≡ b.branch = some-injective (sym a.stored ∙ b.stored) in
    sym a.realm_eq ∙ (ap (λ (x : Branch). x.realm_id) same ∙ b.realm_eq)

forget-none :
    (m : List (Text × Text)) (id r : Text)
    → map_get m r ≡ none
    → map_get (forget_realm id m) r ≡ none
unfolding map_get forget_realm
forget-none [] id r e = refl
forget-none ((k, v) ∷ m) id r e = elim (Bool-cases (same_key k r)) [
  | inl same ↦ absurd (ground (arith, same, e))
  | inr apart ↦
      let rest : map_get m r ≡ none = rw apart at e in
      elim (Bool-cases (same_key v id)) [
        | inl found ↦ rw found rest
        | inr other ↦ rw other (rw apart (forget-none m id r rest))
      ]
]

forget-IsMap : (m : List (Text × Text)) (id : Text) → IsMap m → IsMap (forget_realm id m)
unfolding forget_realm
forget-IsMap [] id h = tt
forget-IsMap ((k, v) ∷ m) id (once, h) = elim (Bool-cases (same_key v id)) [
  | inl found ↦ rw found h
  | inr other ↦ rw other (forget-none m id k once, forget-IsMap m id h)
]

-- What is left after the realm of a branch was forgotten, where one realm at most has the branch.
forget-eq-some :
    (m : List (Text × Text)) (id r j : Text)
    → IsMap m
    → ((p q : Text) → map_get m p ≡ some id → map_get m q ≡ some id → p ≡ q)
    → map_get (forget_realm id m) r ≡ some j
    → (same_key j id ≡ false) × (map_get m r ≡ some j)
unfolding map_get forget_realm
forget-eq-some [] id r j h one e = cc
forget-eq-some ((k, v) ∷ m) id r j (once, h) one e = elim (Bool-cases (same_key v id)) [
  | inl found ↦
      let there : map_get m r ≡ some j = rw found at e in
      let apart : same_key k r ≡ false = ground (arith, once, there, same_key_iff k r) in
      let is_v : v ≡ id = (same_key_iff v id).0 found in
      let other : same_key j id ≡ false = elim (Bool-cases (same_key j id)) [
        | inr other ↦ other
        | inl same ↦
            let is_j : j ≡ id = (same_key_iff j id).0 same in
            let here : (if same_key k k then some v else map_get m k) ≡ some id =
              rw (same_key_self k) (ap some is_v) in
            let again : (if same_key k r then some v else map_get m r) ≡ some id =
              rw apart (there ∙ ap some is_j) in
            absurd (let q : k ≡ r = one k r here again in ground (arith, apart, q, same_key_self r))
      ] in
      (other, rw apart there)
  | inr other ↦ elim (Bool-cases (same_key k r)) [
    | inl same ↦
        let is : v ≡ j = some-injective (rw same at (rw other at e)) in
        (rw (← is) other, rw same (ap some is))
    | inr apart ↦
        let rest : map_get (forget_realm id m) r ≡ some j = rw apart at (rw other at e) in
        let step : (p : Text)
            → map_get m p ≡ some id
            → (if same_key k p then some v else map_get m p) ≡ some id =
          λ p f.
            (let away : same_key k p ≡ false = ground (arith, once, f, same_key_iff k p) in
              rw away f) in
        let (left, found) =
          forget-eq-some m id r j h (λ p q f g. one p q (step p f) (step q g)) rest in
        (left, rw apart found)
  ]
]

-- A branch whose id is no root branch's may be put or taken away.
keep-owned :
    (s t : MemoryBranches) (realm id : Text)
    → map_get t.branches id ≡ map_get s.branches id
    → IsRootOf s realm id
    → IsRootOf t realm id
keep-owned s t realm id same o = record {
  branch = o.branch;
  stored = same ∙ o.stored;
  realm_eq = o.realm_eq;
  no_parent = o.no_parent;
}

pub insert-HasRealms :
    (s : MemoryBranches) (b : Branch)
    → HasRealms s
    → get_branch s b.branch_id ≡ none
    → HasRealms (insert_branch s b)
unfolding get_branch insert_branch
insert-HasRealms s b h new = record {
  branches_map = set-IsMap s.branches b.branch_id b h.branches_map;
  realms_map = h.realms_map;
  owned = λ realm id e.
      let o = h.owned realm id e in
      let apart : same_key b.branch_id id ≡ false =
        ground (arith, new, o.stored, same_key_iff b.branch_id id) in
      keep-owned s (insert_branch s b) realm id (get-set_other s.branches b.branch_id id b apart) o;
}

pub set_root-HasRealms :
    (s : MemoryBranches) (id : Text) (key : Key)
    → HasRealms s
    → HasRealms (set_branch_root s id key)
unfolding set_branch_root
set_root-HasRealms s id key h = record {
  branches_map = h.branches_map;
  realms_map = h.realms_map;
  owned = λ realm j e. keep-owned s (set_branch_root s id key) realm j refl (h.owned realm j e);
}

pub remove-HasRealms :
    (s : MemoryBranches) (id : Text) → HasRealms s → HasRealms (remove_branch s id)
unfolding remove_branch
remove-HasRealms s id h = record {
  branches_map = delete-IsMap s.branches id h.branches_map;
  realms_map = forget-IsMap s.realm_root_branch_id id h.realms_map;
  owned = λ realm j e.
      let (apart, found) =
        forget-eq-some s.realm_root_branch_id id realm j h.realms_map
          (λ p q f g. realm-injective s p q id h f g) e in
      let other : same_key id j ≡ false =
        ground (arith, apart, same_key_iff id j, same_key_iff j id) in
      keep-owned s (remove_branch s id) realm j (get-delete_other s.branches id j other)
        (h.owned realm j found);
}

pub purge-HasRealms :
    (s : MemoryBranches) (before : ℕ) → HasRealms s → HasRealms (purge_expired_branches s before).1
unfolding purge_expired_branches get_branch
purge-HasRealms s before h = record {
  branches_map = purge-IsMap s before h.branches_map;
  realms_map = h.realms_map;
  owned = λ realm id e.
      let o = h.owned realm id e in
      let after = (purge_lem s before id h.branches_map).0 in
      keep-owned s (purge_expired_branches s before).1 realm id
        (after ∙ rw (o.stored) (rw (o.no_parent) refl)) o;
}

root_branch-HasRealms :
    (s : MemoryBranches) (realm : Text) (key : Key) (id : Text)
    → HasRealms s
    → get_branch s id ≡ none
    → HasRealms (with_root_branch s realm key id)
unfolding get_branch insert_branch set_branch_root
root_branch-HasRealms s realm key id h new = record {
  branches_map = set-IsMap s.branches id (root_branch id realm) h.branches_map;
  realms_map = set-IsMap s.realm_root_branch_id realm id h.realms_map;
  owned = λ r j e. elim (get-set-eq-some s.realm_root_branch_id realm r id j e) [
    | inl (same_realm, same_id) ↦ record {
      branch = root_branch id realm;
      stored =
          rw (← same_id)
            (get-set s.branches id id (root_branch id realm) ∙ rw (same_key_self id) refl);
      realm_eq = same_realm;
      no_parent = refl;
    }
    | inr (other, found) ↦
        let o = h.owned r j found in
        let apart : same_key id j ≡ false = ground (arith, new, o.stored, same_key_iff id j) in
        keep-owned s (with_root_branch s realm key id) r j
          (get-set_other s.branches id j (root_branch id realm) apart) o
  ];
}

keep_or_set-HasRealms :
    (s : MemoryBranches) (id : Text) (key : Key) (root : Option Key)
    → HasRealms s
    → HasRealms (keep_or_set s id key root)
keep_or_set-HasRealms s id key none h = set_root-HasRealms s id key h
keep_or_set-HasRealms s id key (some root) h = h

-- ensureRealmRoot with a new id keeps a root branch of its own for every realm that has one.
pub ensure-HasRealms :
    (s : MemoryBranches) (realm : Text) (key : Key) (uuid : Text)
    → HasRealms s
    → get_branch s uuid ≡ none
    → HasRealms (ensure_realm_root s realm key uuid)
unfolding ensure_realm_root
ensure-HasRealms s realm key uuid h new = elim (Option-cases (get_realm_root_record s realm)) [
  | inl missing ↦ rw missing (root_branch-HasRealms s realm key uuid h new)
  | inr (id, there) ↦ rw there (keep_or_set-HasRealms s id key (map_get s.roots id) h)
]
