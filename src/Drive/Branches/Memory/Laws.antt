-- ===== src/Drive/Branches/Memory/Laws.antt =====
-- What the operations of the store do to the roots of the realms.
use casfa.Base.{
  ℕ, ◌≡◌, refl, sym, ap, ◌∙◌, [], ◌∷◌, false, Option, none, some, arith, if◌then◌else◌, Bool-cases,
  Option-cases, inl, inr,
}
use casfa.Core.Text.{Text}
use casfa.Storage.{Key, same_key, same_key_iff, same_key_self}
use casfa.Maps.{map_get}
use casfa.Maps.Laws.{get-delete, get-set, get-set_other}
use casfa.Drive.Branches.{truthy, root_of, or_empty, Branch, BranchStore}
use casfa.Drive.Branches.Memory.{
  MemoryBranches, get_branch, get_branch_root, set_branch_root, get_realm_root,
  get_realm_root_record, insert_branch, with_root_branch, ensure_realm_root, purge_expired_branches,
  list_branches, remove_branch,
}
use casfa.Drive.Branches.Memory.Purge.{purge_lem}
use casfa.Drive.Branches.Memory.Realms.{HasRealms, realm-injective}

pub truthy-eq-some : (o : Option Text) (id : Text) → truthy o ≡ some id → o ≡ some id
truthy-eq-some none id e = cc
truthy-eq-some (some []) id e = cc
truthy-eq-some (some (c ∷ s)) id e = e

record-found :
    (s : MemoryBranches) (realm id : Text)
    → get_realm_root_record s realm ≡ some id
    → map_get s.realm_root_branch_id realm ≡ some id
unfolding get_realm_root_record
record-found s realm id e = truthy-eq-some (map_get s.realm_root_branch_id realm) id e

-- A root that is set for a branch is not that of another realm.
other-realm :
    (s : MemoryBranches) (q id : Text) (key : Key)
    → ((j : Text) → get_realm_root_record s q ≡ some j → same_key id j ≡ false)
    → get_realm_root (set_branch_root s id key) q ≡ get_realm_root s q
unfolding get_realm_root set_branch_root get_realm_root_record
other-realm s q id key apart = elim (Option-cases (truthy (map_get s.realm_root_branch_id q))) [
  | inl missing ↦ rw missing refl
  | inr (j, there) ↦ rw there (get-set_other s.roots id j key (apart j there))
]

module _ (s : MemoryBranches) (realm : Text) (key : Key) (c : ℕ) (uuid : Text) (h : HasRealms s)
    (new : get_branch s (c ∷ uuid) ≡ none) where
  -- ensureRealmRoot gives the realm a root where it has none, and keeps the one it has; the id that is drawn
  -- is new and not empty.
  pub ensure-root :
      get_realm_root (ensure_realm_root s realm key (c ∷ uuid)) realm
      ≡ some (or_empty (get_realm_root s realm) key)
  unfolding ensure_realm_root get_realm_root get_realm_root_record set_branch_root insert_branch
  ensure-root = elim (Option-cases (truthy (map_get s.realm_root_branch_id realm))) [
    | inl missing ↦ rw missing (
        rw (get-set s.realm_root_branch_id realm realm (c ∷ uuid)) (
          rw (same_key_self realm)
            (get-set s.roots (c ∷ uuid) (c ∷ uuid) key ∙ rw (same_key_self (c ∷ uuid)) refl)))
    | inr (id, there) ↦ elim (Option-cases (map_get s.roots id)) [
      | inl bare ↦
          rw there (rw bare (rw there (get-set s.roots id id key ∙ rw (same_key_self id) refl)))
      | inr (root, rooted) ↦ rw there (rw rooted (rw there rooted))
    ]
  ]

  record-other :
      (q : Text)
      → same_key realm q ≡ false
      → (j : Text) → get_realm_root_record s q ≡ some j
      → same_key (c ∷ uuid) j ≡ false
  unfolding get_branch
  record-other q apart j e =
      let o = h.owned q j (record-found s q j e) in
      ground (arith, new, o.stored, same_key_iff (c ∷ uuid) j)

  new-other :
      (q : Text)
      → same_key realm q ≡ false
      → get_realm_root (with_root_branch s realm key (c ∷ uuid)) q ≡ get_realm_root s q
  unfolding get_realm_root get_realm_root_record set_branch_root insert_branch
  new-other q apart = elim (Option-cases (truthy (map_get s.realm_root_branch_id q))) [
    | inl missing ↦
        rw (get-set_other s.realm_root_branch_id realm q (c ∷ uuid) apart) (rw missing refl)
    | inr (j, there) ↦
        rw (get-set_other s.realm_root_branch_id realm q (c ∷ uuid) apart)
          (rw there (get-set_other s.roots (c ∷ uuid) j key (record-other q apart j there)))
  ]

  -- ensureRealmRoot with a new id leaves the roots of the other realms as they are.
  pub ensure-other :
      (q : Text)
      → same_key realm q ≡ false
      → get_realm_root (ensure_realm_root s realm key (c ∷ uuid)) q ≡ get_realm_root s q
  unfolding ensure_realm_root
  ensure-other q apart = elim (Option-cases (get_realm_root_record s realm)) [
    | inl missing ↦ rw missing (new-other q apart)
    | inr (id, there) ↦ elim (Option-cases (map_get s.roots id)) [
      | inl bare ↦ rw there (
          rw bare (
            other-realm s q id key (λ j e. elim (Bool-cases (same_key id j)) [
              | inr other ↦ other
              | inl same ↦
                  let owner : map_get s.realm_root_branch_id q ≡ some id =
                    record-found s q j e ∙ ap some (sym ((same_key_iff id j).0 same)) in
                  let eq : realm ≡ q =
                    realm-injective s realm q id h (record-found s realm id there) owner in
                  absurd (ground (arith, apart, eq, same_key_self q))
            ])))
      | inr (root, rooted) ↦ rw there (rw rooted refl)
    ]
  ]

-- A purge does not touch the root of any realm.
pub purge-realm_root :
    (s : MemoryBranches) (before : ℕ) (realm : Text)
    → HasRealms s
    → get_realm_root (purge_expired_branches s before).1 realm ≡ get_realm_root s realm
unfolding get_realm_root get_realm_root_record get_branch_root get_branch purge_expired_branches
purge-realm_root s before realm h =
    elim (Option-cases (truthy (map_get s.realm_root_branch_id realm))) [
      | inl missing ↦ rw missing refl
      | inr (id, there) ↦
          let o =
            h.owned realm id (truthy-eq-some (map_get s.realm_root_branch_id realm) id there) in
          rw there
            ((purge_lem s before id h.branches_map).1 ∙ rw (o.stored) (rw (o.no_parent) refl))
    ]

pub get-set_root_lem :
    (s : MemoryBranches) (id other : Text) (key : Key)
    → get_branch_root (set_branch_root s id key) other
      ≡ (if same_key id other then some key else get_branch_root s other)
unfolding get_branch_root set_branch_root
get-set_root_lem s id other key = get-set s.roots id other key

pub branch-set_root_lem :
    (s : MemoryBranches) (id other : Text) (key : Key)
    → get_branch (set_branch_root s id key) other ≡ get_branch s other
unfolding get_branch set_branch_root
branch-set_root_lem s id other key = refl

pub branch-insert_lem :
    (s : MemoryBranches) (b : Branch) (id : Text)
    → get_branch (insert_branch s b) id
      ≡ (if same_key b.branch_id id then some b else get_branch s id)
unfolding get_branch insert_branch
branch-insert_lem s b id = get-set s.branches b.branch_id id b

pub root-insert_lem :
    (s : MemoryBranches) (b : Branch) (id : Text)
    → get_branch_root (insert_branch s b) id ≡ get_branch_root s id
unfolding get_branch_root insert_branch
root-insert_lem s b id = refl

pub branch-remove_lem :
    (s : MemoryBranches) (id other : Text)
    → get_branch (remove_branch s id) other
      ≡ (if same_key id other then none else get_branch s other)
unfolding get_branch remove_branch
branch-remove_lem s id other = get-delete s.branches id other

pub realm_root_lem :
    (s : MemoryBranches) (realm : Text)
    → get_realm_root s realm ≡ root_of (get_branch_root s) (get_realm_root_record s realm)
unfolding get_realm_root get_branch_root
realm_root_lem s realm = elim (Option-cases (get_realm_root_record s realm)) [
  | inl missing ↦ rw missing refl
  | inr (id, there) ↦ rw there refl
]

pub record-set_root_lem :
    (s : MemoryBranches) (id realm : Text) (key : Key)
    → get_realm_root_record (set_branch_root s id key) realm ≡ get_realm_root_record s realm
unfolding get_realm_root_record set_branch_root
record-set_root_lem s id realm key = refl

abbrev pub memory_branch_store : BranchStore
memory_branch_store = record {
  State = MemoryBranches;
  IsValid = HasRealms;
  get_branch = get_branch;
  get_branch_root = get_branch_root;
  set_branch_root = set_branch_root;
  get_realm_root = get_realm_root;
  get_realm_root_record = get_realm_root_record;
  ensure_realm_root = ensure_realm_root;
  list_branches = list_branches;
  insert_branch = insert_branch;
  remove_branch = remove_branch;
  branch-insert = branch-insert_lem;
  root-insert = root-insert_lem;
  branch-remove = branch-remove_lem;
  get-set_root = get-set_root_lem;
  branch-set_root = branch-set_root_lem;
  realm_root = realm_root_lem;
  ensure-root = λ s realm empty_root c uuid h new. ensure-root s realm empty_root c uuid h new;
  record-set_root = record-set_root_lem;
}
