-- ===== src/Drive/Branches/Histories/Rooted.antt =====
-- A realm keeps a root over every history of changes that leaves its root branch alone.
use casfa.Base.{
  ℕ, ◌≡◌, refl, sym, ap, ◌∙◌, List, [], ◌∷◌, false, Option, none, some, All, arith, Bool-cases,
  Option-cases, inl, inr,
}
use casfa.Core.Text.{Text}
use casfa.Storage.{Key, same_key, same_key_iff}
use casfa.Maps.{map_get, map_set}
use casfa.Maps.Laws.{get-set, get-set_other, get-delete_other}
use casfa.Delegates.MemoryStore.Index.{some-injective}
use casfa.Drive.Branches.{Branch, truthy}
use casfa.Drive.Branches.Memory.{
  MemoryBranches, get_branch, get_realm_root, get_realm_root_record, forget_realm, insert_branch,
  set_branch_root, set_realm_root, remove_branch, purge_expired_branches, with_root_branch,
  ensure_realm_root, keep_or_set,
}
use casfa.Drive.Branches.Memory.Purge.{purge_lem}
use casfa.Drive.Branches.Memory.Laws.{truthy-eq-some}
use casfa.Drive.Branches.Memory.Realms.{HasRealms}
use casfa.Drive.Branches.Histories.{
  Change, ensures, inserts, sets, sets_realm, removes, purges, apply, run, AllFresh,
  apply-HasRealms,
}

-- The realm has this root branch, and that has a root.
pub record IsRooted (s : MemoryBranches) (realm id : Text) : Type 0 where
  pub recorded : map_get s.realm_root_branch_id realm ≡ some id
  pub key : Key
  pub stored : map_get s.roots id ≡ some key

-- The change removes another branch, or none.
abbrev pub Spares : Text → Change → Type 0
Spares id (removes other) = same_key id other ≡ false
Spares id _ = Unit {0}

forget-other :
    (m : List (Text × Text)) (other realm id : Text)
    → same_key id other ≡ false
    → map_get m realm ≡ some id
    → map_get (forget_realm other m) realm ≡ some id
unfolding map_get forget_realm
forget-other [] other realm id apart e = cc
forget-other ((k, v) ∷ m) other realm id apart e = elim (Bool-cases (same_key k realm)) [
  | inl here ↦
      let is : v ≡ id = some-injective (rw here at e) in
      let kept : same_key v other ≡ false = rw is apart in rw kept (rw here (ap some is))
  | inr away ↦
      let rest : map_get m realm ≡ some id = rw away at e in
      elim (Bool-cases (same_key v other)) [
        | inl found ↦ rw found rest
        | inr kept ↦ rw kept (rw away (forget-other m other realm id apart rest))
      ]
]

-- A root that is set leaves every branch that has a root with one.
set-rooted :
    (roots : List (Text × Key)) (id : Text) (key : Key) (j : Text) (v : Key)
    → map_get roots j ≡ some v
    → (w : Key) × (map_get (map_set roots id key) j ≡ some w)
set-rooted roots id key j v e = elim (Bool-cases (same_key id j)) [
  | inl same ↦ (key, get-set roots id j key ∙ rw same refl)
  | inr apart ↦ (v, get-set_other roots id j key apart ∙ e)
]

set-IsRooted :
    (s : MemoryBranches) (j : Text) (key : Key) (realm id : Text)
    → IsRooted s realm id
    → IsRooted (set_branch_root s j key) realm id
unfolding set_branch_root
set-IsRooted s j key realm id r =
    let (w, e) = set-rooted s.roots j key id r.key r.stored in
    record { recorded = r.recorded; key = w; stored = e }

set_realm-IsRooted :
    (s : MemoryBranches) (q : Text) (key : Key) (realm id : Text)
    → IsRooted s realm id
    → IsRooted (set_realm_root s q key).1 realm id
unfolding set_realm_root set_branch_root
set_realm-IsRooted s q key realm id r = elim (Option-cases (get_realm_root_record s q)) [
  | inl missing ↦ rw missing r
  | inr (j, there) ↦ rw there (set-IsRooted s j key realm id r)
]

keep_or_set-IsRooted :
    (s : MemoryBranches) (j : Text) (key : Key) (root : Option Key) (realm id : Text)
    → IsRooted s realm id
    → IsRooted (keep_or_set s j key root) realm id
keep_or_set-IsRooted s j key none realm id r = set-IsRooted s j key realm id r
keep_or_set-IsRooted s j key (some root) realm id r = r

ensure-IsRooted :
    (s : MemoryBranches) (q : Text) (key : Key) (uuid realm : Text) (c : ℕ) (id : Text)
    → IsRooted s realm (c ∷ id)
    → IsRooted (ensure_realm_root s q key uuid) realm (c ∷ id)
unfolding ensure_realm_root get_realm_root_record set_branch_root insert_branch
ensure-IsRooted s q key uuid realm c id r =
    elim (Option-cases (truthy (map_get s.realm_root_branch_id q))) [
      | inr (j, there) ↦
          rw there (keep_or_set-IsRooted s j key (map_get s.roots j) realm (c ∷ id) r)
      | inl missing ↦
          let apart : same_key q realm ≡ false = elim (Bool-cases (same_key q realm)) [
            | inr apart ↦ apart
            | inl same ↦ absurd (
                let x : truthy (some (c ∷ id)) ≡ none =
                  ap truthy (sym r.recorded) ∙ (rw ((same_key_iff q realm).0 same) at missing) in
                cc)
          ] in
          let (w, e) = set-rooted s.roots uuid key (c ∷ id) r.key r.stored in
          rw missing (record {
            recorded = get-set_other s.realm_root_branch_id q realm uuid apart ∙ r.recorded;
            key = w;
            stored = e;
          })
    ]

remove-IsRooted :
    (s : MemoryBranches) (other realm id : Text)
    → same_key id other ≡ false
    → IsRooted s realm id
    → IsRooted (remove_branch s other) realm id
unfolding remove_branch
remove-IsRooted s other realm id apart r =
    let away : same_key other id ≡ false =
      ground (arith, apart, same_key_iff id other, same_key_iff other id) in
    record {
      recorded = forget-other s.realm_root_branch_id other realm id apart r.recorded;
      key = r.key;
      stored = get-delete_other s.roots other id away ∙ r.stored;
    }

purge-IsRooted :
    (s : MemoryBranches) (before : ℕ) (realm id : Text)
    → HasRealms s
    → IsRooted s realm id
    → IsRooted (purge_expired_branches s before).1 realm id
unfolding purge_expired_branches get_branch casfa.Drive.Branches.Memory.get_branch_root
purge-IsRooted s before realm id h r =
    let o = h.owned realm id r.recorded in
    record {
      recorded = r.recorded;
      key = r.key;
      stored = (purge_lem s before id h.branches_map).1 ∙ rw (o.stored) (rw (o.no_parent) r.stored);
    }

apply-IsRooted :
    (s : MemoryBranches) (change : Change) (realm : Text) (c : ℕ) (id : Text)
    → HasRealms s
    → Spares (c ∷ id) change
    → IsRooted s realm (c ∷ id)
    → IsRooted (apply s change) realm (c ∷ id)
unfolding apply insert_branch
apply-IsRooted s (ensures q key uuid) realm c id h k r = ensure-IsRooted s q key uuid realm c id r
apply-IsRooted s (inserts b) realm c id h k r = record {
  recorded = r.recorded;
  key = r.key;
  stored = r.stored;
}
apply-IsRooted s (sets j key) realm c id h k r = set-IsRooted s j key realm (c ∷ id) r
apply-IsRooted s (sets_realm q key) realm c id h k r = set_realm-IsRooted s q key realm (c ∷ id) r
apply-IsRooted s (removes j) realm c id h k r = remove-IsRooted s j realm (c ∷ id) k r
apply-IsRooted s (purges before) realm c id h k r = purge-IsRooted s before realm (c ∷ id) h r

run-IsRooted :
    (s : MemoryBranches) (cs : List Change) (realm : Text) (c : ℕ) (id : Text)
    → HasRealms s
    → AllFresh s cs
    → All (Spares (c ∷ id)) cs
    → IsRooted s realm (c ∷ id)
    → IsRooted (run s cs) realm (c ∷ id)
unfolding run
run-IsRooted s [] realm c id h new k r = r
run-IsRooted s (change ∷ cs) realm c id h new k r =
    run-IsRooted (apply s change) cs realm c id (apply-HasRealms s change h new.0) new.1 k.1
      (apply-IsRooted s change realm c id h k.0 r)

-- A realm that has a root has one after every history of changes with new ids that does not remove its root
-- branch, and the same root branch.
pub run-rooted :
    (s : MemoryBranches) (cs : List Change) (realm : Text) (c : ℕ) (id : Text) (key : Key)
    → HasRealms s
    → AllFresh s cs
    → All (Spares (c ∷ id)) cs
    → get_realm_root_record s realm ≡ some (c ∷ id)
    → get_realm_root s realm ≡ some key
    → (get_realm_root_record (run s cs) realm ≡ some (c ∷ id))
      × ((left : Key) × (get_realm_root (run s cs) realm ≡ some left))
unfolding get_realm_root get_realm_root_record
run-rooted s cs realm c id key h new k recorded rooted =
    let r : IsRooted s realm (c ∷ id) = record {
      recorded = truthy-eq-some (map_get s.realm_root_branch_id realm) (c ∷ id) recorded;
      key = key;
      stored = rw recorded at rooted;
    } in
    let after = run-IsRooted s cs realm c id h new k r in
    (rw after.recorded refl, (after.key, rw after.recorded after.stored))
