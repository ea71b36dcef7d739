-- ===== src/Drive/Branches/Memory/Examples.antt =====
-- A store with a realm, a branch of it and an expired one, and the theorems about the store at it.
use casfa.Base.{◌≡◌, refl, none, some, [], ◌∷◌, if◌then◌else◌, Bool-cases, inl, inr}
use casfa.Core.Text.{Text}
use casfa.Encoding.Cb32.{codes}
use casfa.Storage.{same_key, same_key_iff}
use casfa.Maps.{map_get, IsMap}
use casfa.Delegates.MemoryStore.Index.{some-injective}
use casfa.Drive.Branches.{Branch}
use casfa.Drive.Branches.Memory.{
  MemoryBranches, root_branch, get_branch, get_branch_root, get_realm_root, ensure_realm_root,
  remove_branch, purge_expired_branches,
}
use casfa.Drive.Branches.Memory.Purge.{purge_lem, unless_expired, is_gone}
use casfa.Drive.Branches.Memory.Realms.{HasRealms, IsRootOf}
use casfa.Drive.Branches.Memory.Laws.{ensure-other}

abbrev child : Branch
child = record {
  branch_id = codes "c";
  realm_id = codes "u";
  parent_id = some (codes "r");
  expires_at = 50;
  access_verification = none;
}

abbrev sample : MemoryBranches
sample = record {
  branches = (codes "r", root_branch (codes "r") (codes "u")) ∷ (codes "c", child) ∷ [];
  roots = (codes "r", codes "K") ∷ (codes "c", codes "L") ∷ [];
  realm_root_branch_id = (codes "u", codes "r") ∷ [];
}

-- The realm "u" is the only one.
sample-owned :
    (realm id : Text)
    → map_get sample.realm_root_branch_id realm ≡ some id
    → IsRootOf sample realm id
unfolding map_get same_key
sample-owned realm id e = elim (Bool-cases (same_key (codes "u") realm)) [
  | inl same ↦
      let is_id : codes "r" ≡ id = some-injective (rw same at e) in
      rw (← (same_key_iff (codes "u") realm).0 same) (
        rw (← is_id) (record {
          branch = root_branch (codes "r") (codes "u");
          stored = refl;
          realm_eq = refl;
          no_parent = refl;
        }))
  | inr apart ↦ absurd (let q : none ≡ some id = rw apart at e in cc)
]

sample-HasRealms : HasRealms sample
unfolding map_get same_key
sample-HasRealms = record {
  branches_map = (refl, (refl, tt));
  realms_map = (refl, tt);
  owned = sample-owned;
}

uuid-is_new : get_branch sample (codes "n") ≡ none
unfolding get_branch map_get same_key
uuid-is_new = refl

ensure-other_example :
    get_realm_root (ensure_realm_root sample (codes "v") (codes "E") (codes "n")) (codes "u")
    ≡ get_realm_root sample (codes "u")
unfolding same_key
ensure-other_example =
    ensure-other sample (codes "v") (codes "E") b'n' [] sample-HasRealms uuid-is_new (codes "u")
      refl

purge_lem_example :
    (get_branch (purge_expired_branches sample 60).1 (codes "c")
      ≡ unless_expired 60 (get_branch sample (codes "c")))
    × (get_branch_root (purge_expired_branches sample 60).1 (codes "c") ≡ (
        if is_gone 60 (get_branch sample (codes "c"))
        then none
        else get_branch_root sample (codes "c")))
purge_lem_example = purge_lem sample 60 (codes "c") sample-HasRealms.branches_map

-- The branch has expired, and its root is gone.
purged : get_branch_root (purge_expired_branches sample 60).1 (codes "c") ≡ none
unfolding get_branch_root purge_expired_branches casfa.Drive.Branches.Memory.purge_loop map_get
    casfa.Maps.map_delete same_key
purged = refl
