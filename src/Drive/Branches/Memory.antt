-- ===== src/Drive/Branches/Memory.antt =====
-- `createMemoryBranchStore` of cells/drive/backend/db/branch-store.ts.
pub mod Purge
pub mod Realms
pub mod Laws
mod Examples
use casfa.Base.{
  ℕ, suc, List, [], ◌∷◌, Bool, true, false, ◌&&◌, not, Option, none, some, if◌then◌else◌, ltb,
  Result, ok, err,
}
use casfa.Core.Text.{Text}
use casfa.Storage.{Key, same_key}
use casfa.Maps.{map_get, map_set, map_delete, map_values, filter}
use casfa.Drive.{DriveError, realm_root_not_found}
use casfa.Drive.Branches.{Branch, truthy}

pub record MemoryBranches : Type 0 where
  pub branches : List (Text × Branch)
  pub roots : List (Text × Key)
  pub realm_root_branch_id : List (Text × Text)

unfoldable pub get_branch : MemoryBranches → Text → Option Branch
unfolding map_get
get_branch s branch_id = map_get s.branches branch_id

abbrev pub root_at : MemoryBranches → Option Text → Option Key
root_at s none = none
root_at s (some branch_id) = map_get s.roots branch_id

unfoldable pub get_realm_root_record : MemoryBranches → Text → Option Text
unfolding map_get
get_realm_root_record s realm_id = truthy (map_get s.realm_root_branch_id realm_id)

unfoldable pub get_realm_root : MemoryBranches → Text → Option Key
unfolding map_get get_realm_root_record
get_realm_root s realm_id = root_at s (get_realm_root_record s realm_id)

unfoldable pub get_branch_root : MemoryBranches → Text → Option Key
unfolding map_get
get_branch_root s branch_id = map_get s.roots branch_id

unfoldable pub set_branch_root : MemoryBranches → Text → Key → MemoryBranches
unfolding map_set
set_branch_root s branch_id key = record s { roots = map_set s.roots branch_id key }

abbrev set_root_of :
    MemoryBranches → Key → Option Text → Result DriveError (Unit {0}) × MemoryBranches
set_root_of s key none = (err realm_root_not_found, s)
set_root_of s key (some branch_id) = (ok tt, record s { roots = map_set s.roots branch_id key })

unfoldable pub set_realm_root :
    MemoryBranches → Text → Key → Result DriveError (Unit {0}) × MemoryBranches
unfolding map_set get_realm_root_record
set_realm_root s realm_id key = set_root_of s key (get_realm_root_record s realm_id)

unfoldable pub insert_branch : MemoryBranches → Branch → MemoryBranches
unfolding map_set
insert_branch s branch = record s { branches = map_set s.branches branch.branch_id branch }

abbrev pub root_branch : Text → Text → Branch
root_branch branch_id realm_id = record {
  branch_id = branch_id;
  realm_id = realm_id;
  parent_id = none;
  expires_at = 0;
  access_verification = none;
}

-- A new root branch of the realm.
abbrev pub with_root_branch : MemoryBranches → Text → Key → Text → MemoryBranches
with_root_branch s realm_id key branch_id =
    let inserted = insert_branch s (root_branch branch_id realm_id) in
    set_branch_root
      (record inserted { realm_root_branch_id = map_set s.realm_root_branch_id realm_id branch_id })
      branch_id key

abbrev pub keep_or_set : MemoryBranches → Text → Key → Option Key → MemoryBranches
keep_or_set s branch_id key none = set_branch_root s branch_id key
keep_or_set s branch_id key (some root) = s

abbrev pub ensure_at : MemoryBranches → Text → Key → Text → Option Text → MemoryBranches
ensure_at s realm_id key uuid none = with_root_branch s realm_id key uuid
ensure_at s realm_id key uuid (some branch_id) =
    keep_or_set s branch_id key (map_get s.roots branch_id)

-- `uuid` is what `crypto.randomUUID()` returns.
unfoldable pub ensure_realm_root : MemoryBranches → Text → Key → Text → MemoryBranches
unfolding map_get map_set insert_branch set_branch_root get_realm_root_record
ensure_realm_root s realm_id empty_root_key uuid =
    ensure_at s realm_id empty_root_key uuid (get_realm_root_record s realm_id)

abbrev has_parent : Option Text → Bool
has_parent none = false
has_parent (some p) = true

unfoldable pub list_branches : MemoryBranches → Text → List Branch
unfolding filter same_key
list_branches s realm_id =
    filter (λ b. same_key b.realm_id realm_id && has_parent b.parent_id) (map_values s.branches)

-- The loop over the realms stops at the first that has the branch.
unfoldable pub forget_realm : Text → List (Text × Text) → List (Text × Text)
unfolding same_key
forget_realm branch_id [] = []
forget_realm branch_id ((realm, id) ∷ realms) =
    let rest = forget_realm branch_id realms in
    if same_key id branch_id then realms else (realm, id) ∷ rest

unfoldable pub remove_branch : MemoryBranches → Text → MemoryBranches
unfolding map_delete forget_realm
remove_branch s branch_id = record {
  branches = map_delete s.branches branch_id;
  roots = map_delete s.roots branch_id;
  realm_root_branch_id = forget_realm branch_id s.realm_root_branch_id;
}

-- `b.parentId !== null && b.expiresAt < expiredBefore`
abbrev pub is_expired : ℕ → Branch → Bool
is_expired expired_before b = has_parent b.parent_id && ltb b.expires_at expired_before

-- The loop over the entries: the count and the two maps.
unfoldable pub purge_loop :
    ℕ → List (Text × Branch) → List (Text × Key) → ℕ × (List (Text × Branch) × List (Text × Key))
unfolding map_delete
purge_loop expired_before [] roots = (0, ([], roots))
purge_loop expired_before ((id, b) ∷ branches) roots =
    let (n, (kept, left)) = purge_loop expired_before branches roots in
    if is_expired expired_before b
    then (suc n, (kept, map_delete left id))
    else (n, ((id, b) ∷ kept, left))

unfoldable pub purge_expired_branches : MemoryBranches → ℕ → ℕ × MemoryBranches
unfolding purge_loop
purge_expired_branches s expired_before =
    let (count, (branches, roots)) = purge_loop expired_before s.branches s.roots in
    (count, record s { branches = branches; roots = roots })
