-- ===== src/Drive/Transfer.antt =====
-- cells/drive/backend/services/transfer-paths.ts: `executeTransfer`, over any branch store and CAS facade.
pub mod Spec
pub mod Frame
pub mod Outcome
mod Examples
use casfa.Base.{
  ℕ, Bool, true, false, not, Option, none, some, List, [], ◌∷◌, if◌then◌else◌, length, Bytes,
  Result, ok, err,
}
use casfa.Base.Exec.{Exec, pure, lift, raise, reads, ◌>>=◌, ◌>>◌}
use casfa.Core.Text.{Text, TextDecoder}
use casfa.Storage.{Key, same_key}
use casfa.Cas.Facade.{CasFacade}
use casfa.Drive.{
  DriveError, merge_dir_not_implemented, source_branch_not_found, target_branch_not_found,
  realms_differ, source_has_no_root, source_path_not_found, target_path_exists,
}
use casfa.Drive.World.{World, Action, report, ensure_empty_root}
use casfa.Drive.Resolver.{resolve_path}
use casfa.Drive.Mutations.{ensure_path_then_add_or_replace, need}
use casfa.Drive.Branches.{truthy, Branch, BranchStore}
use casfa.Drive.Transfer.Spec.{
  TransferMode, replace, fail_if_exists, merge_dir, TransferSpec, NormalizedSpec,
  validate_transfer_spec, object_entries,
}

pub record TransferResult : Type 0 where
  pub applied : ℕ
  pub target_branch_id : Text

-- `normalized.mode === "merge_dir"`
abbrev pub check_mode : TransferMode → Result DriveError (Unit {0})
check_mode replace = ok tt
check_mode fail_if_exists = ok tt
check_mode merge_dir = err merge_dir_not_implemented

abbrev pub same_realm : Branch → Branch → Result DriveError (Unit {0})
same_realm source target =
    if same_key source.realm_id target.realm_id then ok tt else err realms_differ

abbrev pub no_target : Text → Result DriveError (Option Key) → Result DriveError (Unit {0})
no_target path (err e) = err e
no_target path (ok none) = ok tt
no_target path (ok (some [])) = ok tt
no_target path (ok (some (c ∷ key))) = err (target_path_exists path)

module _ (store : BranchStore) (compute_key : Bytes → Bytes) (cas : CasFacade compute_key)
    (text : TextDecoder) (le_locale : Text → Text → Bool) where
  -- The branches, and what the services of the drive change.
  abbrev pub TransferWorld : Type 0
  TransferWorld = store.State × World compute_key cas

  abbrev pub Transfer : Type 0 → Type 0
  Transfer A = Exec TransferWorld DriveError A

  -- A service of the drive does not change the branches.
  unfoldable pub on_world : {A : Type 0} → Action compute_key cas A → Transfer A
  on_world action (branches, w) = let (r, w') = action w in (r, (branches, w'))

  -- `branchStore.setBranchRoot`
  unfoldable pub set_root : Text → Key → Transfer (Unit {0})
  set_root branch_id key (branches, w) = (ok tt, (store.set_branch_root branches branch_id key, w))

  abbrev pub must_not_exist :
      TransferMode → Key → Text → World compute_key cas → Result DriveError (Unit {0})
  must_not_exist replace root path w = ok tt
  must_not_exist merge_dir root path w = ok tt
  must_not_exist fail_if_exists root path w =
      no_target path (resolve_path compute_key cas text w.0 root path)

  -- The first loop: the nodes of the source paths. Nothing is written.
  unfoldable pub resolve_entries :
      TransferMode → Key → Key → List (Text × Text) → Transfer (List (Text × Key))
  unfolding resolve_path
  resolve_entries mode source_root target_root [] = pure []
  resolve_entries mode source_root target_root ((from_path, to_path) ∷ mapping) = do
    found ← reads (λ t. resolve_path compute_key cas text t.1.0 source_root from_path)
    source_node_key ← lift (need (truthy found) (source_path_not_found from_path))
    reads (λ t. must_not_exist mode target_root to_path t.1)
    rest ← resolve_entries mode source_root target_root mapping
    pure ((to_path, source_node_key) ∷ rest)

  -- The second loop: the nodes are put under the target root.
  unfoldable pub apply_entries : Key → List (Text × Key) → Transfer Key
  unfolding on_world
  apply_entries root [] = pure root
  apply_entries root ((to_path, key) ∷ entries) = do
    new_root ←
        on_world (ensure_path_then_add_or_replace compute_key cas text le_locale root to_path key)
    apply_entries new_root entries

  -- The root of the target branch, made where there is none.
  abbrev pub root_or_new : Text → Option Key → Transfer Key
  root_or_new branch_id (some root) = pure root
  root_or_new branch_id none = do
    empty_root ← on_world (ensure_empty_root compute_key cas)
    set_root branch_id empty_root
    on_world (report compute_key cas empty_root)
    pure empty_root

  unfoldable pub target_root_of : Text → Transfer Key
  unfolding on_world set_root
  target_root_of branch_id = do
    found ← reads (λ t. ok (store.get_branch_root t.0 branch_id))
    root_or_new branch_id (truthy found)

  -- `if (newTargetRoot !== targetRootKey) await setBranchRoot(...)`
  unfoldable pub commit : Text → Key → Key → Transfer (Unit {0})
  unfolding set_root same_key
  commit branch_id old_root new_root =
      if same_key new_root old_root then pure tt else set_root branch_id new_root

  abbrev pub find_branch : Text → DriveError → Transfer Branch
  find_branch id thrown = do
    found ← reads (λ t. ok (store.get_branch t.0 id))
    lift (need found thrown)

  -- The checks, which change nothing: the branches and the root of the source.
  unfoldable pub find_branches : NormalizedSpec → Transfer (Branch × Key)
  unfolding same_key
  find_branches normalized = do
    lift (check_mode normalized.mode)
    source ← find_branch normalized.source source_branch_not_found
    target ← find_branch normalized.target target_branch_not_found
    lift (same_realm source target)
    root ← reads (λ t. ok (store.get_branch_root t.0 source.branch_id))
    source_root ← lift (need (truthy root) source_has_no_root)
    pure (target, source_root)

  -- What happens once the target branch and its root are there.
  unfoldable pub transfer_into : NormalizedSpec → Text → Key → Key → Transfer TransferResult
  unfolding resolve_entries apply_entries commit object_entries
  transfer_into normalized branch_id source_root target_root = do
    entries ←
        resolve_entries normalized.mode source_root target_root (object_entries normalized.mapping)
    new_root ← apply_entries target_root entries
    commit branch_id target_root new_root
    pure (record { applied = length entries; target_branch_id = branch_id })

  unfoldable pub execute_transfer : TransferSpec → Transfer TransferResult
  unfolding validate_transfer_spec find_branches target_root_of transfer_into
  execute_transfer spec = do
    normalized ← lift (validate_transfer_spec spec)
    found ← find_branches normalized
    target_root ← target_root_of found.0.branch_id
    transfer_into normalized found.0.branch_id found.1 target_root
