-- ===== src/Drive/Transfer/Examples.antt =====
-- Transfers between branches of a small drive, and the theorems about transfers at them.
use casfa.Base.{
  ◌⊎◌, ℕ, ◌≡◌, refl, sym, ◌∙◌, true, false, Bool, Option, none, some, List, [], ◌∷◌, arith, Result,
  ok, err, if◌then◌else◌, sort,
}
use casfa.Core.Text.{Text, ascii_decoder}
use casfa.Core.ByteOrder.{le_bytes}
use casfa.Encoding.Cb32.{codes}
use casfa.Storage.{Key, same_key}
use casfa.Delegates.MemoryStore.Index.{some-injective}
use casfa.Drive.{DriveError, target_path_exists}
use casfa.Drive.Sample.{sum_key, cas, files, root_key}
use casfa.Drive.Branches.{truthy, Branch, BranchStore}
use casfa.Drive.Branches.Memory.{MemoryBranches}
use casfa.Drive.Branches.Memory.Laws.{memory_branch_store}
use casfa.Drive.World.{World, ensure_empty_root}
use casfa.Drive.Transfer.Spec.{
  TransferSpec, NormalizedSpec, TransferMode, fail_if_exists, validate_transfer_spec,
  has_ancestor_or_descendant_conflict, has_nested_neighbours, starts_with, le_utf16,
}
use casfa.Drive.Transfer.{TransferResult, TransferWorld, execute_transfer}
use casfa.Drive.Transfer.Outcome.{execute-frames, execute-eq-err}

-- Of these targets the third is below the first, but not next to it in the order.
missed_conflict :
    has_ancestor_or_descendant_conflict (codes "a" ∷ codes "a-b" ∷ codes "a/c" ∷ []) ≡ false
unfolding has_ancestor_or_descendant_conflict has_nested_neighbours starts_with sort le_utf16
missed_conflict = refl

abbrev branch_of : Text → Branch
branch_of id = record {
  branch_id = id;
  realm_id = codes "u";
  parent_id = some (codes "r");
  expires_at = 50;
  access_verification = none;
}

abbrev branches : MemoryBranches
branches = record {
  branches = (codes "a", branch_of (codes "a")) ∷ (codes "b", branch_of (codes "b")) ∷ [];
  roots = (codes "a", root_key) ∷ (codes "b", root_key) ∷ (codes "c", root_key) ∷ [];
  realm_root_branch_id = [];
}

-- The path "d" is there in both branches.
abbrev spec : TransferSpec
spec = record {
  source = some (codes "a");
  target = some (codes " b ");
  mapping = (codes "/d/", codes "d") ∷ [];
  mode = none;
}

abbrev normalized : NormalizedSpec
normalized = record {
  source = codes "a";
  target = codes "b";
  mapping = (codes "d", codes "d") ∷ [];
  mode = fail_if_exists;
}

abbrev start : TransferWorld memory_branch_store sum_key cas ascii_decoder le_bytes
start = (branches, ((files, 0), []))

spec-ok : validate_transfer_spec spec ≡ ok normalized
unfolding validate_transfer_spec casfa.Drive.Transfer.Spec.normalize_mapping
    casfa.Drive.Paths.normalize_strict casfa.Drive.Paths.trim casfa.Drive.Paths.trim_slashes
    casfa.Drive.Paths.skip_slashes casfa.Drive.Paths.drop_end_slashes casfa.Drive.Paths.split_slash
    casfa.Drive.Paths.join_slash casfa.Drive.Paths.some_bad casfa.Drive.Paths.front_space
    has_ancestor_or_descendant_conflict has_nested_neighbours casfa.Drive.Transfer.Spec.has_target
    casfa.Maps.map_set sort same_key
spec-ok = refl

abbrev run :
    Result DriveError TransferResult
    × TransferWorld memory_branch_store sum_key cas ascii_decoder le_bytes
run = execute_transfer memory_branch_store sum_key cas ascii_decoder le_bytes spec start

other-branch :
    (n : NormalizedSpec) (target : Branch)
    → validate_transfer_spec spec ≡ ok n
    → memory_branch_store.get_branch branches n.target ≡ some target
    → same_key target.branch_id (codes "c") ≡ false
unfolding casfa.Drive.Branches.Memory.get_branch casfa.Maps.map_get same_key
other-branch n target e there =
    let both : ok normalized ≡ ok n = sym spec-ok ∙ e in
    let is : normalized ≡ n = cc in
    let same : branch_of (codes "b") ≡ target = some-injective (rw (← is) at there) in
    rw (← same) refl

execute-frames_example :
    memory_branch_store.get_branch_root run.1.0 (codes "c")
    ≡ memory_branch_store.get_branch_root branches (codes "c")
execute-frames_example =
    execute-frames memory_branch_store sum_key cas ascii_decoder le_bytes spec start (codes "c")
      other-branch

run-fails : run.0 ≡ err (target_path_exists (codes "d"))
unfolding execute_transfer validate_transfer_spec casfa.Drive.Transfer.find_branches
    casfa.Drive.Transfer.target_root_of casfa.Drive.Transfer.transfer_into
    casfa.Drive.Transfer.resolve_entries casfa.Drive.Transfer.apply_entries
    casfa.Drive.Transfer.commit casfa.Drive.Transfer.Spec.object_entries
    casfa.Drive.Transfer.Spec.index_properties casfa.Drive.Transfer.Spec.named_properties
    casfa.Drive.Transfer.Spec.normalize_mapping casfa.Drive.Paths.normalize_strict
    casfa.Drive.Paths.trim casfa.Drive.Paths.some_bad casfa.Drive.Paths.front_space
    has_ancestor_or_descendant_conflict has_nested_neighbours casfa.Drive.Transfer.Spec.has_target
    casfa.Maps.map_set casfa.Maps.map_get casfa.Drive.Branches.Memory.get_branch
    casfa.Drive.Branches.Memory.get_branch_root casfa.Drive.decimal_index
    casfa.Drive.Resolver.resolve_segments casfa.Drive.Resolver.resolve_segment
    casfa.Drive.Mutations.add_or_replace_at_path casfa.Drive.Mutations.add_at
    casfa.Drive.Mutations.find_parent casfa.Drive.Mutations.add_or_replace_in_dict
    casfa.Drive.Mutations.put_parent casfa.Drive.Mutations.replace_subtree_at_path
    casfa.Drive.Mutations.put_child casfa.Drive.Mutations.resolve_segment
    casfa.Drive.Mutations.read_dict casfa.Drive.World.put_dict casfa.Drive.World.put_node
    casfa.Drive.World.report casfa.Drive.Paths.normalize_path casfa.Drive.Paths.join_slash
    casfa.Drive.Resolver.resolve_path casfa.Drive.index_of casfa.Controller.key_to_hash
    casfa.Core.Node.encode_dict_node casfa.Core.Pascal.encode_pascal_strings
    casfa.Core.Pascal.encode_pascal_string casfa.Core.Words.u16_bytes casfa.Base.sort
    casfa.Core.ByteOrder.le_bytes mathlib.Core.List.zip casfa.Cas.Update.put_node
    casfa.Cas.Update.track_node casfa.Cas.Lookup.check_children casfa.Cas.Lookup.read_new_keys
    casfa.Cas.Lookup.read_times casfa.Storage.Memory.put casfa.Drive.Resolver.get_node_decoded
    casfa.Cas.Lookup.get_node casfa.Storage.Memory.get casfa.Storage.same_key
    casfa.Controller.hash_to_key casfa.Core.Node.encode_successor_node
    casfa.Core.Header.encode_header casfa.Core.Words.u32_bytes casfa.Core.Node.decode_node
    casfa.Core.Words.get_uint32 casfa.Core.Node.decode_payload
    casfa.Core.Pascal.decode_pascal_string casfa.Core.Words.get_uint16
run-fails = refl

execute-eq-err_example :
    (run.1.0 ≡ branches)
    ⊎ ((n : NormalizedSpec) × (target : Branch) × (validate_transfer_spec spec ≡ ok n)
        × (memory_branch_store.get_branch branches n.target ≡ some target)
        × (truthy (memory_branch_store.get_branch_root branches target.branch_id) ≡ none)
        × (world : World sum_key cas) × (root : Key) × ((ensure_empty_root sum_key cas world).0
            ≡ ok root)
        × (run.1.0 ≡ memory_branch_store.set_branch_root branches target.branch_id root))
execute-eq-err_example =
    execute-eq-err memory_branch_store sum_key cas ascii_decoder le_bytes spec start
      (target_path_exists (codes "d")) run-fails
