-- ===== src/Drive/CurrentRoot/Examples.antt =====
-- The owner of a realm and a worker of a branch of it, and the theorem about their roots at them.
use casfa.Base.{◌≡◌, refl, some, [], ◌∷◌, true, ok, err}
use casfa.Encoding.Cb32.{codes}
use casfa.Drive.{realm_not_initialized}
use casfa.Drive.Branches.Memory.{MemoryBranches, root_branch}
use casfa.Drive.Branches.Memory.Laws.{memory_branch_store}
use casfa.Drive.BranchApi.Requests.{user, worker}
use casfa.Drive.CurrentRoot.{get_current_root, get_effective_delegate_id, current_root-set}

abbrev sample : MemoryBranches
sample = record {
  branches = (codes "r", root_branch (codes "r") (codes "u")) ∷ [];
  roots = (codes "r", codes "K") ∷ (codes "c", codes "L") ∷ [];
  realm_root_branch_id = (codes "u", codes "r") ∷ [];
}

owner-effective :
    get_effective_delegate_id memory_branch_store (user (codes "u")) sample ≡ ok (codes "r")
unfolding get_effective_delegate_id casfa.Drive.Branches.Memory.get_realm_root_record
    casfa.Maps.map_get casfa.Storage.same_key
owner-effective = refl

-- The owner's changes go to the root branch.
current_root-set_example :
    get_current_root memory_branch_store
      (user (codes "u"))
      (memory_branch_store.set_branch_root sample (codes "r") (codes "M"))
    ≡ some (codes "M")
unfolding casfa.Storage.same_key
current_root-set_example =
    current_root-set memory_branch_store (user (codes "u")) (codes "r") (codes "r") (codes "M")
      sample owner-effective

-- The worker of another branch does not see them.
worker-keeps :
    get_current_root memory_branch_store
      (worker (codes "u") (codes "c") true)
      (memory_branch_store.set_branch_root sample (codes "r") (codes "M"))
    ≡ some (codes "L")
unfolding get_current_root casfa.Drive.Branches.Memory.get_branch_root
    casfa.Drive.Branches.Memory.set_branch_root casfa.Maps.map_get casfa.Maps.map_set
    casfa.Storage.same_key
worker-keeps = refl

-- A realm without a root branch has no branch to change.
stranger-refused :
    get_effective_delegate_id memory_branch_store (user (codes "v")) sample
    ≡ err realm_not_initialized
unfolding get_effective_delegate_id casfa.Drive.Branches.Memory.get_realm_root_record
    casfa.Maps.map_get casfa.Storage.same_key
stranger-refused = refl
