-- ===== src/Drive/BranchApi/Examples.antt =====
-- The theorems about the requests to make and remove branches at the drive of Sample.
use casfa.Base.{◌≡◌, refl, ◌⊎◌, some, none, [], ◌∷◌, true}
use casfa.Core.Text.{Text, ascii_decoder}
use casfa.Core.ByteOrder.{le_bytes}
use casfa.Encoding.Cb32.{codes}
use casfa.Drive.Sample.{sum_key, cas}
use casfa.Drive.Branches.{Branch, BranchStore}
use casfa.Drive.Branches.Memory.{MemoryBranches, remove_branch}
use casfa.Drive.Branches.Memory.Laws.{memory_branch_store}
use casfa.Drive.Branches.Memory.Realms.{HasRealms}
use casfa.Drive.BranchApi.Requests.{user, worker, Reply, refused, revoked, closed}
use casfa.Delegates.MemoryStore.Index.{some-injective}
use casfa.Drive.Paths.{trim}
use casfa.Drive.Transfer.Spec.{TransferSpec}
use casfa.Drive.BranchApi.Granted.{IsSubBranch, create-IsSubBranch, IsRootChild, create-IsRootChild}
use casfa.Drive.BranchApi.Transfers.{IsOther, worker_transfer-frames}
use casfa.Drive.BranchApi.Sample.{
  branch_of, realm_body, made_in_realm, made_in_realm-ok, branches, body, draws, config, start,
  made, response, parent-named, made-ok,
}
use casfa.Drive.BranchApi.{transfer_paths, revoke, close}
use casfa.Drive.BranchApi.Removal.{MayClose, close-MayClose}

abbrev worker_closes : Text → Reply × MemoryBranches
worker_closes id =
    close memory_branch_store sum_key cas ascii_decoder le_bytes
      (some (worker (codes "u") (codes "a") true)) id branches

close-MayClose_example :
    ((worker_closes (codes "me")).1 ≡ branches)
    ⊎ ((removed : Text) × MayClose memory_branch_store sum_key cas ascii_decoder le_bytes branches
          (worker (codes "u") (codes "a") true)
          removed
        × ((worker_closes (codes "me")).1 ≡ memory_branch_store.remove_branch branches removed))
close-MayClose_example =
    close-MayClose memory_branch_store sum_key cas ascii_decoder le_bytes
      (worker (codes "u") (codes "a") true) (codes "me") branches

-- The worker closes its own branch, and may not close another.
own-closed : worker_closes (codes "me") ≡ (closed (codes "a"), remove_branch branches (codes "a"))
unfolding close casfa.Drive.Branches.Memory.get_branch casfa.Maps.map_get casfa.Storage.same_key
own-closed = refl

other-refused : worker_closes (codes "b") ≡ (refused 403, branches)
unfolding close casfa.Storage.same_key
other-refused = refl

-- A branch of another realm stays.
other_realm-stays :
    revoke memory_branch_store sum_key cas ascii_decoder le_bytes
      (some (user (codes "u")))
      (codes "b")
      branches
    ≡ (revoked (codes "b"), branches)
unfolding revoke casfa.Drive.Branches.Memory.get_branch casfa.Maps.map_get casfa.Storage.same_key
other_realm-stays = refl

create-IsSubBranch_example :
    IsSubBranch memory_branch_store sum_key cas ascii_decoder le_bytes config
      (worker (codes "u") (codes "a") true)
      draws
      body
      (codes "a")
      start
      made.1
create-IsSubBranch_example =
    create-IsSubBranch memory_branch_store sum_key cas ascii_decoder le_bytes config
      (worker (codes "u") (codes "a") true) draws body (codes "a") start response parent-named
      made-ok

start-HasRealms : HasRealms branches
unfolding casfa.Maps.map_get casfa.Storage.same_key
start-HasRealms = record {
  branches_map = (refl, (refl, tt));
  realms_map = tt;
  owned = λ realm id e. cc;
}

root_id-new : memory_branch_store.get_branch branches (codes "m") ≡ none
unfolding casfa.Drive.Branches.Memory.get_branch casfa.Maps.map_get casfa.Storage.same_key
root_id-new = refl

create-IsRootChild_example :
    IsRootChild memory_branch_store sum_key cas ascii_decoder le_bytes config
      (user (codes "u"))
      draws
      realm_body
      start
      made_in_realm.1
create-IsRootChild_example =
    create-IsRootChild memory_branch_store sum_key cas ascii_decoder le_bytes config
      (user (codes "u")) draws b'm' [] realm_body start response start-HasRealms refl root_id-new
      refl made_in_realm-ok

-- A transfer of the worker of "a" within its branch, to a path that is there.
abbrev own_spec : TransferSpec
own_spec = record {
  source = some (codes "a");
  target = some (codes "a");
  mapping = (codes "d", codes "e") ∷ [];
  mode = none;
}

own_id-whole : trim (codes "a") ≡ codes "a"
unfolding trim
own_id-whole = refl

b-IsOther :
    IsOther memory_branch_store sum_key cas ascii_decoder le_bytes start (codes "a") (codes "b")
unfolding casfa.Drive.Branches.Memory.get_branch casfa.Maps.map_get casfa.Storage.same_key
b-IsOther b there =
    let same : branch_of (codes "a") (codes "u") ≡ b = some-injective there in rw (← same) refl

worker_transfer-frames_example :
    memory_branch_store.get_branch_root
      (transfer_paths memory_branch_store sum_key cas ascii_decoder le_bytes
        (some (worker (codes "u") (codes "a") true))
        (codes "a")
        own_spec
        start).1.0
      (codes "b")
    ≡ memory_branch_store.get_branch_root branches (codes "b")
worker_transfer-frames_example =
    worker_transfer-frames memory_branch_store sum_key cas ascii_decoder le_bytes (codes "u")
      (codes "a") true (codes "a") own_spec start (codes "b") own_id-whole b-IsOther
