-- ===== src/Drive/BranchApi.antt =====
-- cells/drive/backend/controllers/branches.ts: the requests that create, list, revoke and close branches and
-- transfer paths between them. A request is what a handler reads of it.
pub mod Errors
pub mod Requests
pub mod Removal
pub mod Create
pub mod CreateRoot
pub mod Granted
pub mod Transfers
pub mod Sample
mod Examples
use casfa.Base.{
  ℕ, ◌+◌, ◌*◌, min, Bool, true, false, ◌&&◌, ◌||◌, not, Option, none, some, List, [], ◌∷◌, ◌++◌,
  map, if◌then◌else◌, ltb, ◌==◌, Bytes, Result, ok, err,
}
use casfa.Base.Exec.{Exec, pure, lift, raise, reads, ◌>>=◌, ◌>>◌}
use casfa.Core.Text.{Text, TextDecoder}
use casfa.Encoding.Cb32.{codes}
use casfa.Storage.{Key, same_key}
use casfa.Cas.Facade.{CasFacade}
use casfa.Drive.{DriveError, type_error}
use casfa.Drive.Paths.{is_empty, slash, trim, trim_slashes}
use casfa.Drive.World.{World, ensure_empty_root}
use casfa.Drive.Resolver.{resolve_path}
use casfa.Drive.Branches.{Branch, BranchStore, AccessVerification}
use casfa.Drive.Transfer.Spec.{TransferSpec, NormalizedSpec, validate_transfer_spec, object_entries}
use casfa.Drive.Transfer.{TransferResult, TransferWorld, Transfer, on_world, execute_transfer}
use casfa.Drive.BranchApi.Errors.{is_bad_create, is_bad_transfer}
use casfa.Drive.BranchApi.Requests.{
  AuthContext, realm_of, includes, has_branch_manage, CreatedBranch, Reply, Stop, CreateBody,
  mount_path_of, default_ttl_ms, ttl_of, or_undefined, parent_of_body, drop_slash, url_prefix,
  prefix_of, BranchDraws, ApiConfig, user, delegate, worker, refused, created, listed, revoked,
  closed, transferred, internal, reply, throw,
}

module _ (store : BranchStore) (compute_key : Bytes → Bytes) (cas : CasFacade compute_key)
    (text : TextDecoder) (le_locale : Text → Text → Bool) where
  abbrev pub ApiWorld : Type 0
  ApiWorld = TransferWorld store compute_key cas text le_locale

  abbrev pub Handler : Type 0 → Type 0
  Handler A = Exec ApiWorld Stop A

  abbrev pub thrown : {A : Type 0} → Result DriveError A → Result Stop A
  thrown (ok a) = ok a
  thrown (err e) = err (throw e)

  abbrev pub calls : {A : Type 0} → Transfer store compute_key cas text le_locale A → Handler A
  calls action t = let (r, t') = action t in (thrown r, t')

  abbrev pub change : (store.State → store.State) → Handler (Unit {0})
  change f (branches, w) = (ok tt, (f branches, w))

  abbrev pub or_reply : {A : Type 0} → Option A → ℕ → Result Stop A
  or_reply none status = err (reply (refused status))
  or_reply (some a) status = ok a

  abbrev pub unless_refused : Bool → ℕ → Result Stop (Unit {0})
  unless_refused true status = ok tt
  unless_refused false status = err (reply (refused status))

  abbrev pub reply_of : (DriveError → Bool) → Result Stop Reply → Reply
  reply_of is_bad (ok r) = r
  reply_of is_bad (err (reply r)) = r
  reply_of is_bad (err (throw e)) = if is_bad e then refused 400 else internal e

  -- A handler with its `try` and `catch`.
  abbrev pub answer : (DriveError → Bool) → Handler Reply → ApiWorld → Reply × ApiWorld
  answer is_bad handler t = let (r, t') = handler t in (reply_of is_bad r, t')

  module _ (config : ApiConfig) where
    abbrev pub branch_to_create : BranchDraws → ℕ → Text → Text → Branch
    branch_to_create draws ttl realm_id parent_id = record {
      branch_id = draws.branch_uuid;
      realm_id = realm_id;
      parent_id = some parent_id;
      expires_at = draws.now + ttl;
      access_verification =
          some (record { value = draws.verification; expires_at = draws.now + ttl });
    }

    abbrev pub build_create_response : BranchDraws → ℕ → Reply
    build_create_response draws ttl = created (record {
      branch_id = draws.branch_uuid;
      access_token = config.base64url draws.branch_uuid;
      expires_at = draws.now + ttl;
      access_url_prefix = prefix_of config.base_url draws.branch_uuid draws.verification;
    })

    abbrev pub set_child_root : Text → Option Key → store.State → store.State
    set_child_root branch_id none s = s
    set_child_root branch_id (some key) s = store.set_branch_root s branch_id key

    -- The end of a creation: the new branch, with the node at the mount path as its root, if there is one.
    unfoldable pub insert_child : BranchDraws → ℕ → Text → Text → Key → Text → Handler Reply
    insert_child draws ttl realm_id parent_id root_key mount_path = do
      child_root ← reads (λ t. thrown (resolve_path compute_key cas text t.1.0 root_key mount_path))
      change (λ s. store.insert_branch s (branch_to_create draws ttl realm_id parent_id))
      change (set_child_root draws.branch_uuid child_root)
      pure (build_create_response draws ttl)

    -- A branch of the root of the realm.
    unfoldable pub create_in_realm : AuthContext → BranchDraws → ℕ → Text → Handler Reply
    unfolding on_world insert_child includes
    create_in_realm auth draws ttl mount_path = do
      lift (unless_refused (has_branch_manage auth) 403)
      empty_key ←
          calls (on_world store compute_key cas text le_locale (ensure_empty_root compute_key cas))
      change (λ s. store.ensure_realm_root s (realm_of auth) empty_key draws.realm_uuid)
      record_found ← reads (λ t. ok (store.get_realm_root_record t.0 (realm_of auth)))
      root_branch_id ← lift (or_reply record_found 404)
      root_found ← reads (λ t. ok (store.get_realm_root t.0 (realm_of auth)))
      root_key ← lift (or_reply root_found 404)
      insert_child draws ttl (realm_of auth) root_branch_id root_key mount_path

    abbrev pub is_worker_of : AuthContext → Text → Bool
    is_worker_of (user user_id) parent = false
    is_worker_of (delegate realm_id delegate_id client_id permissions) parent = false
    is_worker_of (worker realm_id branch_id readwrite) parent = same_key branch_id parent

    -- A branch of a branch.
    unfoldable pub create_in_branch : AuthContext → BranchDraws → ℕ → Text → Text → Handler Reply
    unfolding insert_child same_key
    create_in_branch auth draws ttl parent_id mount_path = do
      lift (unless_refused (is_worker_of auth parent_id) 403)
      parent_found ← reads (λ t. ok (store.get_branch t.0 parent_id))
      parent ← lift (or_reply parent_found 404)
      root_found ← reads (λ t. ok (store.get_branch_root t.0 parent_id))
      root_key ← lift (or_reply root_found 400)
      insert_child draws ttl parent.realm_id parent_id root_key mount_path

    abbrev pub validated : Result DriveError NormalizedSpec → Result DriveError (Unit {0})
    validated (ok n) = ok tt
    validated (err e) = err e

    abbrev pub check_transfers : Option TransferSpec → Result DriveError (Unit {0})
    check_transfers none = ok tt
    check_transfers (some spec) = validated (validate_transfer_spec spec)

    abbrev pub create_at : AuthContext → BranchDraws → ℕ → Option Text → Text → Handler Reply
    create_at auth draws ttl none mount_path = create_in_realm auth draws ttl mount_path
    create_at auth draws ttl (some parent_id) mount_path =
        create_in_branch auth draws ttl parent_id mount_path

    unfoldable pub create_with : AuthContext → BranchDraws → CreateBody → Handler Reply
    create_with auth draws body = do
      let mount_path = mount_path_of body.mount_path
      lift (unless_refused (not (is_empty mount_path)) 400)
      lift (thrown (check_transfers body.initial_transfers))
      create_at auth draws (ttl_of config.max_ttl_ms body.ttl)
          (parent_of_body body.parent_branch_id) mount_path

    abbrev pub authorized : Option AuthContext → Result Stop AuthContext
    authorized none = err (reply (refused 403))
    authorized (some auth) = ok auth

    abbrev pub body_found : Option CreateBody → Result Stop CreateBody
    body_found none = err (throw type_error)
    body_found (some body) = ok body

    abbrev pub create_handler : Option AuthContext → BranchDraws → Option CreateBody → Handler Reply
    create_handler found draws json = do
      auth ← lift (authorized found)
      body ← lift (body_found json)
      create_with auth draws body

    -- `create`; a body that is the JSON value null is none.
    unfoldable pub create :
        Option AuthContext → BranchDraws → Option CreateBody → ApiWorld → Reply × ApiWorld
    unfolding create_with
    create found draws json = answer is_bad_create (create_handler found draws json)

  abbrev pub summary : Branch → Text × (Option Text × ℕ)
  summary b = (b.branch_id, (b.parent_id, b.expires_at))

  abbrev pub listed_of : Option Branch → Reply
  listed_of none = refused 404
  listed_of (some b) = listed (summary b ∷ [])

  abbrev pub list_for : AuthContext → store.State → Reply
  list_for (worker realm_id branch_id readwrite) s = listed_of (store.get_branch s branch_id)
  list_for (user user_id) s = listed (map summary (store.list_branches s user_id))
  list_for (delegate realm_id delegate_id client_id permissions) s =
      listed (map summary (store.list_branches s realm_id))

  unfoldable pub list : Option AuthContext → store.State → Reply
  list none s = refused 403
  list (some auth) s = list_for auth s

  -- The branch is there and of the realm: it is removed; and else nothing happens.
  abbrev pub remove_in_realm : Text → Text → Option Branch → store.State → store.State
  remove_in_realm realm_id branch_id none s = s
  remove_in_realm realm_id branch_id (some b) s =
      if same_key b.realm_id realm_id then store.remove_branch s branch_id else s

  abbrev pub remove_found : Text → Option Branch → store.State → store.State
  remove_found branch_id none s = s
  remove_found branch_id (some b) s = store.remove_branch s branch_id

  -- `if (!branchId)` on the parameter of the path
  abbrev pub managed : (Text → Reply) → AuthContext → Text → store.State → Reply × store.State
  managed done auth [] s = (refused 400, s)
  managed done auth (c ∷ branch_id) s = (
    done (c ∷ branch_id),
    remove_in_realm (realm_of auth) (c ∷ branch_id) (store.get_branch s (c ∷ branch_id)) s,
  )

  unfoldable pub revoke : Option AuthContext → Text → store.State → Reply × store.State
  unfolding same_key includes
  revoke none branch_id s = (refused 403, s)
  revoke (some auth) branch_id s =
      if has_branch_manage auth then managed revoked auth branch_id s else (refused 403, s)

  abbrev pub self_id : Text → Text → Text
  self_id own branch_id = if same_key branch_id (codes "me") then own else branch_id

  abbrev pub close_own : Text → Text → store.State → Reply × store.State
  close_own own branch_id s =
      if not (same_key own branch_id) && not (same_key branch_id (codes "me"))
      then (refused 403, s)
      else (
        closed (self_id own branch_id),
        remove_found (self_id own branch_id) (store.get_branch s (self_id own branch_id)) s,
      )

  abbrev pub close_managed : AuthContext → Text → store.State → Reply × store.State
  close_managed auth branch_id s =
      if has_branch_manage auth then managed closed auth branch_id s else (refused 403, s)

  abbrev pub close_as : AuthContext → Text → store.State → Reply × store.State
  close_as (worker realm_id own readwrite) branch_id s = close_own own branch_id s
  close_as (user user_id) branch_id s = close_managed (user user_id) branch_id s
  close_as (delegate realm_id delegate_id client_id permissions) branch_id s =
      close_managed (delegate realm_id delegate_id client_id permissions) branch_id s

  unfoldable pub close : Option AuthContext → Text → store.State → Reply × store.State
  unfolding same_key includes
  close none branch_id s = (refused 403, s)
  close (some auth) [] s = (refused 400, s)
  close (some auth) (c ∷ branch_id) s = close_as auth (c ∷ branch_id) s

  abbrev pub may_transfer : AuthContext → Text → Text → Bool
  may_transfer (worker realm_id own readwrite) target source =
      same_key own target && same_key source own
  may_transfer (user user_id) target source = true
  may_transfer (delegate realm_id delegate_id client_id permissions) target source =
      includes permissions (codes "branch_manage")

  -- executeTransfer is given the normalized specification.
  abbrev pub spec_of : NormalizedSpec → TransferSpec
  spec_of n = record {
    source = some n.source;
    target = some n.target;
    mapping = object_entries n.mapping;
    mode = some n.mode;
  }

  abbrev pub transfer_handler : AuthContext → Text → TransferSpec → Handler Reply
  transfer_handler auth branch_id spec = do
    normalized ← lift (thrown (validate_transfer_spec spec))
    lift (unless_refused (not (is_empty branch_id)) 400)
    lift (unless_refused (same_key normalized.target branch_id) 400)
    lift (unless_refused (may_transfer auth branch_id normalized.source) 403)
    result ← calls (execute_transfer store compute_key cas text le_locale (spec_of normalized))
    pure (transferred result)

  unfoldable pub transfer_paths :
      Option AuthContext → Text → TransferSpec → ApiWorld → Reply × ApiWorld
  unfolding validate_transfer_spec execute_transfer same_key includes object_entries
  transfer_paths none branch_id spec t = (refused 403, t)
  transfer_paths (some auth) branch_id spec t =
      answer is_bad_transfer (transfer_handler auth branch_id spec) t
