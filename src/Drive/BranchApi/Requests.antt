-- ===== src/Drive/BranchApi/Requests.antt =====
-- What a request of cells/drive/backend/controllers/branches.ts has, what it draws and what it is answered,
-- with the AuthContext of types.ts.
use casfa.Base.{
  ℕ, min, Bool, true, false, ◌||◌, Option, none, some, List, [], ◌∷◌, ◌++◌, if◌then◌else◌, ltb,
  ◌==◌,
}
use casfa.Core.Text.{Text}
use casfa.Encoding.Cb32.{codes}
use casfa.Storage.{same_key}
use casfa.Drive.{DriveError}
use casfa.Drive.Paths.{slash, trim, trim_slashes}
use casfa.Drive.Transfer.Spec.{TransferSpec}
use casfa.Drive.Transfer.{TransferResult}

pub data AuthContext : Type 0 where
  user : (user_id : Text) → AuthContext
  delegate : (realm_id delegate_id client_id : Text) → (permissions : List Text) → AuthContext
  worker : (realm_id branch_id : Text) → (readwrite : Bool) → AuthContext

-- `auth.type === "user" ? auth.userId : auth.realmId`
abbrev pub realm_of : AuthContext → Text
realm_of (user user_id) = user_id
realm_of (delegate realm_id delegate_id client_id permissions) = realm_id
realm_of (worker realm_id branch_id readwrite) = realm_id

unfoldable pub includes : List Text → Text → Bool
unfolding same_key
includes [] permission = false
includes (p ∷ permissions) permission = same_key p permission || includes permissions permission

abbrev pub has_branch_manage : AuthContext → Bool
has_branch_manage (user user_id) = true
has_branch_manage (delegate realm_id delegate_id client_id permissions) =
    includes permissions (codes "branch_manage")
has_branch_manage (worker realm_id branch_id readwrite) = false

pub record CreatedBranch : Type 0 where
  pub branch_id : Text
  pub access_token : Text
  pub expires_at : ℕ
  pub access_url_prefix : Option Text

-- `refused` has the status; `internal` is an exception that leaves the handler.
pub data Reply : Type 0 where
  refused : ℕ → Reply
  created : CreatedBranch → Reply
  listed : List (Text × (Option Text × ℕ)) → Reply
  revoked closed : Text → Reply
  transferred : TransferResult → Reply
  internal : DriveError → Reply

-- What ends a handler early: a reply, or an exception.
pub data Stop : Type 0 where
  reply : Reply → Stop
  throw : DriveError → Stop

pub record CreateBody : Type 0 where
  pub mount_path : Option Text
  pub ttl : Option ℕ
  pub parent_branch_id : Option Text
  pub initial_transfers : Option TransferSpec

-- `typeof body.mountPath === "string" ? body.mountPath.trim().replace(/^\/+|\/+$/g, "") : ""`
abbrev pub mount_path_of : Option Text → Text
mount_path_of none = []
mount_path_of (some s) = trim_slashes (trim s)

abbrev pub default_ttl_ms : ℕ
default_ttl_ms = 600000

-- A ttl is a whole number of milliseconds; what is not positive is 0 here.
abbrev pub ttl_of : ℕ → Option ℕ → ℕ
ttl_of max_ttl_ms none = default_ttl_ms
ttl_of max_ttl_ms (some ttl) = if ltb 0 ttl then min ttl max_ttl_ms else default_ttl_ms

abbrev pub or_undefined : Text → Option Text
or_undefined [] = none
or_undefined (c ∷ s) = some (c ∷ s)

abbrev pub parent_of_body : Option Text → Option Text
parent_of_body none = none
parent_of_body (some s) = or_undefined (trim s)

-- baseUrl?.replace(/\/$/, "")
abbrev pub drop_slash : Text → Text
drop_slash [] = []
drop_slash (c ∷ []) = if c == slash then [] else c ∷ []
drop_slash (c ∷ d ∷ s) = c ∷ drop_slash (d ∷ s)

abbrev pub url_prefix : Text → Text → Text → Option Text
url_prefix [] branch_id verification = none
url_prefix (c ∷ base) branch_id verification =
    some ((c ∷ base) ++ (codes "/branch/" ++ (branch_id ++ (slash ∷ verification))))

abbrev pub prefix_of : Option Text → Text → Text → Option Text
prefix_of none branch_id verification = none
prefix_of (some base_url) branch_id verification =
    url_prefix (drop_slash base_url) branch_id verification

-- What a creation draws: the UUIDs of the new branch and of a root branch of the realm, the time, and the
-- verification, which `encodeCrockfordBase32` makes of 16 random bytes.
pub record BranchDraws : Type 0 where
  pub branch_uuid : Text
  pub realm_uuid : Text
  pub now : ℕ
  pub verification : Text

-- The configuration, and `base64urlEncode`.
pub record ApiConfig : Type 0 where
  pub max_ttl_ms : ℕ
  pub base_url : Option Text
  pub base64url : Text → Text
