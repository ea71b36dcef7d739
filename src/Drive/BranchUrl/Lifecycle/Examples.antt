-- ===== src/Drive/BranchUrl/Lifecycle/Examples.antt =====
-- The URLs of the branches of the sample drive, after the requests that make and remove branches.
use casfa.Base.{◌≡◌, refl, some, [], true}
use casfa.Core.Text.{ascii_decoder}
use casfa.Core.ByteOrder.{le_bytes}
use casfa.Encoding.Cb32.{codes}
use casfa.Drive.Sample.{sum_key, cas}
use casfa.Drive.Branches.Memory.{MemoryBranches}
use casfa.Drive.Branches.Memory.Laws.{memory_branch_store}
use casfa.Drive.BranchApi.Requests.{user, worker}
use casfa.Drive.BranchApi.{revoke}
use casfa.Drive.BranchApi.Removal.{IsManaged}
use casfa.Drive.BranchApi.Sample.{
  branch_of, branches, body, draws, config, start, made, response, parent-named, made-ok,
}
use casfa.Drive.BranchUrl.{unauthorized, forwarded, branch_url_auth}
use casfa.Drive.BranchUrl.Lifecycle.{branch_url, IsUrl, create-routes, revoke-routes}

IsUrl-n : IsUrl (codes "n") (codes "V") (codes "root") []
unfolding casfa.Storage.same_key
IsUrl-n = (
  record { nonempty = refl; whole = refl; named = refl },
  (
    record { nonempty = refl; whole = refl; named = refl },
    (
      record { nonempty = refl; whole = refl; named = refl },
      (record { nonempty = refl; whole = refl; named = refl }, tt),
    ),
  ),
)

IsUrl-a : IsUrl (codes "a") (codes "V") (codes "root") []
unfolding casfa.Storage.same_key
IsUrl-a = (
  record { nonempty = refl; whole = refl; named = refl },
  (
    record { nonempty = refl; whole = refl; named = refl },
    (
      record { nonempty = refl; whole = refl; named = refl },
      (record { nonempty = refl; whole = refl; named = refl }, tt),
    ),
  ),
)

-- The time to live is cut to ten minutes.
create-routes_example :
    branch_url_auth memory_branch_store config.base64url made.1.0 600040
      (branch_url (codes "n") (codes "V") (codes "root") [])
    ≡ forwarded (codes "/api/realm/me/root") (codes "n")
unfolding casfa.Drive.BranchUrl.normalize_branch_scoped_path casfa.Storage.same_key
    casfa.Drive.Transfer.Spec.starts_with casfa.Drive.Paths.join_slash
create-routes_example =
    create-routes memory_branch_store sum_key cas ascii_decoder le_bytes config
      (worker (codes "u") (codes "a") true) draws body (codes "a") start response 600040
      (codes "root") [] parent-named made-ok IsUrl-n

user_manages :
    IsManaged memory_branch_store sum_key cas ascii_decoder le_bytes branches
      (user (codes "u"))
      (codes "a")
unfolding casfa.Drive.Branches.Memory.get_branch casfa.Maps.map_get casfa.Storage.same_key
user_manages = record {
  branch = branch_of (codes "a") (codes "u");
  stored = refl;
  realm_eq = refl;
  may = refl;
}

abbrev revoked_branches : MemoryBranches
revoked_branches =
    (revoke memory_branch_store sum_key cas ascii_decoder le_bytes (some (user (codes "u")))
      (codes "a") branches).1

revoke-routes_example :
    branch_url_auth memory_branch_store config.base64url revoked_branches 41
      (branch_url (codes "a") (codes "V") (codes "root") [])
    ≡ unauthorized
revoke-routes_example =
    revoke-routes memory_branch_store sum_key cas ascii_decoder le_bytes config (user (codes "u"))
      (codes "a") (codes "V") (codes "root") [] branches 41 user_manages IsUrl-a
