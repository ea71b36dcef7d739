-- ===== src/Drive/BranchUrl/Examples.antt =====
-- A branch with a verification, and the theorems about requests under its URL.
use casfa.Base.{◌≢◌, List, ◌≡◌, refl, some, [], ◌∷◌, ◌++◌, All}
use casfa.Core.Text.{Text}
use casfa.Encoding.Cb32.{codes}
use casfa.Drive.Paths.{non_empty_parts, split_slash, slash, join_slash}
use casfa.Drive.Paths.Laws.{IsSegment}
use casfa.Drive.Branches.{Branch, BranchStore, AccessVerification}
use casfa.Drive.Branches.Memory.{MemoryBranches}
use casfa.Drive.Branches.Memory.Laws.{memory_branch_store}
use casfa.Drive.BranchUrl.{
  Routed, unauthorized, forwarded, normalize_branch_scoped_path, branch_url_auth, IsAdmitted,
  branch_url_auth-IsAdmitted, branch_url_auth-forwards,
}

abbrev access : AccessVerification
access = record { value = codes "V"; expires_at = 50 }

abbrev branch : Branch
branch = record {
  branch_id = codes "a";
  realm_id = codes "u";
  parent_id = some (codes "r");
  expires_at = 50;
  access_verification = some access;
}

abbrev branches : MemoryBranches
branches = record { branches = (codes "a", branch) ∷ []; roots = []; realm_root_branch_id = [] }

-- A stand-in for base64url.
abbrev token : Text → Text
token id = codes "t" ++ id

abbrev url : Text
url = slash ∷ join_slash (codes "branch" ∷ codes "a" ∷ codes "V" ∷ codes "root" ∷ [])

admitted : IsAdmitted memory_branch_store token branches 50 (codes "a") (codes "V")
unfolding casfa.Drive.Branches.Memory.get_branch casfa.Maps.map_get casfa.Storage.same_key
admitted = record {
  branch = branch;
  stored = refl;
  access = access;
  has = refl;
  value_eq = refl;
  in_time = refl;
}

url-segments : All IsSegment (codes "branch" ∷ codes "a" ∷ codes "V" ∷ codes "root" ∷ [])
unfolding casfa.Storage.same_key
url-segments = (
  record { nonempty = refl; whole = refl; named = refl },
  (
    record { nonempty = refl; whole = refl; named = refl },
    (
      record { nonempty = refl; whole = refl; named = refl },
      (record { nonempty = refl; whole = refl; named = refl }, tt),
    ),
  ),
)

url-ok :
    branch_url_auth memory_branch_store token branches 50 url
    ≡ forwarded (codes "/api/realm/me/root") (codes "ta")
unfolding branch_url_auth casfa.Drive.BranchUrl.behind_branch casfa.Drive.Paths.split_slash
    join_slash casfa.Drive.Paths.non_empty_parts normalize_branch_scoped_path
    casfa.Drive.Transfer.Spec.starts_with casfa.Drive.Branches.Memory.get_branch casfa.Maps.map_get
    casfa.Storage.same_key
url-ok = refl

branch_url_auth-IsAdmitted_example :
    (before : List Text) × (id : Text) × (verification : Text) × (p : Text) × (rest : List Text)
    × (non_empty_parts (split_slash url)
        ≡ before ++ (codes "branch" ∷ id ∷ verification ∷ p ∷ rest))
    × All (λ (q : Text). q ≢ codes "branch") before
    × (codes "/api/realm/me/root" ≡ normalize_branch_scoped_path (slash ∷ join_slash (p ∷ rest)))
    × (codes "ta" ≡ token id)
    × IsAdmitted memory_branch_store token branches 50 id verification
branch_url_auth-IsAdmitted_example =
    branch_url_auth-IsAdmitted memory_branch_store token branches 50 url
      (codes "/api/realm/me/root") (codes "ta") url-ok

-- After the time the request is turned away.
late : branch_url_auth memory_branch_store token branches 51 url ≡ unauthorized
unfolding branch_url_auth casfa.Drive.BranchUrl.behind_branch casfa.Drive.Paths.split_slash
    join_slash casfa.Drive.Paths.non_empty_parts casfa.Drive.Branches.Memory.get_branch
    casfa.Maps.map_get casfa.Storage.same_key
late = refl
