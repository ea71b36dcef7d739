-- ===== src/Drive/BranchUrl.antt =====
-- cells/drive/backend/middleware/branch-url-auth.ts: the requests under /branch/:branchId/:verification.
-- `base64urlEncode` and the time are arguments.
pub mod Lifecycle
mod Examples
use casfa.Base.{
  ℕ, Bool, true, false, ◌||◌, Option, none, some, List, [], ◌∷◌, ◌++◌, All, if◌then◌else◌, ltb, ◌≡◌,
  ◌≢◌, refl, ap, ◌∙◌, Option-cases, Bool-cases, inl, inr,
}
use casfa.Core.Text.{Text}
use casfa.Encoding.Cb32.{codes}
use casfa.Storage.{same_key, same_key_self, same_key_iff}
use casfa.Drive.Paths.{slash, split_slash, join_slash, non_empty_parts}
use casfa.Drive.Paths.Laws.{IsSegment, split-join, non_empty_parts-All}
use casfa.Drive.Transfer.Spec.{starts_with}
use casfa.Delegates.MemoryStore.Index.{some-injective}
use casfa.Drive.Branches.{Branch, BranchStore, AccessVerification}

-- `passed` is a call of next(), `unauthorized` the status 401, and `forwarded` a request to the same app with
-- the path and the header X-Branch-Auth that it has there.
pub data Routed : Type 0 where
  passed unauthorized : Routed
  forwarded : (path branch_auth : Text) → Routed

abbrev realm_me : Text
realm_me = codes "/api/realm/me"

unfoldable pub normalize_branch_scoped_path : Text → Text
unfolding starts_with same_key
normalize_branch_scoped_path path =
    if starts_with path (codes "/api/realm/")
    then path
    else if same_key path (codes "/files") || starts_with path (codes "/files/")
    then realm_me ++ path
    else if same_key path (codes "/root")
    then codes "/api/realm/me/root"
    else if same_key path (codes "/branches") || starts_with path (codes "/branches/")
    then realm_me ++ path
    else path

-- The parts behind the first "branch", if there is one.
unfoldable pub behind_branch : List Text → Option (List Text)
unfolding same_key
behind_branch [] = none
behind_branch (p ∷ parts) =
    let rest = behind_branch parts in if same_key p (codes "branch") then some parts else rest

abbrev pub matches : AccessVerification → Text → ℕ → Bool
matches access verification now =
    if same_key access.value verification
    then (if ltb access.expires_at now then false else true)
    else false

abbrev pub access_of : Option Branch → Option AccessVerification
access_of none = none
access_of (some b) = b.access_verification

abbrev pub is_admitted : Option AccessVerification → Text → ℕ → Bool
is_admitted none verification now = false
is_admitted (some access) verification now = matches access verification now

-- What stands behind the first "branch".
behind_branch-eq-some :
    (parts behind : List Text)
    → behind_branch parts ≡ some behind
    → (before : List Text) × (parts ≡ before ++ (codes "branch" ∷ behind))
      × All (λ (q : Text). q ≢ codes "branch") before
unfolding behind_branch
behind_branch-eq-some [] behind e = cc
behind_branch-eq-some (p ∷ parts) behind e = elim (Bool-cases (same_key p (codes "branch"))) [
  | inl here ↦
      let is : parts ≡ behind = some-injective (rw here at e) in
      (
        [],
        rw ((same_key_iff p (codes "branch")).0 here)
            (ap (λ (r : List Text). codes "branch" ∷ r) is),
        tt,
      )
  | inr apart ↦
      let (before, whole, others) = behind_branch-eq-some parts behind (rw apart at e) in
      (
        p ∷ before,
        ap (λ (r : List Text). p ∷ r) whole,
        (
          λ q. (let x : false ≡ true = rw apart at ((same_key_iff p (codes "branch")).1 q) in cc),
          others,
        ),
      )
]

leading : (s : Text) → non_empty_parts (split_slash (slash ∷ s)) ≡ non_empty_parts (split_slash s)
unfolding split_slash non_empty_parts
leading s = refl

module _ (store : BranchStore) (base64url_encode : Text → Text) where
  abbrev pub enter : store.State → ℕ → Text → Text → Text → Routed
  enter s now branch_id verification rest_path =
      if is_admitted (access_of (store.get_branch s branch_id)) verification now
      then forwarded (normalize_branch_scoped_path rest_path) (base64url_encode branch_id)
      else unauthorized

  abbrev pub route : store.State → ℕ → Option (List Text) → Routed
  route s now none = passed
  route s now (some []) = passed
  route s now (some (branch_id ∷ [])) = passed
  route s now (some (branch_id ∷ verification ∷ [])) = passed
  route s now (some (branch_id ∷ verification ∷ p ∷ rest)) =
      enter s now branch_id verification (slash ∷ join_slash (p ∷ rest))

  unfoldable pub branch_url_auth : store.State → ℕ → Text → Routed
  unfolding behind_branch split_slash non_empty_parts join_slash normalize_branch_scoped_path
  branch_url_auth s now path = route s now (behind_branch (non_empty_parts (split_slash path)))

  -- The branch is stored with this verification, which has not expired.
  pub record IsAdmitted (s : store.State) (now : ℕ) (branch_id verification : Text) : Type 0 where
    pub branch : Branch
    pub stored : store.get_branch s branch_id ≡ some branch
    pub access : AccessVerification
    pub has : branch.access_verification ≡ some access
    pub value_eq : access.value ≡ verification
    pub in_time : ltb access.expires_at now ≡ false

  access_of-IsAdmitted :
      (s : store.State) (now : ℕ) (id verification : Text)
      → is_admitted (access_of (store.get_branch s id)) verification now ≡ true
      → IsAdmitted s now id verification
  access_of-IsAdmitted s now id verification h = elim (Option-cases (store.get_branch s id)) [
    | inl gone ↦ absurd (let x : false ≡ true = rw gone at h in cc)
    | inr (b, there) ↦ elim (Option-cases b.access_verification) [
      | inl bare ↦ absurd (let x : false ≡ true = rw bare at (rw there at h) in cc)
      | inr (a, has) ↦
          let h2 : matches a verification now ≡ true = rw has at (rw there at h) in
          elim (Bool-cases (same_key a.value verification)) [
            | inr other ↦ absurd (let x : false ≡ true = rw other at h2 in cc)
            | inl same ↦ elim (Bool-cases (ltb a.expires_at now)) [
              | inl late ↦ absurd (let x : false ≡ true = rw late at (rw same at h2) in cc)
              | inr in_time ↦ record {
                branch = b;
                stored = there;
                access = a;
                has = has;
                value_eq = (same_key_iff a.value verification).0 same;
                in_time = in_time;
              }
            ]
          ]
    ]
  ]

  route-IsAdmitted :
      (s : store.State) (now : ℕ) (found : Option (List Text)) (to auth : Text)
      → route s now found ≡ forwarded to auth
      → (id : Text) × (verification : Text) × (p : Text) × (rest : List Text) × (found
          ≡ some (id ∷ verification ∷ p ∷ rest))
        × (to ≡ normalize_branch_scoped_path (slash ∷ join_slash (p ∷ rest)))
        × (auth ≡ base64url_encode id)
        × IsAdmitted s now id verification
  route-IsAdmitted s now none to auth h = cc
  route-IsAdmitted s now (some []) to auth h = cc
  route-IsAdmitted s now (some (id ∷ [])) to auth h = cc
  route-IsAdmitted s now (some (id ∷ verification ∷ [])) to auth h = cc
  route-IsAdmitted s now (some (id ∷ verification ∷ p ∷ rest)) to auth h =
      elim (Bool-cases (is_admitted (access_of (store.get_branch s id)) verification now)) [
        | inr not_admitted ↦
            absurd (let x : unauthorized ≡ forwarded to auth = rw not_admitted at h in cc)
        | inl admitted ↦
            let x : forwarded (normalize_branch_scoped_path (slash ∷ join_slash (p ∷ rest)))
                  (base64url_encode id)
                ≡ forwarded to auth =
              rw admitted at h in
            (
              id,
              verification,
              p,
              rest,
              refl,
              cc,
              cc,
              access_of-IsAdmitted s now id verification admitted,
            )
      ]

  -- A request is forwarded with the token of a branch only if its path names that branch and a verification
  -- behind the first segment "branch", with more behind them, to which it is then forwarded, and the branch is
  -- stored with this verification, which has not expired.
  pub branch_url_auth-IsAdmitted :
      (s : store.State) (now : ℕ) (path to auth : Text)
      → branch_url_auth s now path ≡ forwarded to auth
      → (before : List Text) × (id : Text) × (verification : Text) × (p : Text) × (rest : List Text)
        × (non_empty_parts (split_slash path)
            ≡ before ++ (codes "branch" ∷ id ∷ verification ∷ p ∷ rest))
        × All (λ (q : Text). q ≢ codes "branch") before
        × (to ≡ normalize_branch_scoped_path (slash ∷ join_slash (p ∷ rest)))
        × (auth ≡ base64url_encode id)
        × IsAdmitted s now id verification
  unfolding branch_url_auth
  branch_url_auth-IsAdmitted s now path to auth h =
      let parts = non_empty_parts (split_slash path) in
      let (id, verification, p, rest, found, path_eq, token, admitted) =
        route-IsAdmitted s now (behind_branch parts) to auth h in
      let (before, whole, others) = behind_branch-eq-some parts _ found in
      (before, id, verification, p, rest, whole, others, path_eq, token, admitted)

  access_of-admits :
      (s : store.State) (now : ℕ) (id verification : Text)
      → IsAdmitted s now id verification
      → is_admitted (access_of (store.get_branch s id)) verification now ≡ true
  access_of-admits s now id verification h =
      rw h.stored (rw h.has (rw h.value_eq (rw (same_key_self verification) (rw h.in_time refl))))

  pub parts-url :
      (ps : List Text)
      → All IsSegment (codes "branch" ∷ ps)
      → behind_branch (non_empty_parts (split_slash (slash ∷ join_slash (codes "branch" ∷ ps))))
        ≡ some ps
  unfolding behind_branch same_key
  parts-url ps h = ap behind_branch (
      leading (join_slash (codes "branch" ∷ ps))
      ∙ (ap non_empty_parts (split-join (codes "branch") ps h)
          ∙ non_empty_parts-All (codes "branch" ∷ ps) h))

  -- A URL of a branch, with its verification and before that expires, is forwarded to the path behind it, with
  -- the token of the branch.
  pub branch_url_auth-forwards :
      (s : store.State) (now : ℕ) (id verification p : Text) (rest : List Text)
      → All IsSegment (codes "branch" ∷ id ∷ verification ∷ p ∷ rest)
      → IsAdmitted s now id verification
      → branch_url_auth s now (slash ∷ join_slash (codes "branch" ∷ id ∷ verification ∷ p ∷ rest))
        ≡ forwarded
            (normalize_branch_scoped_path (slash ∷ join_slash (p ∷ rest)))
            (base64url_encode id)
  unfolding branch_url_auth
  branch_url_auth-forwards s now id verification p rest h admitted =
      rw (parts-url (id ∷ verification ∷ p ∷ rest) h)
        (rw (access_of-admits s now id verification admitted) refl)
