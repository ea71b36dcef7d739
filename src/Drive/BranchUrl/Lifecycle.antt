-- ===== src/Drive/BranchUrl/Lifecycle.antt =====
-- The URL of a branch from its creation to its removal: the requests of controllers/branches.ts and what
-- middleware/branch-url-auth.ts makes of the URL behind them.
mod Examples
use casfa.Base.{
  ℕ, ◌+◌, Bool, ◌&&◌, not, true, false, Option, none, some, List, [], ◌∷◌, All, if◌then◌else◌, ltb,
  Bytes, ok, ◌≡◌, refl, sym, ap, ◌∙◌, Bool-cases, Option-cases, inl, inr,
}
use casfa.Core.Text.{Text, TextDecoder}
use casfa.Encoding.Cb32.{codes}
use casfa.Storage.{same_key, same_key_self, same_key_iff}
use casfa.Cas.Facade.{CasFacade}
use casfa.Drive.Paths.{slash, join_slash}
use casfa.Drive.Paths.Laws.{IsSegment}
use casfa.Drive.Branches.{Branch, BranchStore, AccessVerification}
use casfa.Drive.BranchApi.Requests.{
  AuthContext, worker, realm_of, has_branch_manage, Reply, refused, closed, CreateBody,
  parent_of_body, ttl_of, mount_path_of, BranchDraws, ApiConfig,
}
use casfa.Drive.BranchApi.{ApiWorld, create_handler, revoke, close, self_id, remove_found}
use casfa.Drive.BranchApi.Create.{InBranch, create-InBranch}
use casfa.Drive.BranchApi.Removal.{IsManaged}
use casfa.Drive.BranchUrl.{
  Routed, unauthorized, forwarded, normalize_branch_scoped_path, branch_url_auth, parts-url,
  access_of, is_admitted, matches,
}

-- The URL that a path has under a branch and its verification.
abbrev pub branch_url : Text → Text → Text → List Text → Text
branch_url id verification p rest =
    slash ∷ join_slash (codes "branch" ∷ id ∷ verification ∷ p ∷ rest)

abbrev pub IsUrl : Text → Text → Text → List Text → Type 0
IsUrl id verification p rest = All IsSegment (codes "branch" ∷ id ∷ verification ∷ p ∷ rest)

module _ (store : BranchStore) (base64url_encode : Text → Text) where
  stored-routes :
      (s : store.State) (now : ℕ) (id verification p : Text) (rest : List Text) (b : Branch)
      (a : AccessVerification)
      → IsUrl id verification p rest
      → store.get_branch s id ≡ some b
      → b.access_verification ≡ some a
      → a.value ≡ verification
      → branch_url_auth store base64url_encode s now (branch_url id verification p rest) ≡ (
          if ltb a.expires_at now
          then unauthorized
          else forwarded
              (normalize_branch_scoped_path (slash ∷ join_slash (p ∷ rest)))
              (base64url_encode id))
  unfolding branch_url_auth
  stored-routes s now id verification p rest b a url there has value =
      rw (parts-url store base64url_encode (id ∷ verification ∷ p ∷ rest) url) (
        rw there (
          rw has (
            rw value (
              rw (same_key_self verification) elim (Bool-cases (ltb a.expires_at now)) [
                | inl late ↦ rw late refl
                | inr in_time ↦ rw in_time refl
              ]))))

  gone-routes :
      (s : store.State) (now : ℕ) (id verification p : Text) (rest : List Text)
      → IsUrl id verification p rest
      → store.get_branch s id ≡ none
      → branch_url_auth store base64url_encode s now (branch_url id verification p rest)
        ≡ unauthorized
  unfolding branch_url_auth
  gone-routes s now id verification p rest url gone =
      rw (parts-url store base64url_encode (id ∷ verification ∷ p ∷ rest) url) (rw gone refl)

module _ (store : BranchStore) (compute_key : Bytes → Bytes) (cas : CasFacade compute_key)
    (text : TextDecoder) (le_locale : Text → Text → Bool) (config : ApiConfig) where
  abbrev routed : store.State → ℕ → Text → Routed
  routed = branch_url_auth store config.base64url

  -- After a branch of a branch has been granted, its URL is forwarded until the time to live is over, and
  -- refused from then on.
  pub create-routes :
      (auth : AuthContext) (draws : BranchDraws) (body : CreateBody) (parent_id : Text)
      (t : ApiWorld store compute_key cas text le_locale) (made : Reply) (now : ℕ) (p : Text)
      (rest : List Text)
      → parent_of_body body.parent_branch_id ≡ some parent_id
      → (create_handler store compute_key cas text le_locale config
          (some auth)
          draws
          (some body)
          t).0
        ≡ ok made
      → IsUrl draws.branch_uuid draws.verification p rest
      → routed
          (create_handler store compute_key cas text le_locale config
            (some auth)
            draws
            (some body)
            t).1.0
          now
          (branch_url draws.branch_uuid draws.verification p rest)
        ≡ (if ltb (draws.now + ttl_of config.max_ttl_ms body.ttl) now
            then unauthorized
            else forwarded
                (normalize_branch_scoped_path (slash ∷ join_slash (p ∷ rest)))
                (config.base64url draws.branch_uuid))
  create-routes auth draws body parent_id t made now p rest named granted url =
      let is =
        create-InBranch store compute_key cas text le_locale config auth draws body parent_id t made
          named granted in
      stored-routes store config.base64url _ now draws.branch_uuid draws.verification p rest _ _ url
        is.inserted.stored refl refl

  -- After a caller has revoked a branch of its realm that it may manage, the URL of the branch is refused.
  pub revoke-routes :
      (auth : AuthContext) (id verification p : Text) (rest : List Text) (s : store.State) (now : ℕ)
      → IsManaged store compute_key cas text le_locale s auth id
      → IsUrl id verification p rest
      → routed
          (revoke store compute_key cas text le_locale (some auth) id s).1
          now
          (branch_url id verification p rest)
        ≡ unauthorized
  unfolding revoke
  revoke-routes auth [] verification p rest s now m url = cc (url.1.0.nonempty)
  revoke-routes auth (c ∷ id) verification p rest s now m url =
      gone-routes store config.base64url _ now (c ∷ id) verification p rest url (
        rw m.may (
          rw m.stored (
            rw m.realm_eq (
              rw (same_key_self (realm_of auth))
                (store.branch-remove s (c ∷ id) (c ∷ id) ∙ rw (same_key_self (c ∷ id)) refl)))))

  found-gone :
      (id : Text) (s : store.State)
      → store.get_branch
          (remove_found store compute_key cas text le_locale id (store.get_branch s id) s)
          id
        ≡ none
  found-gone id s = elim (Option-cases (store.get_branch s id)) [
    | inl gone ↦ rw gone gone
    | inr (b, there) ↦ rw there (store.branch-remove s id id ∙ rw (same_key_self id) refl)
  ]

  close-gone :
      (realm own : Text) (readwrite : Bool) (id : Text) (s : store.State)
      → (close store compute_key cas text le_locale (some (worker realm own readwrite)) id s).0
        ≡ closed own
      → store.get_branch
          (close store compute_key cas text le_locale (some (worker realm own readwrite)) id s).1
          own
        ≡ none
  unfolding close
  close-gone realm own readwrite [] s h = cc
  close-gone realm own readwrite (c ∷ id) s h =
      elim (Bool-cases (not (same_key own (c ∷ id)) && not (same_key (c ∷ id) (codes "me")))) [
        | inl other ↦ absurd (let x : refused 403 ≡ closed own = rw other at h in cc)
        | inr may ↦
            let x : closed (self_id store compute_key cas text le_locale own (c ∷ id))
                ≡ closed own =
              rw may at h in
            let is : self_id store compute_key cas text le_locale own (c ∷ id) ≡ own = cc in
            rw may (rw is (found-gone own s))
      ]

  -- After a worker has been answered that its branch is closed, the URL of the branch is refused.
  pub close-routes :
      (realm own : Text) (readwrite : Bool) (id verification p : Text) (rest : List Text)
      (s : store.State) (now : ℕ)
      → (close store compute_key cas text le_locale (some (worker realm own readwrite)) id s).0
        ≡ closed own
      → IsUrl own verification p rest
      → routed
          (close store compute_key cas text le_locale (some (worker realm own readwrite)) id s).1
          now
          (branch_url own verification p rest)
        ≡ unauthorized
  close-routes realm own readwrite id verification p rest s now done url =
      gone-routes store config.base64url _ now own verification p rest url
        (close-gone realm own readwrite id s done)
