-- ===== src/Delegates/Oauth/Flow.antt =====
-- The routes together: from the authorization of a delegate to the use of its token.
use casfa.Base.{
  ℕ, ◌-◌, ◌≤◌, ◌≡◌, ◌≢◌, ◌⊎◌, refl, ap, true, false, some, Option-cases, List, [], ◌∷◌, arith,
  Bool-cases, inl, inr, All, Result, ok, err, >>=-eq-ok, suc,
}
use casfa.Core.Text.{Text}
use casfa.Encoding.Cb32.{codes}
use casfa.Storage.{same_key_self}
use casfa.Delegates.{DelegateGrant, DelegateGrantStore}
use casfa.Delegates.Token.{
  TokenPlatform, verify_code_challenge, sha256_hex, create_delegate_access_token,
}
use casfa.Delegates.Token.RoundTrip.{IsTokenPlatform}
use casfa.Delegates.Operations.{Draws, Created, create_delegate, verify_delegate_token}
use casfa.Delegates.Operations.Laws.{IsNew, create-verify, create-stored}
use casfa.Delegates.AuthCodes.{AuthCodes, AuthCodeEntry, auth_code_ttl_ms, is_stale, get, set}
use casfa.Delegates.AuthCodes.Laws.{get-set_code}
use casfa.Delegates.Requests.{
  failed, issued, redirect, thrown, TokenBody, invalid_grant, AuthorizeRequest, JsonBody, ScopeItem,
  name, printed, check_authorize, redirect_url, includes, allowed_scopes, raw_scopes, or_default,
  body_of, required, redirect_uri_required, state_required, code_challenge_required, client_name_of,
  scope_not_allowed,
}
use casfa.Delegates.Oauth.{
  TokenDraws, OauthState, authorize, params_of, entry_of, body_of_entry, exchange, refresh,
}

ok-injective : {E : Type 0} {A : Type 0} (a b : A) → ◌≡◌ {A = Result E A} (ok a) (ok b) → a ≡ b
ok-injective {E = E} {A = A} a b e = ap (λ (r : Result E A). elim r [ ok x ↦ x | err x ↦ a ]) e

allowed_scopes-All :
    (allowed : List Text) (raw : List ScopeItem) (scopes : List Text)
    → allowed_scopes allowed raw ≡ ok scopes
    → All (λ s. includes allowed s ≡ true) scopes
unfolding allowed_scopes
allowed_scopes-All allowed [] scopes e = let is : [] ≡ scopes = cc in rw (← is) tt
allowed_scopes-All allowed (name s ∷ raw) scopes e = elim (Bool-cases (includes allowed s)) [
  | inr banned ↦
      absurd (let q : err (failed 400 (scope_not_allowed s)) ≡ ok scopes = rw banned at e in cc)
  | inl may ↦
      let (rest, found, last) =
        >>=-eq-ok (allowed_scopes allowed raw) (λ scopes. ok (s ∷ scopes)) (rw may at e) in
      let is : s ∷ rest ≡ scopes = cc in rw (← is) (may, allowed_scopes-All allowed raw rest found)
]
allowed_scopes-All allowed (printed s ∷ raw) scopes e = cc

-- A list of permissions that the route gives out.
abbrev pub IsPermitted : List Text → List Text → Type 0
IsPermitted allowed scopes =
    All (λ s. includes allowed s ≡ true) scopes ⊎ (scopes ≡ codes "use_mcp" ∷ [])

or_default-IsPermitted :
    (allowed scopes : List Text)
    → All (λ s. includes allowed s ≡ true) scopes
    → IsPermitted allowed (or_default scopes)
or_default-IsPermitted allowed [] h = inr refl
or_default-IsPermitted allowed (s ∷ scopes) h = inl h

-- An authorize request that passes the checks is of a user who is logged in, and asks for allowed scopes
-- only, or gets "use_mcp".
pub check_authorize-eq-ok :
    (allowed : List Text) (user : Text) (json : JsonBody) (req : AuthorizeRequest)
    → check_authorize allowed user json ≡ ok req
    → (req.user_id ≡ user) × (user ≢ []) × IsPermitted allowed req.scopes
unfolding check_authorize
check_authorize-eq-ok allowed [] json req e = cc
check_authorize-eq-ok allowed (c ∷ user) json req e =
    let (body, _, e1) = >>=-eq-ok (body_of json) _ e in
    let (uri, _, e2) = >>=-eq-ok (required body.redirect_uri redirect_uri_required) _ e1 in
    let (state, _, e3) = >>=-eq-ok (required body.state state_required) _ e2 in
    let (challenge, _, e4) =
      >>=-eq-ok (required body.code_challenge code_challenge_required) _ e3 in
    let (scopes, found, e5) = >>=-eq-ok (allowed_scopes allowed (raw_scopes body.scope)) _ e4 in
    let (client, _, e6) = >>=-eq-ok (client_name_of body.client_name) _ e5 in
    let is = ok-injective _ req e6 in
    rw (← is) (
      refl,
      (λ x. cc),
      or_default-IsPermitted allowed scopes
          (allowed_scopes-All allowed (raw_scopes body.scope) scopes found),
    )

module _ (platform : TokenPlatform) (store : DelegateGrantStore)
    (p : IsTokenPlatform platform) where
  -- What a token response gives its client: a day of access with the access token, as the user and with the
  -- scopes, and a refresh token that is not refused under the client id.
  pub record IsUsable (grants : store.State) (user id : Text) (scopes : List Text)
      (body : TokenBody) : Type 0 where
    pub lifetime : body.expires_in ≡ 86400
    pub client : body.client_id ≡ some id
    pub accepted :
        verify_delegate_token platform store grants body.access_token
        ≡ some (record { user_id = user; delegate_id = id; permissions = scopes })
    pub refreshes :
        (draws : TokenDraws) (rest : AuthCodes × ℕ)
        → (refresh platform store draws body.refresh_token id (grants, rest)).0
          ≢ failed 400 invalid_grant

  exchange_lem :
      (grants : store.State) (codes : AuthCodes) (notified : ℕ) (draws : TokenDraws)
      (code verifier : Text) (entry : AuthCodeEntry)
      → (get draws.now draws.later code codes).0 ≡ some entry
      → verify_code_challenge platform verifier entry.code_challenge entry.code_challenge_method
        ≡ true
      → ((exchange platform store draws code verifier (grants, (codes, notified))).0
          ≡ issued (body_of_entry platform store entry))
        × ((exchange platform store draws code verifier (grants, (codes, notified))).1.0 ≡ grants)
  unfolding exchange
  exchange_lem grants codes notified draws code verifier entry found right =
      rw found (rw right (refl, refl))

  refresh-accepts :
      (grants : store.State) (grant : DelegateGrant) (id token : Text) (draws : TokenDraws)
      (rest : AuthCodes × ℕ)
      → store.get grants id ≡ some grant
      → grant.refresh_token_hash ≡ some (sha256_hex platform token)
      → (refresh platform store draws token id (grants, rest)).0 ≢ failed 400 invalid_grant
  unfolding refresh
  refresh-accepts grants grant id token draws rest there held refused =
      elim (Option-cases (
        create_delegate_access_token platform grant.user_id grant.delegate_id draws.token_now
          draws.sig_bytes)) [
            | inl none_made ↦
                let q : thrown ≡ failed 400 invalid_grant = rw none_made at (
                  rw (same_key_self (sha256_hex platform token)) at
                    (rw held at (rw there at refused))) in
                cc
            | inr (made, e) ↦
                let q = rw e at (
                  rw (same_key_self (sha256_hex platform token)) at
                    (rw held at (rw there at refused))) in
                cc q
          ]

  -- The authorization of a delegate at a valid store, where the checks pass, the access token can be made,
  -- and the id and the digests are new, answers with the redirect; whoever has the verifier of the challenge
  -- is then given tokens for the code within five minutes. The access token that is handed out is accepted
  -- afterwards, for the user and with the scopes that were asked for, its lifetime is given as a day, the
  -- client id is the id of the delegate, and the refresh token that is handed out is not refused under it.
  pub authorize-exchange-verify :
      (s : OauthState platform store) (allowed : List Text) (draws : Draws) (code : Text)
      (now set_now : ℕ) (user : Text) (json : JsonBody) (req : AuthorizeRequest) (created : Created)
      (token_draws : TokenDraws) (verifier : Text)
      → store.IsValid s.0
      → check_authorize allowed user json ≡ ok req
      → (create_delegate platform store s.0 (params_of platform store req) draws).0 ≡ some created
      → IsNew platform p store s.0 created.grant
      → verify_code_challenge platform verifier req.code_challenge req.code_challenge_method ≡ true
      → token_draws.now - now ≤ auth_code_ttl_ms
      → token_draws.later - now ≤ auth_code_ttl_ms
      → ((authorize platform store allowed draws code now set_now user json s).0
          ≡ redirect (redirect_url req.redirect_uri code req.state))
        × ((body : TokenBody) × ((exchange platform store token_draws code verifier
                (authorize platform store allowed draws code now set_now user json s).1).0
              ≡ issued body)
            × IsUsable
                (exchange platform store token_draws code verifier
                  (authorize platform store allowed draws code now set_now user json s).1).1.0
                req.user_id
                created.grant.delegate_id
                req.scopes
                body)
  unfolding authorize
  authorize-exchange-verify (grants, (codes, notified)) allowed draws code now set_now user json req
        created token_draws verifier valid checked made new right young young_later =
      let entry = entry_of platform store req created now in
      let fresh : is_stale token_draws.now entry ≡ false = ground (arith, young) in
      let fresh_later : is_stale token_draws.later entry ≡ false = ground (arith, young_later) in
      let after = (create_delegate platform store grants (params_of platform store req) draws).1 in
      let exchanged =
        exchange_lem after (set set_now code entry codes) (suc notified) token_draws code verifier
          entry
          (get-set_code set_now token_draws.now token_draws.later code entry codes fresh
            fresh_later)
          right in
      let (there, held) =
        create-stored platform p store grants (params_of platform store req) draws created made in
      rw checked (
        rw made (
          refl,
          (
            body_of_entry platform store entry,
            exchanged.0,
            rw (exchanged.1) (record {
              lifetime = refl;
              client = refl;
              accepted =
                  (create-verify platform p store grants (params_of platform store req) draws
                    created valid made new).1;
              refreshes = λ d rest.
                  refresh-accepts after created.grant created.grant.delegate_id
                    created.refresh_token d rest there held;
            }),
          ),
        ))
