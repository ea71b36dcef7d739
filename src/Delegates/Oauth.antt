-- ===== src/Delegates/Oauth.antt =====
-- packages/cell-delegates-server/src/delegate-oauth-routes.ts: the routes that give a delegate its tokens,
-- with the authorization codes in memory. A request is what the handlers read of it; what they draw from
-- the platform (times, random bytes, the UUID of the code) is an argument.
pub mod Codes
pub mod Refresh
pub mod Rotated
pub mod Flow
use casfa.Base.{
  ℕ, zero, suc, ◌+◌, ◌-◌, not, ◌*◌, ◌/◌, ◌%◌, List, [], ◌∷◌, ◌++◌, Option, none, some, Bool, true,
  false, ◌==◌, ◌||◌, ◌&&◌, leb, ltb, if◌then◌else◌, Result, ok, err, ◌>>=◌, Bytes,
}
use casfa.Core.Text.{Text}
use casfa.Storage.{same_key}
use casfa.Encoding.Cb32.{codes}
use casfa.Drive.Paths.{is_empty, trim, front_space, non_empty_parts}
use casfa.Delegates.{DelegateGrant, DelegateGrantStore}
use casfa.Delegates.Token.{
  TokenPlatform, generate_random_token, create_delegate_access_token, sha256_hex,
  verify_code_challenge, onto_first,
}
use casfa.Delegates.Operations.{Params, Draws, Created, create_delegate}
use casfa.Delegates.AuthCodes.{AuthCodes, AuthCodeEntry, set, get, delete}
use casfa.Delegates.Requests.{
  AuthorizeRequest, FormField, JsonBody, Response, TokenBody, TokenForm, check_authorize,
  client_id_required, code_required, code_verifier_required, failed, form_required, invalid_grant,
  issued, redirect, redirect_url, refresh_token_required, required_value, thrown,
  unsupported_grant_type, value, file, missing,
}

abbrev pub default_access_ttl_sec : ℕ
default_access_ttl_sec = 24 * 3600

-- What a request of tokens draws: two times of the reading of the code, and for new tokens a time and the
-- random bytes of the signature and of the refresh token.
pub record TokenDraws : Type 0 where
  pub now : ℕ
  pub later : ℕ
  pub token_now : ℕ
  pub sig_bytes : Bytes
  pub refresh_bytes : Bytes

module _ (platform : TokenPlatform) (store : DelegateGrantStore) where
  -- The grants, the codes, and how often `onAuthorizeSuccess` was called.
  abbrev pub OauthState : Type 0
  OauthState = store.State × (AuthCodes × ℕ)

  abbrev pub entry_of : AuthorizeRequest → Created → ℕ → AuthCodeEntry
  entry_of req created now = record {
    access_token = created.access_token;
    refresh_token = created.refresh_token;
    expires_in = default_access_ttl_sec;
    code_challenge = req.code_challenge;
    code_challenge_method = req.code_challenge_method;
    redirect_uri = req.redirect_uri;
    created_at = now;
    delegate_id = some created.grant.delegate_id;
  }

  -- `set` draws a time of its own, `set_now`, behind the time of the entry.
  abbrev pub with_code :
      AuthorizeRequest → Text → ℕ → ℕ → Option Created → OauthState → Response × OauthState
  with_code req code now set_now none s = (thrown, s)
  with_code req code now set_now (some created) (grants, (codes, notified)) = (
    redirect (redirect_url req.redirect_uri code req.state),
    (grants, (set set_now code (entry_of req created now) codes, suc notified)),
  )

  abbrev pub params_of : AuthorizeRequest → Params
  params_of req = record {
    user_id = req.user_id;
    client_name = req.client_name;
    permissions = req.scopes;
  }

  abbrev pub grant_code :
      Draws → Text → ℕ → ℕ → Result Response AuthorizeRequest → OauthState → Response × OauthState
  grant_code draws code now set_now (err r) s = (r, s)
  grant_code draws code now set_now (ok req) (grants, rest) =
      let (created, grants') = create_delegate platform store grants (params_of req) draws in
      with_code req code now set_now created (grants', rest)

  -- POST /api/oauth/delegate/authorize
  unfoldable pub authorize :
      List Text → Draws → Text → ℕ → ℕ → Text → JsonBody → OauthState → Response × OauthState
  unfolding check_authorize create_delegate set redirect_url
  authorize allowed draws code now set_now user json s =
      grant_code draws code now set_now (check_authorize allowed user json) s

  abbrev pub body_of_entry : AuthCodeEntry → TokenBody
  body_of_entry entry = record {
    access_token = entry.access_token;
    refresh_token = entry.refresh_token;
    expires_in = entry.expires_in;
    client_id = entry.delegate_id;
  }

  abbrev pub exchange_entry :
      Text → Text → Option AuthCodeEntry → OauthState → Response × OauthState
  exchange_entry code verifier none s = (failed 400 invalid_grant, s)
  exchange_entry code verifier (some entry) (grants, (codes, notified)) =
      if verify_code_challenge platform verifier entry.code_challenge entry.code_challenge_method
      then (issued (body_of_entry entry), (grants, (delete code codes, notified)))
      else (failed 400 invalid_grant, (grants, (codes, notified)))

  -- grant_type "authorization_code" with a code and a verifier
  unfoldable pub exchange : TokenDraws → Text → Text → OauthState → Response × OauthState
  unfolding get verify_code_challenge delete
  exchange draws code verifier (grants, (codes, notified)) =
      let (entry, codes') = get draws.now draws.later code codes in
      exchange_entry code verifier entry (grants, (codes', notified))

  -- grant.refreshTokenHash !== hash
  abbrev pub holds_hash : Option Text → Text → Bool
  holds_hash none hash = false
  holds_hash (some h) hash = same_key h hash

  abbrev pub with_new_tokens :
      TokenDraws → DelegateGrant → Option Text → OauthState → Response × OauthState
  with_new_tokens draws grant none s = (thrown, s)
  with_new_tokens draws grant (some access_token) (grants, rest) =
      let refresh_token = generate_random_token platform draws.refresh_bytes in
      (
        issued (record {
          access_token = access_token;
          refresh_token = refresh_token;
          expires_in = default_access_ttl_sec;
          client_id = none;
        }),
        (
          store.update_tokens grants grant.delegate_id (sha256_hex platform access_token)
              (some (sha256_hex platform refresh_token)),
          rest,
        ),
      )

  abbrev pub refresh_grant :
      TokenDraws → Text → Option DelegateGrant → OauthState → Response × OauthState
  refresh_grant draws refresh_token none s = (failed 400 invalid_grant, s)
  refresh_grant draws refresh_token (some grant) s =
      if holds_hash grant.refresh_token_hash (sha256_hex platform refresh_token)
      then with_new_tokens draws grant
          (create_delegate_access_token platform grant.user_id grant.delegate_id draws.token_now
            draws.sig_bytes)
          s
      else (failed 400 invalid_grant, s)

  -- grant_type "refresh_token" with a token and a client id
  unfoldable pub refresh : TokenDraws → Text → Text → OauthState → Response × OauthState
  unfolding generate_random_token create_delegate_access_token sha256_hex same_key
  refresh draws refresh_token client_id s =
      refresh_grant draws refresh_token (store.get s.0 client_id) s

  abbrev pub answer :
      Result Response (OauthState → Response × OauthState) → OauthState → Response × OauthState
  answer (err r) s = (r, s)
  answer (ok run) s = run s

  abbrev pub is_value : FormField → Text → Bool
  is_value missing t = false
  is_value file t = false
  is_value (value s) t = same_key s t

  -- POST of the token path
  unfoldable pub token_request : TokenDraws → TokenForm → OauthState → Response × OauthState
  unfolding same_key exchange refresh
  token_request draws form s =
      let by_code : Result Response (OauthState → Response × OauthState) = (do
        code ← required_value form.code code_required
        verifier ← required_value form.code_verifier code_verifier_required
        ok (exchange draws code verifier)) in
      let by_refresh : Result Response (OauthState → Response × OauthState) = (do
        refresh_token ← required_value form.refresh_token refresh_token_required
        client_id ← required_value form.client_id client_id_required
        ok (refresh draws refresh_token client_id)) in
      if not form.is_form
      then (failed 400 form_required, s)
      else if is_value form.grant_type (codes "authorization_code")
      then answer by_code s
      else if is_value form.grant_type (codes "refresh_token")
      then answer by_refresh s
      else (failed 400 unsupported_grant_type, s)
