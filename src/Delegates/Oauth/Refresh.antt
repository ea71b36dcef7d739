-- ===== src/Delegates/Oauth/Refresh.antt =====
-- What stands behind the exchange of a refresh token for new tokens.
use casfa.Base.{◌≡◌, refl, sym, ap, true, Option, none, some, Option-cases, Bool-cases, inl, inr}
use casfa.Core.Text.{Text}
use casfa.Storage.{same_key_iff}
use casfa.Delegates.{DelegateGrant, DelegateGrantStore}
use casfa.Delegates.Token.{
  TokenPlatform, generate_random_token, create_delegate_access_token, sha256_hex,
}
use casfa.Delegates.Requests.{failed, issued, thrown, invalid_grant, TokenBody}
use casfa.Delegates.Oauth.{TokenDraws, OauthState, refresh, holds_hash, default_access_ttl_sec}
use casfa.Delegates.Oauth.Codes.{issued-injective}

module _ (platform : TokenPlatform) (store : DelegateGrantStore) where
  abbrev pub retokened : store.State → DelegateGrant → Text → Text → store.State
  retokened s g access_token refresh_token =
      store.update_tokens s g.delegate_id (sha256_hex platform access_token)
        (some (sha256_hex platform refresh_token))

  abbrev pub refreshed_body : Text → Text → TokenBody
  refreshed_body access_token refresh_token = record {
    access_token = access_token;
    refresh_token = refresh_token;
    expires_in = default_access_ttl_sec;
    client_id = none;
  }

  -- What stands behind tokens that were issued for a refresh token: the grant of the client id, which has
  -- the digest of the refresh token.
  pub record IsRefreshed (s t : OauthState platform store) (draws : TokenDraws)
      (token client_id : Text) (body : TokenBody) : Type 0 where
    pub grant : DelegateGrant
    pub stored : store.get s.0 client_id ≡ some grant
    pub held : grant.refresh_token_hash ≡ some (sha256_hex platform token)
    pub made :
        create_delegate_access_token platform grant.user_id grant.delegate_id draws.token_now
          draws.sig_bytes
        ≡ some body.access_token
    pub drawn : body.refresh_token ≡ generate_random_token platform draws.refresh_bytes
    pub after : t ≡ (retokened s.0 grant body.access_token body.refresh_token, s.1)

  holds-eq :
      (held : Option Text) (hash : Text)
      → holds_hash platform store held hash ≡ true
      → held ≡ some hash
  holds-eq none hash e = cc
  holds-eq (some h) hash e = ap some ((same_key_iff h hash).0 e)

  pub refresh-IsRefreshed :
      (s : OauthState platform store) (draws : TokenDraws) (token client_id : Text)
      (body : TokenBody)
      → (refresh platform store draws token client_id s).0 ≡ issued body
      → IsRefreshed s (refresh platform store draws token client_id s).1 draws token client_id body
  unfolding refresh
  refresh-IsRefreshed (grants, rest) draws token client_id body e =
      elim (Option-cases (store.get grants client_id)) [
        | inl gone ↦ absurd (let q : failed 400 invalid_grant ≡ issued body = rw gone at e in cc)
        | inr (g, found) ↦
            elim (Bool-cases
              (holds_hash platform store g.refresh_token_hash (sha256_hex platform token))) [
                | inr wrong ↦ absurd (
                    let q : failed 400 invalid_grant ≡ issued body = rw wrong at (rw found at e) in
                    cc)
                | inl right ↦
                    elim (Option-cases (
                      create_delegate_access_token platform g.user_id g.delegate_id draws.token_now
                        draws.sig_bytes)) [
                          | inl failing ↦ absurd (
                              let q : thrown ≡ issued body =
                                rw failing at (rw right at (rw found at e)) in
                              cc)
                          | inr (access, made) ↦
                              let new = generate_random_token platform draws.refresh_bytes in
                              let same : issued (refreshed_body access new) ≡ issued body =
                                rw made at (rw right at (rw found at e)) in
                              let is : body ≡ refreshed_body access new =
                                sym (issued-injective _ _ same) in
                              rw found (
                                rw right (
                                  rw made (
                                    rw is (record {
                                      grant = g;
                                      stored = found;
                                      held =
                                          holds-eq g.refresh_token_hash (sha256_hex platform token)
                                            right;
                                      made = made;
                                      drawn = refl;
                                      after = refl;
                                    }))))
                        ]
              ]
      ]
