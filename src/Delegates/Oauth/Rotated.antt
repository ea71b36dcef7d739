-- ===== src/Delegates/Oauth/Rotated.antt =====
-- What the exchange of a refresh token does to the tokens of the client.
use casfa.Base.{
  ℕ, ◌/◌, ◌≡◌, ◌≢◌, refl, sym, ap, ◌∙◌, false, none, some, [], ◌∷◌, arith, Bool-cases, inl, inr,
}
use mathlib.Core.Path.{subst}
use casfa.Core.Text.{Text}
use casfa.Storage.{same_key, same_key_iff, same_key_self}
use casfa.Delegates.{
  DelegateGrant, DelegateAuth, DelegateGrantStore, IsGrant, IsDigest, truthy, with_tokens,
}
use casfa.Delegates.MemoryStore.Index.{some-injective}
use casfa.Delegates.Token.{TokenPlatform, create_delegate_access_token, sha256_hex}
use casfa.Delegates.Token.RoundTrip.{IsTokenPlatform, sha256_hex-IsDigest, decode-create}
use casfa.Delegates.Operations.{verify_delegate_token}
use casfa.Delegates.Operations.Laws.{verify-IsGranted, truthy-digest, stored-verify}
use casfa.Delegates.Requests.{failed, issued, invalid_grant, TokenBody}
use casfa.Delegates.Oauth.{TokenDraws, OauthState, refresh}
use casfa.Delegates.AuthCodes.{AuthCodes}
use casfa.Delegates.Oauth.Refresh.{retokened, refresh-IsRefreshed}

module _ (platform : TokenPlatform) (store : DelegateGrantStore) where
  -- What a refresh does to the tokens of the client: the new access token is accepted for the grant, a token
  -- that was accepted for the client is not any more, and the refresh token is good for no second refresh.
  pub record IsRotated (s t : OauthState platform store) (token client_id access_token : Text)
      : Type 0 where
    pub valid : store.IsValid t.0
    pub grant : DelegateGrant
    pub stored : store.get s.0 client_id ≡ some grant
    pub accepted :
        verify_delegate_token platform store t.0 access_token
        ≡ some (record {
          user_id = grant.user_id;
          delegate_id = client_id;
          permissions = grant.permissions;
        })
    pub access_gone :
        (old : Text) (before after : DelegateAuth)
        → ¬ (
            (verify_delegate_token platform store s.0 old ≡ some before)
            × (before.delegate_id ≡ client_id)
            × (verify_delegate_token platform store t.0 old ≡ some after)
            × (after.delegate_id ≡ client_id))
    pub refresh_gone :
        (again : TokenDraws)
        → (refresh platform store again token client_id t).0 ≡ failed 400 invalid_grant

  -- The digests of the new tokens are new to the store, for the user of the client.
  pub record IsUnused (s : store.State) (client_id : Text) (body : TokenBody) : Type 0 where
    pub access :
        (g : DelegateGrant)
        → store.get s client_id ≡ some g
        → store.get_by_access_token_hash s g.user_id (sha256_hex platform body.access_token) ≡ none
    pub refresh :
        (g : DelegateGrant)
        → store.get s client_id ≡ some g
        → store.get_by_refresh_token_hash s g.user_id (sha256_hex platform body.refresh_token)
          ≡ none

  module _ (p : IsTokenPlatform platform) where
    with_tokens-IsGrant :
        (g : DelegateGrant) (access refresh_token : Text)
        → IsGrant
            (with_tokens (sha256_hex platform access) (some (sha256_hex platform refresh_token)) g)
    with_tokens-IsGrant g access refresh_token = record {
      access = sha256_hex-IsDigest platform p access;
      refresh = λ hash e.
          truthy-digest platform p store (sha256_hex platform refresh_token) hash
            (sha256_hex-IsDigest platform p refresh_token) e;
    }

    digest-truthy : (h : Text) → IsDigest h → truthy (some h) ≡ some h
    digest-truthy [] d = absurd (omega (arith, d))
    digest-truthy (c ∷ h) d = refl

    refuse-refresh :
        (s : OauthState platform store) (g : DelegateGrant) (draws : TokenDraws)
        (token client_id held : Text)
        → store.get s.0 client_id ≡ some g
        → g.refresh_token_hash ≡ some held
        → same_key held (sha256_hex platform token) ≡ false
        → (refresh platform store draws token client_id s).0 ≡ failed 400 invalid_grant
    unfolding refresh
    refuse-refresh (grants, rest) g draws token client_id held found h apart =
        rw found (rw h (rw apart refl))

    module _ (s : store.State) (g : DelegateGrant) (access_token refresh_token : Text)
        (valid : store.IsValid s) (stored : store.get s g.delegate_id ≡ some g)
        (new_access : store.get_by_access_token_hash s g.user_id (sha256_hex platform access_token)
          ≡ none)
        (new_refresh : store.get_by_refresh_token_hash s g.user_id
            (sha256_hex platform refresh_token)
          ≡ none) where
      abbrev updated : DelegateGrant
      updated =
          with_tokens (sha256_hex platform access_token) (some (sha256_hex platform refresh_token))
            g

      abbrev t : store.State
      t = retokened platform store s g access_token refresh_token

      retokened-valid : store.IsValid t
      retokened-valid =
          store.update_tokens-IsValid s g.delegate_id (sha256_hex platform access_token)
            (some (sha256_hex platform refresh_token)) valid
            (λ h found.
              let same : g ≡ h = some-injective (sym stored ∙ found) in
              (
                with_tokens-IsGrant h access_token refresh_token,
                rw same at new_access,
                λ hash e.
                    let is : sha256_hex platform refresh_token ≡ hash = some-injective (
                      sym (
                        digest-truthy (sha256_hex platform refresh_token)
                          (sha256_hex-IsDigest platform p refresh_token))
                      ∙ e) in
                    rw (← is, ← same) new_refresh,
              ))

      retokened-stored : store.get t g.delegate_id ≡ some updated
      retokened-stored =
          store.get-update_tokens s g.delegate_id (sha256_hex platform access_token)
            (some (sha256_hex platform refresh_token)) g.delegate_id
          ∙ rw stored (rw (same_key_self g.delegate_id) refl)

      -- The grant that a token is accepted for has its digest.
      granted-hash :
          (u : store.State) (h : DelegateGrant) (token : Text) (auth : DelegateAuth)
          → store.IsValid u
          → store.get u g.delegate_id ≡ some h
          → verify_delegate_token platform store u token ≡ some auth
          → auth.delegate_id ≡ g.delegate_id
          → h.access_token_hash ≡ sha256_hex platform token
      granted-hash u h token auth valid_u found e at_id =
          let granted = verify-IsGranted platform p store u token auth valid_u e in
          let same : granted.grant ≡ h =
            some-injective
              (sym granted.stored ∙ (ap (λ (k : Text). store.get u k) at_id ∙ found)) in
          ap (λ (x : DelegateGrant). x.access_token_hash) (sym same) ∙ granted.hash_eq

      retokened-refuses :
          (old : Text) (before after : DelegateAuth)
          → verify_delegate_token platform store s old ≡ some before
          → before.delegate_id ≡ g.delegate_id
          → verify_delegate_token platform store t old ≡ some after
          → after.delegate_id ≢ g.delegate_id
      retokened-refuses old before after was was_id is is_id =
          let held = granted-hash s g old before valid stored was was_id in
          let holds_now =
            granted-hash t updated old after retokened-valid retokened-stored is is_id in
          let found : store.get_by_access_token_hash s g.user_id (sha256_hex platform old)
              ≡ some g =
            (store.access_iff s g.user_id (sha256_hex platform old) g valid
                (sha256_hex-IsDigest platform p old)).1
              (stored, refl, held) in
          let q : none ≡ some g = sym (rw holds_now at new_access) ∙ found in cc

      digests-apart :
          (token : Text)
          → g.refresh_token_hash ≡ some (sha256_hex platform token)
          → same_key (sha256_hex platform refresh_token) (sha256_hex platform token) ≡ false
      digests-apart token held =
          elim (Bool-cases
            (same_key (sha256_hex platform refresh_token) (sha256_hex platform token))) [
              | inr apart ↦ apart
              | inl same ↦
                  let eq =
                    (same_key_iff (sha256_hex platform refresh_token) (sha256_hex platform token)).0
                      same in
                  let found : store.get_by_refresh_token_hash s g.user_id
                        (sha256_hex platform token)
                      ≡ some g =
                    (store.refresh_iff s g.user_id (sha256_hex platform token) g valid
                        (sha256_hex-IsDigest platform p token)).1
                      (
                        stored,
                        refl,
                        rw held (
                            digest-truthy (sha256_hex platform token)
                              (sha256_hex-IsDigest platform p token)),
                      ) in
                  absurd (let q : none ≡ some g = sym (rw eq at new_refresh) ∙ found in cc)
            ]

      retokened-IsRotated :
          (rest : AuthCodes × ℕ) (draws : TokenDraws) (token : Text)
          → g.refresh_token_hash ≡ some (sha256_hex platform token)
          → create_delegate_access_token platform g.user_id g.delegate_id draws.token_now
              draws.sig_bytes
            ≡ some access_token
          → IsRotated (s, rest) (t, rest) token g.delegate_id access_token
      retokened-IsRotated rest draws token held made = record {
        valid = retokened-valid;
        grant = g;
        stored = stored;
        accepted =
            stored-verify platform p store t updated access_token
              (record { sub = g.user_id; dlg = g.delegate_id; iat = draws.token_now / 1000 })
              retokened-valid
              (decode-create platform p g.user_id g.delegate_id draws.token_now draws.sig_bytes
                access_token made)
              refl retokened-stored refl;
        access_gone = λ old before after (was, was_id, is, is_id).
            retokened-refuses old before after was was_id is is_id;
        refresh_gone = λ again.
            refuse-refresh (t, rest) updated again token g.delegate_id
              (sha256_hex platform refresh_token) retokened-stored refl (digests-apart token held);
      }

    -- A refresh that issues tokens whose digests are new to a valid store rotates the tokens of the client.
    pub refresh-IsRotated :
        (s : OauthState platform store) (draws : TokenDraws) (token client_id : Text)
        (body : TokenBody)
        → store.IsValid s.0
        → (refresh platform store draws token client_id s).0 ≡ issued body
        → IsUnused s.0 client_id body
        → IsRotated s
            (refresh platform store draws token client_id s).1
            token
            client_id
            body.access_token
    refresh-IsRotated s draws token client_id body valid e unused =
        let x = refresh-IsRefreshed platform store s draws token client_id body e in
        let at_id : x.grant.delegate_id ≡ client_id =
          store.id-get s.0 client_id x.grant valid x.stored in
        let stored : store.get s.0 x.grant.delegate_id ≡ some x.grant =
          ap (λ (k : Text). store.get s.0 k) at_id ∙ x.stored in
        let rotated =
          retokened-IsRotated s.0 x.grant body.access_token body.refresh_token valid stored
            (unused.access x.grant x.stored) (unused.refresh x.grant x.stored) s.1 draws token
            x.held x.made in
        rw (x.after) (
          subst
            (λ (k : Text).
              IsRotated s
                (retokened platform store s.0 x.grant body.access_token body.refresh_token, s.1)
                token k body.access_token)
            at_id rotated)
