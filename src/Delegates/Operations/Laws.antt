-- ===== src/Delegates/Operations/Laws.antt =====
-- What a delegate token gives access to.
use casfa.Base.{◌/◌, ◌≡◌, refl, sym, ◌∙◌, none, some, [], ◌∷◌, arith, Option-cases, inl, inr}
use casfa.Core.Text.{Text}
use casfa.Storage.{same_key_self}
use casfa.Delegates.{DelegateGrant, DelegateAuth, DelegateGrantStore, IsGrant, IsDigest, truthy}
use casfa.Delegates.MemoryStore.Index.{some-injective}
use casfa.Delegates.Token.{
  TokenPlatform, TokenPayload, generate_delegate_id, generate_random_token,
  create_delegate_access_token, sha256_hex, decode_delegate_token_payload,
}
use casfa.Delegates.Token.RoundTrip.{IsTokenPlatform, sha256_hex-IsDigest, decode-create}
use casfa.Delegates.Operations.{
  Params, Draws, Created, new_grant, create_delegate, auth_of, verify_delegate_token,
}

module _ (platform : TokenPlatform) (p : IsTokenPlatform platform)
    (store : DelegateGrantStore) where
  -- The grant behind an authorization.
  pub record IsGranted (s : store.State) (token : Text) (auth : DelegateAuth) : Type 0 where
    pub grant : DelegateGrant
    pub stored : store.get s auth.delegate_id ≡ some grant
    pub id_eq : grant.delegate_id ≡ auth.delegate_id
    pub user_eq : grant.user_id ≡ auth.user_id
    pub permissions_eq : grant.permissions ≡ auth.permissions
    pub hash_eq : grant.access_token_hash ≡ sha256_hex platform token

  -- A token that is accepted at a valid store has its digest in a stored grant, whose user, id and
  -- permissions are those of the authorization.
  pub verify-IsGranted :
      (s : store.State) (token : Text) (auth : DelegateAuth)
      → store.IsValid s
      → verify_delegate_token platform store s token ≡ some auth
      → IsGranted s token auth
  unfolding verify_delegate_token
  verify-IsGranted s token auth valid e =
      elim (Option-cases (decode_delegate_token_payload platform token)) [
        | inl unread ↦ absurd (let q : none ≡ some auth = rw unread at e in cc)
        | inr (payload, read) ↦
            let hash = sha256_hex platform token in
            elim (Option-cases (store.get_by_access_token_hash s payload.sub hash)) [
              | inl gone ↦ absurd (let q : none ≡ some auth = rw gone at (rw read at e) in cc)
              | inr (g, found) ↦
                  let same : auth_of platform store (some g) ≡ some auth =
                    rw found at (rw read at e) in
                  let (there, user, held) =
                    (store.access_iff s payload.sub hash g valid
                        (sha256_hex-IsDigest platform p token)).0
                      found in
                  rw (← some-injective same) (record {
                    grant = g;
                    stored = there;
                    id_eq = refl;
                    user_eq = refl;
                    permissions_eq = refl;
                    hash_eq = held;
                  })
            ]
      ]

  -- The token of a stored grant, from a payload with its user, is accepted.
  pub stored-verify :
      (s : store.State) (g : DelegateGrant) (token : Text) (payload : TokenPayload)
      → store.IsValid s
      → decode_delegate_token_payload platform token ≡ some payload
      → payload.sub ≡ g.user_id
      → store.get s g.delegate_id ≡ some g
      → g.access_token_hash ≡ sha256_hex platform token
      → verify_delegate_token platform store s token ≡ auth_of platform store (some g)
  unfolding verify_delegate_token
  stored-verify s g token payload valid read user there held =
      let found : store.get_by_access_token_hash s payload.sub (sha256_hex platform token)
          ≡ some g =
        (store.access_iff s payload.sub (sha256_hex platform token) g valid
            (sha256_hex-IsDigest platform p token)).1
          (there, sym user, held) in
      rw read (rw found refl)

  -- The id and the digests are new to the store.
  pub record IsNew (s : store.State) (g : DelegateGrant) : Type 0 where
    pub id : store.get s g.delegate_id ≡ none
    pub access : store.get_by_access_token_hash s g.user_id g.access_token_hash ≡ none
    pub refresh :
        (hash : Text)
        → truthy g.refresh_token_hash ≡ some hash
        → store.get_by_refresh_token_hash s g.user_id hash ≡ none

  pub truthy-digest : (h hash : Text) → IsDigest h → truthy (some h) ≡ some hash → IsDigest hash
  truthy-digest [] hash d e = absurd (omega (arith, d))
  truthy-digest (c ∷ h) hash d e = rw (← some-injective e) d

  new_grant-IsGrant :
      (params : Params) (draws : Draws) (token : Text)
      → IsGrant (new_grant platform params draws token)
  new_grant-IsGrant params draws token = record {
    access = sha256_hex-IsDigest platform p token;
    refresh = λ hash e.
        truthy-digest (sha256_hex platform (generate_random_token platform draws.refresh_bytes))
          hash (sha256_hex-IsDigest platform p (generate_random_token platform draws.refresh_bytes))
          e;
  }

  pub insert-new :
      (s : store.State) (params : Params) (draws : Draws) (token : Text)
      → store.IsValid s
      → IsNew s (new_grant platform params draws token)
      → store.IsValid (store.insert s (new_grant platform params draws token))
  insert-new s params draws token valid new =
      store.insert-IsValid s (new_grant platform params draws token) valid
        (new_grant-IsGrant params draws token) new.id new.access new.refresh

  -- A delegate that was created is stored, with the digest of its refresh token.
  pub create-stored :
      (s : store.State) (params : Params) (draws : Draws) (created : Created)
      → (create_delegate platform store s params draws).0 ≡ some created
      → (store.get (create_delegate platform store s params draws).1 created.grant.delegate_id
          ≡ some created.grant)
        × (created.grant.refresh_token_hash ≡ some (sha256_hex platform created.refresh_token))
  unfolding create_delegate
  create-stored s params draws created e =
      elim (Option-cases (
        create_delegate_access_token platform params.user_id (generate_delegate_id draws.id_bytes)
          draws.token_now draws.sig_bytes)) [
            | inl thrown ↦ absurd (let q : none ≡ some created = rw thrown at e in cc)
            | inr (token, made) ↦
                let g = new_grant platform params draws token in
                let same : some (record {
                  grant = g;
                  access_token = token;
                  refresh_token = generate_random_token platform draws.refresh_bytes;
                })
                    ≡ some created =
                  rw made at e in
                rw made (
                  rw (← some-injective same) (
                    store.get-insert s g g.delegate_id ∙ rw (same_key_self g.delegate_id) refl,
                    refl,
                  ))
          ]

  -- A call of createDelegate that does not throw, where the id and the digests are new, keeps the store
  -- valid, and the access token that it returns is accepted, for the user and with the permissions given.
  pub create-verify :
      (s : store.State) (params : Params) (draws : Draws) (created : Created)
      → store.IsValid s
      → (create_delegate platform store s params draws).0 ≡ some created
      → IsNew s created.grant
      → store.IsValid (create_delegate platform store s params draws).1
        × (verify_delegate_token platform store
              (create_delegate platform store s params draws).1
              created.access_token
            ≡ some (record {
              user_id = params.user_id;
              delegate_id = created.grant.delegate_id;
              permissions = params.permissions;
            }))
  unfolding create_delegate
  create-verify s params draws created valid e new =
      elim (Option-cases (
        create_delegate_access_token platform params.user_id (generate_delegate_id draws.id_bytes)
          draws.token_now draws.sig_bytes)) [
            | inl thrown ↦ absurd (let q : none ≡ some created = rw thrown at e in cc)
            | inr (token, made) ↦
                let g = new_grant platform params draws token in
                let same : some (record {
                  grant = g;
                  access_token = token;
                  refresh_token = generate_random_token platform draws.refresh_bytes;
                })
                    ≡ some created =
                  rw made at e in
                let is : created ≡ record {
                  grant = g;
                  access_token = token;
                  refresh_token = generate_random_token platform draws.refresh_bytes;
                } =
                  sym (some-injective same) in
                let valid_after = insert-new s params draws token valid (rw is at new) in
                let there : store.get (store.insert s g) g.delegate_id ≡ some g =
                  store.get-insert s g g.delegate_id ∙ rw (same_key_self g.delegate_id) refl in
                rw made (
                  rw is (
                    valid_after,
                    stored-verify (store.insert s g) g token
                        (record {
                          sub = params.user_id;
                          dlg = g.delegate_id;
                          iat = draws.token_now / 1000;
                        })
                        valid_after
                        (decode-create platform p params.user_id g.delegate_id draws.token_now
                          draws.sig_bytes token made)
                        refl there refl,
                  ))
          ]
