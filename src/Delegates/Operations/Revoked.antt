-- ===== src/Delegates/Operations/Revoked.antt =====
-- A revoked delegate stays without access, whatever happens to the store afterwards.
use casfa.Base.{◌≡◌, ◌≢◌, refl, sym, ◌∙◌, false, Option, none, some, Bool-cases, inl, inr}
use casfa.Core.Text.{Text}
use casfa.Storage.{same_key, same_key_self}
use casfa.Delegates.{DelegateGrant, DelegateAuth, DelegateGrantStore, IsGrant, truthy, with_tokens}
use casfa.Delegates.Token.{TokenPlatform}
use casfa.Delegates.Token.RoundTrip.{IsTokenPlatform}
use casfa.Delegates.Operations.{Params, Draws, new_grant, revoke_delegate, verify_delegate_token}
use casfa.Delegates.Operations.Laws.{IsNew, insert-new, verify-IsGranted}

module _ (platform : TokenPlatform) (p : IsTokenPlatform platform)
    (store : DelegateGrantStore) where
  -- A change of the store by which no grant of the id comes in: a new delegate of another id, a revocation
  -- of any delegate, or new tokens for one.
  pub data Step (id : Text) (s t : store.State) : Type 0 where
    creates :
        (params : Params) (draws : Draws) (token : Text)
        → IsNew platform p store s (new_grant platform params draws token)
        → same_key (new_grant platform params draws token).delegate_id id ≡ false
        → t ≡ store.insert s (new_grant platform params draws token)
        → Step id s t
    revokes : (other : Text) → t ≡ revoke_delegate platform store s other → Step id s t
    refreshes :
        (other access : Text) (refresh : Option Text)
        → ((g : DelegateGrant)
            → store.get s other ≡ some g
            → IsGrant (with_tokens access refresh g)
              × (store.get_by_access_token_hash s g.user_id access ≡ none)
              × ((hash : Text)
                  → truthy refresh ≡ some hash
                  → store.get_by_refresh_token_hash s g.user_id hash ≡ none))
        → t ≡ store.update_tokens s other access refresh
        → Step id s t

  pub data Steps (id : Text) (s : store.State) : store.State → Type 0 where
    here : Steps id s s
    next : {t u : store.State} → Steps id s t → Step id t u → Steps id s u

  -- The store is valid and has no grant of the id.
  pub record IsRevoked (id : Text) (s : store.State) : Type 0 where
    pub valid : store.IsValid s
    pub gone : store.get s id ≡ none

  Step-IsRevoked : (id : Text) (s t : store.State) → Step id s t → IsRevoked id s → IsRevoked id t
  unfolding revoke_delegate
  Step-IsRevoked id s t (creates params draws token new apart e) r = rw e (record {
    valid = insert-new platform p store s params draws token r.valid new;
    gone = store.get-insert s (new_grant platform params draws token) id ∙ rw apart r.gone;
  })
  Step-IsRevoked id s t (revokes other e) r = rw e (record {
    valid = store.remove-IsValid s other r.valid;
    gone = store.get-remove s other id ∙ (elim (Bool-cases (same_key other id)) [
      | inl same ↦ rw same refl
      | inr apart ↦ rw apart r.gone
    ]);
  })
  Step-IsRevoked id s t (refreshes other access refresh new e) r = rw e (record {
    valid = store.update_tokens-IsValid s other access refresh r.valid new;
    gone = store.get-update_tokens s other access refresh id ∙ rw (r.gone) refl;
  })

  Steps-IsRevoked : (id : Text) (s t : store.State) → Steps id s t → IsRevoked id s → IsRevoked id t
  Steps-IsRevoked id s t here r = r
  Steps-IsRevoked id s u (next {t = t} before step) r =
      Step-IsRevoked id t u step (Steps-IsRevoked id s t before r)

  -- After a delegate has been revoked at a valid store, and after any changes by which no grant of its id
  -- comes in, no token is accepted for it.
  pub revoke-refuses :
      (s t : store.State) (id token : Text) (auth : DelegateAuth)
      → store.IsValid s
      → Steps id (revoke_delegate platform store s id) t
      → verify_delegate_token platform store t token ≡ some auth
      → auth.delegate_id ≢ id
  unfolding revoke_delegate
  revoke-refuses s t id token auth valid steps e same =
      let start : IsRevoked id (store.remove s id) = record {
        valid = store.remove-IsValid s id valid;
        gone = store.get-remove s id id ∙ rw (same_key_self id) refl;
      } in
      let now = Steps-IsRevoked id (store.remove s id) t steps start in
      let granted = verify-IsGranted platform p store t token auth now.valid e in
      let there : store.get t id ≡ some granted.grant = rw same at granted.stored in
      let q : none ≡ some granted.grant = sym now.gone ∙ there in cc
