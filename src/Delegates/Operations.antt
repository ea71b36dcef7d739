-- ===== src/Delegates/Operations.antt =====
-- packages/cell-delegates-server/src/delegate-ops.ts and verify-delegate-token.ts, over any grant store.
pub mod Laws
pub mod Revoked
use casfa.Base.{ℕ, ◌+◌, ◌*◌, List, Option, none, some, Bytes}
use casfa.Core.Text.{Text}
use casfa.Delegates.{DelegateGrant, DelegateAuth, DelegateGrantStore}
use casfa.Delegates.Token.{
  TokenPlatform, TokenPayload, generate_delegate_id, generate_random_token,
  create_delegate_access_token, sha256_hex, decode_delegate_token_payload,
}

abbrev pub default_access_ttl_ms : ℕ
default_access_ttl_ms = 24 * 60 * 60 * 1000

-- What a call draws from the platform: random bytes for the id, for the signature of the access token and
-- for the refresh token, and what `Date.now()` returns for the access token and for the grant.
pub record Draws : Type 0 where
  pub id_bytes : Bytes
  pub sig_bytes : Bytes
  pub refresh_bytes : Bytes
  pub token_now : ℕ
  pub now : ℕ

pub record Params : Type 0 where
  pub user_id : Text
  pub client_name : Text
  pub permissions : List Text

pub record Created : Type 0 where
  pub grant : DelegateGrant
  pub access_token : Text
  pub refresh_token : Text

module _ (platform : TokenPlatform) where
  abbrev pub new_grant : Params → Draws → Text → DelegateGrant
  new_grant params draws access_token = record {
    delegate_id = generate_delegate_id draws.id_bytes;
    user_id = params.user_id;
    client_name = params.client_name;
    permissions = params.permissions;
    access_token_hash = sha256_hex platform access_token;
    refresh_token_hash =
        some (sha256_hex platform (generate_random_token platform draws.refresh_bytes));
    created_at = draws.now;
    expires_at = draws.now + default_access_ttl_ms;
  }

  module _ (store : DelegateGrantStore) where
    unfoldable pub list_delegates : store.State → Text → List DelegateGrant
    list_delegates s user_id = store.list s user_id

    unfoldable pub revoke_delegate : store.State → Text → store.State
    revoke_delegate s delegate_id = store.remove s delegate_id

    abbrev created_with : store.State → Params → Draws → Option Text → Option Created × store.State
    created_with s params draws none = (none, s)
    created_with s params draws (some access_token) =
        let grant = new_grant params draws access_token in
        (
          some (record {
            grant = grant;
            access_token = access_token;
            refresh_token = generate_random_token platform draws.refresh_bytes;
          }),
          store.insert s grant,
        )

    -- None where the access token cannot be made, which throws before the insertion.
    unfoldable pub create_delegate : store.State → Params → Draws → Option Created × store.State
    unfolding generate_delegate_id generate_random_token create_delegate_access_token sha256_hex
    create_delegate s params draws = created_with s params draws (
        create_delegate_access_token platform params.user_id (generate_delegate_id draws.id_bytes)
          draws.token_now draws.sig_bytes)

    abbrev pub auth_of : Option DelegateGrant → Option DelegateAuth
    auth_of none = none
    auth_of (some grant) = some (record {
      user_id = grant.user_id;
      delegate_id = grant.delegate_id;
      permissions = grant.permissions;
    })

    abbrev verified_with : store.State → Text → Option TokenPayload → Option DelegateAuth
    verified_with s token none = none
    verified_with s token (some payload) =
        auth_of (store.get_by_access_token_hash s payload.sub (sha256_hex platform token))

    unfoldable pub verify_delegate_token : store.State → Text → Option DelegateAuth
    unfolding decode_delegate_token_payload sha256_hex
    verify_delegate_token s bearer_token =
        verified_with s bearer_token (decode_delegate_token_payload platform bearer_token)
