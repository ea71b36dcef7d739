-- ===== src/Delegates/Examples.antt =====
-- The life of a delegate at the store in memory, and the theorems about delegates at it.
use casfa.Base.{ℕ, ◌≡◌, ◌≢◌, refl, sym, true, Option, none, some, List, [], ◌∷◌, ◌++◌, arith, ok}
use casfa.Core.Text.{Text}
use casfa.Encoding.Cb32.{codes}
use casfa.Delegates.{DelegateGrant, DelegateAuth, IsGrant, truthy, with_tokens}
use casfa.Delegates.MemoryStore.{MemoryGrants, empty}
use casfa.Delegates.MemoryStore.Index.{empty-IsIndex, some-injective}
use casfa.Delegates.MemoryStore.Laws.{IsIndexed, memory_grant_store, update_tokens-IsIndexed}
use casfa.Delegates.Token.{sha256_hex, create_delegate_access_token, verify_code_challenge}
use casfa.Delegates.ToyPlatform.{write, toy_stringify, toy_platform, toy-IsTokenPlatform}
use casfa.Delegates.Operations.{
  Params, Draws, Created, new_grant, create_delegate, revoke_delegate, verify_delegate_token,
}
use casfa.Delegates.Operations.Revoked.{Steps, creates, here, next, revoke-refuses}
use casfa.Delegates.AuthCodes.{AuthCodeEntry}
use casfa.Delegates.Requests.{
  TokenBody, AuthorizeBody, AuthorizeRequest, JsonBody, fields, text, scope_text, Response, issued,
  failed, redirect, invalid_grant, TokenBody, check_authorize, redirect_url,
}
use casfa.Delegates.Oauth.{
  TokenDraws, OauthState, refresh, exchange, authorize, entry_of, body_of_entry,
  default_access_ttl_sec,
}
use casfa.Delegates.Oauth.Codes.{IsExchanged, exchange-IsExchanged, exchange-once}
use casfa.Delegates.Oauth.Rotated.{IsUnused, IsRotated, refresh-IsRotated}
use casfa.Delegates.Oauth.Flow.{IsUsable, authorize-exchange-verify}
use casfa.Delegates.Operations.Laws.{IsNew, create-verify}

abbrev params : Params
params = record { user_id = codes "u"; client_name = codes "c"; permissions = codes "use_mcp" ∷ [] }

abbrev draws : Draws
draws = record {
  id_bytes = [];
  sig_bytes = 1 ∷ [];
  refresh_bytes = 2 ∷ [];
  token_now = 3000;
  now = 3000;
}

abbrev run : Option Created × MemoryGrants
run = create_delegate toy_platform memory_grant_store empty params draws

empty-IsIndexed : IsIndexed empty
unfolding casfa.Maps.map_get
empty-IsIndexed = record {
  ids = λ id g e. cc;
  grants = λ id g e. cc;
  access = empty-IsIndex _;
  refresh = empty-IsIndex _;
}

-- The access token of these draws.
abbrev token_of : Text → Text → ℕ → ℕ → Text
token_of user id iat sig =
    write (toy_stringify (record { sub = user; dlg = id; iat = iat })) ++ (b'.' ∷ write (sig ∷ []))

abbrev id : Text
id = codes "dlg_"

abbrev access_token : Text
access_token = token_of (codes "u") id 3 1

abbrev grant : DelegateGrant
grant = new_grant toy_platform params draws access_token

abbrev created : Created
created = record { grant = grant; access_token = access_token; refresh_token = write (2 ∷ []) }

run-ok : run.0 ≡ some created
unfolding create_delegate casfa.Delegates.Token.create_delegate_access_token
    casfa.Delegates.Token.generate_delegate_id casfa.Delegates.Token.generate_random_token
    casfa.Delegates.Token.to_url casfa.Delegates.Token.drop_padding casfa.Encoding.Cb32.encode_cb32
    sha256_hex casfa.Encoding.Hex.bytes_to_hex
run-ok = refl

abbrev IsNewHere : MemoryGrants → DelegateGrant → Type 0
IsNewHere = IsNew toy_platform toy-IsTokenPlatform memory_grant_store

created-IsNew : IsNewHere empty grant
unfolding casfa.Delegates.MemoryStore.insert casfa.Delegates.MemoryStore.get
    casfa.Delegates.MemoryStore.get_by_access_token_hash
    casfa.Delegates.MemoryStore.get_by_refresh_token_hash casfa.Delegates.MemoryStore.remove
    casfa.Delegates.MemoryStore.update_tokens casfa.Delegates.MemoryStore.user_hash_key
    casfa.Maps.map_get casfa.Maps.map_set casfa.Maps.map_delete casfa.Storage.same_key
created-IsNew = record { id = refl; access = refl; refresh = λ hash e. refl }

accepted :
    IsIndexed run.1
    × (verify_delegate_token toy_platform memory_grant_store run.1 access_token
        ≡ some (record {
          user_id = codes "u";
          delegate_id = grant.delegate_id;
          permissions = codes "use_mcp" ∷ [];
        }))
accepted =
    create-verify toy_platform toy-IsTokenPlatform memory_grant_store empty params draws created
      empty-IsIndexed run-ok created-IsNew

abbrev auth : DelegateAuth
auth = record {
  user_id = codes "u";
  delegate_id = grant.delegate_id;
  permissions = codes "use_mcp" ∷ [];
}

-- The delegate is revoked, and another one comes in.
abbrev revoked : MemoryGrants
revoked = revoke_delegate toy_platform memory_grant_store run.1 id

abbrev other_draws : Draws
other_draws = record draws { id_bytes = 1 ∷ []; sig_bytes = 3 ∷ []; refresh_bytes = 4 ∷ [] }

abbrev other_token : Text
other_token = token_of (codes "u") (codes "dlg_04") 3 3

abbrev other_grant : DelegateGrant
other_grant = new_grant toy_platform params other_draws other_token

abbrev later : MemoryGrants
later = memory_grant_store.insert revoked other_grant

other-IsNew : IsNewHere revoked other_grant
unfolding casfa.Delegates.MemoryStore.insert casfa.Delegates.MemoryStore.get
    casfa.Delegates.MemoryStore.get_by_access_token_hash
    casfa.Delegates.MemoryStore.get_by_refresh_token_hash casfa.Delegates.MemoryStore.remove
    casfa.Delegates.MemoryStore.update_tokens casfa.Delegates.MemoryStore.user_hash_key
    casfa.Maps.map_get casfa.Maps.map_set casfa.Maps.map_delete casfa.Storage.same_key
    casfa.Delegates.Token.create_delegate_access_token casfa.Delegates.Token.generate_delegate_id
    casfa.Delegates.Token.generate_random_token casfa.Delegates.Token.to_url
    casfa.Delegates.Token.drop_padding casfa.Encoding.Cb32.encode_cb32 sha256_hex
    casfa.Encoding.Hex.bytes_to_hex create_delegate revoke_delegate
other-IsNew = record { id = refl; access = refl; refresh = λ hash e. refl }

steps : Steps toy_platform toy-IsTokenPlatform memory_grant_store id revoked later
unfolding casfa.Delegates.Token.create_delegate_access_token
    casfa.Delegates.Token.generate_delegate_id casfa.Delegates.Token.generate_random_token
    casfa.Delegates.Token.to_url casfa.Delegates.Token.drop_padding casfa.Encoding.Cb32.encode_cb32
    sha256_hex casfa.Encoding.Hex.bytes_to_hex casfa.Storage.same_key
steps = next here (creates params other_draws other_token other-IsNew refl refl)

later-accepts :
    verify_delegate_token toy_platform memory_grant_store later other_token
    ≡ some (record auth { delegate_id = other_grant.delegate_id })
unfolding casfa.Delegates.MemoryStore.insert casfa.Delegates.MemoryStore.get
    casfa.Delegates.MemoryStore.get_by_access_token_hash
    casfa.Delegates.MemoryStore.get_by_refresh_token_hash casfa.Delegates.MemoryStore.remove
    casfa.Delegates.MemoryStore.update_tokens casfa.Delegates.MemoryStore.user_hash_key
    casfa.Maps.map_get casfa.Maps.map_set casfa.Maps.map_delete casfa.Storage.same_key
    casfa.Delegates.Token.create_delegate_access_token casfa.Delegates.Token.generate_delegate_id
    casfa.Delegates.Token.generate_random_token casfa.Delegates.Token.to_url
    casfa.Delegates.Token.drop_padding casfa.Encoding.Cb32.encode_cb32 sha256_hex
    casfa.Encoding.Hex.bytes_to_hex create_delegate revoke_delegate verify_delegate_token
    casfa.Delegates.Token.decode_delegate_token_payload casfa.Delegates.Token.from_url
    casfa.Delegates.Token.split_dot
later-accepts = refl

revoke-refuses_example : other_grant.delegate_id ≢ id
revoke-refuses_example =
    revoke-refuses toy_platform toy-IsTokenPlatform memory_grant_store run.1 later id other_token
      (record auth { delegate_id = other_grant.delegate_id }) accepted.0 steps later-accepts

-- A refresh with the token of the delegate.
abbrev token_draws : TokenDraws
token_draws = record {
  now = 4000;
  later = 4001;
  token_now = 5000;
  sig_bytes = 5 ∷ [];
  refresh_bytes = 6 ∷ [];
}

abbrev granted : OauthState toy_platform memory_grant_store
granted = (run.1, ([], 0))

abbrev new_body : TokenBody
new_body = record {
  access_token = token_of (codes "u") id 5 5;
  refresh_token = write (6 ∷ []);
  expires_in = default_access_ttl_sec;
  client_id = none;
}

abbrev refreshed : Response × OauthState toy_platform memory_grant_store
refreshed = refresh toy_platform memory_grant_store token_draws (write (2 ∷ [])) id granted

refreshed-ok : refreshed.0 ≡ issued new_body
unfolding refresh casfa.Delegates.MemoryStore.insert casfa.Delegates.MemoryStore.get
    casfa.Delegates.MemoryStore.get_by_access_token_hash
    casfa.Delegates.MemoryStore.get_by_refresh_token_hash casfa.Delegates.MemoryStore.remove
    casfa.Delegates.MemoryStore.update_tokens casfa.Delegates.MemoryStore.user_hash_key
    casfa.Maps.map_get casfa.Maps.map_set casfa.Maps.map_delete casfa.Storage.same_key
    casfa.Delegates.Token.create_delegate_access_token casfa.Delegates.Token.generate_delegate_id
    casfa.Delegates.Token.generate_random_token casfa.Delegates.Token.to_url
    casfa.Delegates.Token.drop_padding casfa.Encoding.Cb32.encode_cb32 sha256_hex
    casfa.Encoding.Hex.bytes_to_hex create_delegate revoke_delegate verify_delegate_token
    casfa.Delegates.Token.decode_delegate_token_payload casfa.Delegates.Token.from_url
    casfa.Delegates.Token.split_dot
refreshed-ok = refl

new_body-IsUnused : IsUnused toy_platform memory_grant_store run.1 id new_body
unfolding casfa.Delegates.MemoryStore.insert casfa.Delegates.MemoryStore.get
    casfa.Delegates.MemoryStore.get_by_access_token_hash
    casfa.Delegates.MemoryStore.get_by_refresh_token_hash casfa.Delegates.MemoryStore.remove
    casfa.Delegates.MemoryStore.update_tokens casfa.Delegates.MemoryStore.user_hash_key
    casfa.Maps.map_get casfa.Maps.map_set casfa.Maps.map_delete casfa.Storage.same_key
    casfa.Delegates.Token.create_delegate_access_token casfa.Delegates.Token.generate_delegate_id
    casfa.Delegates.Token.generate_random_token casfa.Delegates.Token.to_url
    casfa.Delegates.Token.drop_padding casfa.Encoding.Cb32.encode_cb32 sha256_hex
    casfa.Encoding.Hex.bytes_to_hex create_delegate revoke_delegate verify_delegate_token
    casfa.Delegates.Token.decode_delegate_token_payload casfa.Delegates.Token.from_url
    casfa.Delegates.Token.split_dot
new_body-IsUnused = record {
  access = λ g e. let is : g ≡ grant = some-injective (sym e) in rw is refl;
  refresh = λ g e. let is : g ≡ grant = some-injective (sym e) in rw is refl;
}

refresh-IsRotated_example :
    IsRotated toy_platform memory_grant_store granted refreshed.1
      (write (2 ∷ []))
      id
      new_body.access_token
refresh-IsRotated_example =
    refresh-IsRotated toy_platform memory_grant_store toy-IsTokenPlatform granted token_draws
      (write (2 ∷ [])) id new_body accepted.0 refreshed-ok new_body-IsUnused

-- The digests of these tokens are new to the store.
new_digests :
    (g : DelegateGrant)
    → memory_grant_store.get run.1 id ≡ some g
    → IsGrant (with_tokens (sha256_hex toy_platform (codes "a")) none g)
      × (memory_grant_store.get_by_access_token_hash run.1 g.user_id
            (sha256_hex toy_platform (codes "a"))
          ≡ none)
      × ((hash : Text)
          → truthy none ≡ some hash
          → memory_grant_store.get_by_refresh_token_hash run.1 g.user_id hash ≡ none)
unfolding casfa.Delegates.MemoryStore.insert casfa.Delegates.MemoryStore.get
    casfa.Delegates.MemoryStore.get_by_access_token_hash
    casfa.Delegates.MemoryStore.get_by_refresh_token_hash casfa.Delegates.MemoryStore.remove
    casfa.Delegates.MemoryStore.update_tokens casfa.Delegates.MemoryStore.user_hash_key
    casfa.Maps.map_get casfa.Maps.map_set casfa.Maps.map_delete casfa.Storage.same_key
    casfa.Delegates.Token.create_delegate_access_token casfa.Delegates.Token.generate_delegate_id
    casfa.Delegates.Token.generate_random_token casfa.Delegates.Token.to_url
    casfa.Delegates.Token.drop_padding casfa.Encoding.Cb32.encode_cb32 sha256_hex
    casfa.Encoding.Hex.bytes_to_hex create_delegate revoke_delegate verify_delegate_token
    casfa.Delegates.Token.decode_delegate_token_payload casfa.Delegates.Token.from_url
    casfa.Delegates.Token.split_dot
new_digests g e =
    let is : g ≡ grant = some-injective (sym e) in
    rw is (record { access = refl; refresh = λ hash q. cc }, refl, λ hash q. cc)

update_tokens-IsIndexed_example :
    IsIndexed (memory_grant_store.update_tokens run.1 id (sha256_hex toy_platform (codes "a")) none)
update_tokens-IsIndexed_example =
    update_tokens-IsIndexed run.1 id (sha256_hex toy_platform (codes "a")) none accepted.0
      new_digests

-- An authorization, and the exchange of its code.
abbrev body : AuthorizeBody
body = record {
  client_name = text (codes "c");
  redirect_uri = text (codes "r");
  state = text (codes "s");
  code_challenge = text (codes "v");
  code_challenge_method = text (codes "plain");
  scope = scope_text (codes "use_mcp+");
}

abbrev request : AuthorizeRequest
request = record {
  user_id = codes "u";
  client_name = codes "c";
  redirect_uri = codes "r";
  state = codes "s";
  code_challenge = codes "v";
  code_challenge_method = codes "plain";
  scopes = codes "use_mcp" ∷ [];
}

abbrev allowed : List Text
allowed = codes "use_mcp" ∷ []

request-ok : check_authorize allowed (codes "u") (fields body) ≡ ok request
unfolding check_authorize casfa.Delegates.Requests.allowed_scopes casfa.Delegates.Requests.includes
    casfa.Delegates.Requests.split_scopes casfa.Drive.Paths.trim casfa.Drive.Paths.front_space
    casfa.Drive.Paths.non_empty_parts casfa.Storage.same_key
request-ok = refl

abbrev start : OauthState toy_platform memory_grant_store
start = (empty, ([], 0))

right : verify_code_challenge toy_platform (codes "v") (codes "v") (codes "plain") ≡ true
unfolding verify_code_challenge casfa.Storage.same_key
right = refl

abbrev authorized : Response × OauthState toy_platform memory_grant_store
authorized =
    authorize toy_platform memory_grant_store allowed draws (codes "k") 3001 3002 (codes "u")
      (fields body) start

abbrev entry : AuthCodeEntry
entry = entry_of toy_platform memory_grant_store request created 3001

authorize-exchange-verify_example :
    (authorized.0 ≡ redirect (redirect_url (codes "r") (codes "k") (codes "s")))
    × ((body : TokenBody) × ((exchange toy_platform memory_grant_store token_draws
            (codes "k")
            (codes "v")
            authorized.1).0
          ≡ issued body)
        × IsUsable toy_platform memory_grant_store toy-IsTokenPlatform
            (exchange toy_platform memory_grant_store token_draws
              (codes "k")
              (codes "v")
              authorized.1).1.0
            (codes "u")
            grant.delegate_id
            (codes "use_mcp" ∷ [])
            body)
authorize-exchange-verify_example =
    authorize-exchange-verify toy_platform memory_grant_store toy-IsTokenPlatform start allowed
      draws (codes "k") 3001 3002 (codes "u") (fields body) request created token_draws (codes "v")
      empty-IsIndexed request-ok run-ok created-IsNew right (omega arith) (omega arith)

abbrev coded : OauthState toy_platform memory_grant_store
coded = (run.1, ((codes "k", entry) ∷ [], 1))

exchanged-ok :
    (exchange toy_platform memory_grant_store token_draws (codes "k") (codes "v") coded).0
    ≡ issued (body_of_entry toy_platform memory_grant_store entry)
unfolding exchange casfa.Delegates.AuthCodes.get casfa.Delegates.AuthCodes.clean
    casfa.Delegates.AuthCodes.delete casfa.Maps.map_get casfa.Maps.map_delete verify_code_challenge
    casfa.Storage.same_key
exchanged-ok = refl

exchange-IsExchanged_example :
    IsExchanged toy_platform memory_grant_store coded
      (exchange toy_platform memory_grant_store token_draws (codes "k") (codes "v") coded).1
      token_draws
      (codes "k")
      (codes "v")
      (body_of_entry toy_platform memory_grant_store entry)
exchange-IsExchanged_example =
    exchange-IsExchanged toy_platform memory_grant_store coded token_draws (codes "k") (codes "v")
      (body_of_entry toy_platform memory_grant_store entry) exchanged-ok

exchange-once_example :
    (exchange toy_platform memory_grant_store token_draws (codes "k") (codes "v") (
      empty,
      (exchange toy_platform memory_grant_store token_draws (codes "k") (codes "v") coded).1.1,
    )).0
    ≡ failed 400 invalid_grant
exchange-once_example =
    exchange-once toy_platform memory_grant_store coded token_draws token_draws (codes "k")
      (codes "v") (codes "v") (body_of_entry toy_platform memory_grant_store entry) exchanged-ok
      empty
