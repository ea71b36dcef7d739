-- ===== src/Delegates.antt =====
-- packages/cell-delegates-server: the grants that delegates have, src/types.ts.
pub mod MemoryStore
pub mod Token
pub mod Operations
pub mod AuthCodes
pub mod Requests
pub mod Oauth
mod ToyPlatform
mod Examples
use casfa.Base.{
  ℕ, List, [], ◌∷◌, Bool, true, false, ◌≡◌, ◌↔◌, Option, none, some, if◌then◌else◌, length,
}
use casfa.Core.Text.{Text}
use casfa.Storage.{same_key}

pub record DelegateGrant : Type 0 where
  pub delegate_id : Text
  pub user_id : Text
  pub client_name : Text
  pub permissions : List Text
  pub access_token_hash : Text
  pub refresh_token_hash : Option Text
  pub created_at : ℕ
  pub expires_at : ℕ

pub record DelegateAuth : Type 0 where
  pub user_id : Text
  pub delegate_id : Text
  pub permissions : List Text

-- `if (hash)`: null and the empty string are not.
abbrev pub truthy : Option Text → Option Text
truthy none = none
truthy (some []) = none
truthy (some (c ∷ s)) = some (c ∷ s)

-- `{ ...g, accessTokenHash, refreshTokenHash }`
abbrev pub with_tokens : Text → Option Text → DelegateGrant → DelegateGrant
with_tokens access refresh g = record g { access_token_hash = access; refresh_token_hash = refresh }

-- A SHA-256 digest in hexadecimal has 64 digits.
abbrev pub IsDigest : Text → Type 0
IsDigest hash = length hash ≡ 64

-- The hashes of a grant are digests.
pub record IsGrant (g : DelegateGrant) : Type 0 where
  pub access : IsDigest g.access_token_hash
  pub refresh : (hash : Text) → truthy g.refresh_token_hash ≡ some hash → IsDigest hash

abbrev pub updated_at :
    Text → Text → Option Text → Text → Option DelegateGrant → Option DelegateGrant
updated_at id access refresh other none = none
updated_at id access refresh other (some g) =
    if same_key id other then some (with_tokens access refresh g) else some g

-- The store of the grants, with the laws that its clients rely on. A valid store answers a query for a
-- digest with the grant that carries it, and new digests keep it valid.
pub record DelegateGrantStore : Type 1 where
  pub State : Type 0
  pub IsValid : State → Type 0
  pub list : State → Text → List DelegateGrant
  pub get : State → Text → Option DelegateGrant
  pub get_by_access_token_hash : State → Text → Text → Option DelegateGrant
  pub get_by_refresh_token_hash : State → Text → Text → Option DelegateGrant
  pub insert : State → DelegateGrant → State
  pub remove : State → Text → State
  pub update_tokens : State → Text → Text → Option Text → State
  pub get-insert :
      (s : State) (g : DelegateGrant) (id : Text)
      → get (insert s g) id ≡ (if same_key g.delegate_id id then some g else get s id)
  pub get-remove :
      (s : State) (id other : Text)
      → get (remove s id) other ≡ (if same_key id other then none else get s other)
  pub get-update_tokens :
      (s : State) (id access : Text) (refresh : Option Text) (other : Text)
      → get (update_tokens s id access refresh) other
        ≡ updated_at id access refresh other (get s other)
  pub id-get :
      (s : State) (id : Text) (g : DelegateGrant)
      → IsValid s
      → get s id ≡ some g
      → g.delegate_id ≡ id
  pub access_iff :
      (s : State) (user hash : Text) (g : DelegateGrant)
      → IsValid s
      → IsDigest hash
      → (get_by_access_token_hash s user hash ≡ some g)
        ↔ ((get s g.delegate_id ≡ some g) × (g.user_id ≡ user) × (g.access_token_hash ≡ hash))
  pub refresh_iff :
      (s : State) (user hash : Text) (g : DelegateGrant)
      → IsValid s
      → IsDigest hash
      → (get_by_refresh_token_hash s user hash ≡ some g) ↔ (
          (get s g.delegate_id ≡ some g)
          × (g.user_id ≡ user)
          × (truthy g.refresh_token_hash ≡ some hash))
  pub insert-IsValid :
      (s : State) (g : DelegateGrant)
      → IsValid s
      → IsGrant g
      → get s g.delegate_id ≡ none
      → get_by_access_token_hash s g.user_id g.access_token_hash ≡ none
      → ((hash : Text)
          → truthy g.refresh_token_hash ≡ some hash
          → get_by_refresh_token_hash s g.user_id hash ≡ none)
      → IsValid (insert s g)
  pub remove-IsValid : (s : State) (id : Text) → IsValid s → IsValid (remove s id)
  pub update_tokens-IsValid :
      (s : State) (id access : Text) (refresh : Option Text)
      → IsValid s
      → ((g : DelegateGrant)
          → get s id ≡ some g
          → IsGrant (with_tokens access refresh g)
            × (get_by_access_token_hash s g.user_id access ≡ none)
            × ((hash : Text)
                → truthy refresh ≡ some hash
                → get_by_refresh_token_hash s g.user_id hash ≡ none))
      → IsValid (update_tokens s id access refresh)
