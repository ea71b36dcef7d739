-- ===== src/Delegates/MemoryStore.antt =====
-- packages/cell-delegates-server/src/memory-grant-store.ts: the grants by their id, with an index by the
-- hash of the access token and one by that of the refresh token.
pub mod Index
pub mod Laws
use casfa.Base.{ℕ, List, [], ◌∷◌, ◌++◌, Option, none, some}
use casfa.Core.Text.{Text}
use casfa.Storage.{same_key}
use casfa.Maps.{map_get, map_set, map_delete, map_values, filter}
use casfa.Delegates.{DelegateGrant, truthy, with_tokens}

abbrev pub Grants : Type 0
Grants = List (Text × DelegateGrant)

pub record MemoryGrants : Type 0 where
  pub by_id : Grants
  pub by_user_and_hash : Grants
  pub by_user_and_refresh_hash : Grants

unfoldable pub user_hash_key : Text → Text → Text
user_hash_key user_id hash = user_id ++ (b':' ∷ hash)

-- The key of a grant in an index, none where it is not put into it.
abbrev pub key_of_hash : Text → Option Text → Option Text
key_of_hash user_id none = none
key_of_hash user_id (some hash) = some (user_hash_key user_id hash)

abbrev pub access_key : DelegateGrant → Option Text
access_key g = key_of_hash g.user_id (some g.access_token_hash)

abbrev pub refresh_key : DelegateGrant → Option Text
refresh_key g = key_of_hash g.user_id (truthy g.refresh_token_hash)

abbrev pub set_at : Option Text → DelegateGrant → Grants → Grants
set_at none g index = index
set_at (some k) g index = map_set index k g

abbrev pub delete_at : Option Text → Grants → Grants
delete_at none index = index
delete_at (some k) index = map_delete index k

abbrev pub empty : MemoryGrants
empty = record { by_id = []; by_user_and_hash = []; by_user_and_refresh_hash = [] }

unfoldable pub list : MemoryGrants → Text → List DelegateGrant
unfolding filter same_key
list s user_id = filter (λ g. same_key g.user_id user_id) (map_values s.by_id)

unfoldable pub get : MemoryGrants → Text → Option DelegateGrant
unfolding map_get
get s delegate_id = map_get s.by_id delegate_id

unfoldable pub get_by_access_token_hash : MemoryGrants → Text → Text → Option DelegateGrant
unfolding map_get user_hash_key
get_by_access_token_hash s user_id hash = map_get s.by_user_and_hash (user_hash_key user_id hash)

unfoldable pub get_by_refresh_token_hash : MemoryGrants → Text → Text → Option DelegateGrant
unfolding map_get user_hash_key
get_by_refresh_token_hash s user_id hash =
    map_get s.by_user_and_refresh_hash (user_hash_key user_id hash)

unfoldable pub insert : MemoryGrants → DelegateGrant → MemoryGrants
unfolding map_set user_hash_key
insert s g = record {
  by_id = map_set s.by_id g.delegate_id g;
  by_user_and_hash = set_at (access_key g) g s.by_user_and_hash;
  by_user_and_refresh_hash = set_at (refresh_key g) g s.by_user_and_refresh_hash;
}

abbrev pub without : MemoryGrants → Text → DelegateGrant → MemoryGrants
without s delegate_id g = record {
  by_id = map_delete s.by_id delegate_id;
  by_user_and_hash = delete_at (access_key g) s.by_user_and_hash;
  by_user_and_refresh_hash = delete_at (refresh_key g) s.by_user_and_refresh_hash;
}

abbrev remove_found : MemoryGrants → Text → Option DelegateGrant → MemoryGrants
remove_found s delegate_id none = s
remove_found s delegate_id (some g) = without s delegate_id g

unfoldable pub remove : MemoryGrants → Text → MemoryGrants
unfolding map_get map_delete user_hash_key
remove s delegate_id = remove_found s delegate_id (map_get s.by_id delegate_id)

abbrev pub retoken : MemoryGrants → Text → DelegateGrant → DelegateGrant → MemoryGrants
retoken s delegate_id g updated = record {
  by_id = map_set s.by_id delegate_id updated;
  by_user_and_hash =
      set_at (access_key updated) updated (delete_at (access_key g) s.by_user_and_hash);
  by_user_and_refresh_hash =
      set_at (refresh_key updated) updated (delete_at (refresh_key g) s.by_user_and_refresh_hash);
}

abbrev retoken_found :
    MemoryGrants → Text → Text → Option Text → Option DelegateGrant → MemoryGrants
retoken_found s delegate_id access refresh none = s
retoken_found s delegate_id access refresh (some g) =
    retoken s delegate_id g (with_tokens access refresh g)

unfoldable pub update_tokens : MemoryGrants → Text → Text → Option Text → MemoryGrants
unfolding map_get map_set map_delete user_hash_key
update_tokens s delegate_id access refresh =
    retoken_found s delegate_id access refresh (map_get s.by_id delegate_id)
