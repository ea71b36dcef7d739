-- ===== src/Delegates/AuthCodes.antt =====
-- packages/cell-delegates-server/src/auth-code-store.ts: the codes between authorization and exchange.
-- The arguments `now` and `later` are what the calls of `Date.now()` return.
pub mod Laws
use casfa.Base.{ℕ, ◌-◌, ◌*◌, List, [], ◌∷◌, Option, none, some, Bool, ltb, if◌then◌else◌}
use casfa.Core.Text.{Text}
use casfa.Maps.{map_get, map_set, map_delete}

pub record AuthCodeEntry : Type 0 where
  pub access_token : Text
  pub refresh_token : Text
  pub expires_in : ℕ
  pub code_challenge : Text
  pub code_challenge_method : Text
  pub redirect_uri : Text
  pub created_at : ℕ
  pub delegate_id : Option Text

abbrev pub AuthCodes : Type 0
AuthCodes = List (Text × AuthCodeEntry)

abbrev pub auth_code_ttl_ms : ℕ
auth_code_ttl_ms = 5 * 60 * 1000

-- `now - entry.createdAt > AUTH_CODE_TTL_MS`, false too where the entry is of a later time.
abbrev pub is_stale : ℕ → AuthCodeEntry → Bool
is_stale now entry = ltb auth_code_ttl_ms (now - entry.created_at)

unfoldable pub clean : ℕ → AuthCodes → AuthCodes
clean now [] = []
clean now ((k, v) ∷ m) = let rest = clean now m in if is_stale now v then rest else (k, v) ∷ rest

unfoldable pub set : ℕ → Text → AuthCodeEntry → AuthCodes → AuthCodes
unfolding clean map_set
set now code entry m = map_set (clean now m) code entry

abbrev unless_stale : ℕ → Option AuthCodeEntry → Option AuthCodeEntry
unless_stale later none = none
unless_stale later (some e) = if is_stale later e then none else some e

-- What `get` returns; the map that it leaves is the cleaned one.
unfoldable pub get : ℕ → ℕ → Text → AuthCodes → Option AuthCodeEntry × AuthCodes
unfolding clean map_get
get now later code m =
    let cleaned = clean now m in (unless_stale later (map_get cleaned code), cleaned)

unfoldable pub delete : Text → AuthCodes → AuthCodes
unfolding map_delete
delete code m = map_delete m code
