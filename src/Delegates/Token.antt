-- ===== src/Delegates/Token.antt =====
-- packages/cell-delegates-server/src/token.ts: ids, tokens and their digests. What the functions call of
-- the platform is the record TokenPlatform; random bytes and times are arguments.
pub mod RoundTrip
use casfa.Base.{
  ℕ, ◌+◌, ◌/◌, ◌≡◌, Bool, true, false, Option, none, some, List, [], ◌∷◌, ◌++◌, length, Bytes, ◌==◌,
  ◌&&◌, ◌||◌, leb, if◌then◌else◌, All,
}
use casfa.Core.Text.{Text}
use casfa.Storage.{same_key}
use casfa.Encoding.Cb32.{codes, encode_cb32}
use casfa.Encoding.Hex.{bytes_to_hex}
use casfa.Drive.Paths.{is_empty}

-- The payload that is written, and what is found in a JSON object that is read: the strings `sub` and
-- `dlg`, none where they are missing or something else, and the number `iat`.
pub record TokenPayload : Type 0 where
  pub sub : Text
  pub dlg : Text
  pub iat : ℕ

pub record ParsedPayload : Type 0 where
  pub sub : Option Text
  pub dlg : Option Text
  pub iat : Option ℕ

-- `crypto.subtle.digest`, `btoa` and `atob` (none where they throw), `btoa` of a string made of bytes, and
-- `JSON.stringify` and `JSON.parse` of a payload (none where it throws or gives null).
pub record TokenPlatform : Type 0 where
  pub sha256 : Text → Bytes
  pub btoa : Text → Option Text
  pub btoa_bytes : Bytes → Text
  pub atob : Text → Option Text
  pub stringify : TokenPayload → Text
  pub parse : Text → Option ParsedPayload

-- replace(/\+/g, "-").replace(/\//g, "_")
abbrev pub url_char : ℕ → ℕ
url_char c = if c == b'+' then b'-' else if c == b'/' then b'_' else c

-- replace(/=+$/, "")
unfoldable pub drop_padding : Text → Text
drop_padding [] = []
drop_padding (c ∷ s) =
    let rest = drop_padding s in if c == b'=' && is_empty rest then [] else c ∷ rest

abbrev pub url_chars : Text → Text
url_chars [] = []
url_chars (c ∷ s) = url_char c ∷ url_chars s

unfoldable pub to_url : Text → Text
unfolding drop_padding
to_url s = drop_padding (url_chars s)

-- replace(/-/g, "+").replace(/_/g, "/")
abbrev pub plain_char : ℕ → ℕ
plain_char c = if c == b'-' then b'+' else if c == b'_' then b'/' else c

unfoldable pub from_url : Text → Text
from_url [] = []
from_url (c ∷ s) = plain_char c ∷ from_url s

abbrev pub onto_first : ℕ → List Text → List Text
onto_first c [] = (c ∷ []) ∷ []
onto_first c (p ∷ ps) = (c ∷ p) ∷ ps

-- split(".")
unfoldable pub split_dot : Text → List Text
split_dot [] = [] ∷ []
split_dot (c ∷ s) = let rest = split_dot s in if c == b'.' then [] ∷ rest else onto_first c rest

-- `crockfordBase32Encode` has the loop of `encodeCB32`.
abbrev pub crockford_base32_encode : Bytes → Text
crockford_base32_encode bytes = encode_cb32 bytes

-- From the 16 bytes of `randomUUID()`.
unfoldable pub generate_delegate_id : Bytes → Text
generate_delegate_id bytes = codes "dlg_" ++ crockford_base32_encode bytes

module _ (platform : TokenPlatform) where
  unfoldable pub sha256_hex : Text → Text
  unfolding bytes_to_hex
  sha256_hex text = bytes_to_hex (platform.sha256 text)

  -- From 32 random bytes.
  unfoldable pub generate_random_token : Bytes → Text
  unfolding to_url
  generate_random_token bytes = to_url (platform.btoa_bytes bytes)

  abbrev signed : Option Text → Text → Option Text
  signed none sig = none
  signed (some payload) sig = some (to_url payload ++ (b'.' ∷ sig))

  -- At a time in milliseconds, with the random bytes of the signature; none where `btoa` throws.
  unfoldable pub create_delegate_access_token : Text → Text → ℕ → Bytes → Option Text
  unfolding to_url generate_random_token
  create_delegate_access_token user_id delegate_id now random =
      signed
        (platform.btoa
          (platform.stringify (record { sub = user_id; dlg = delegate_id; iat = now / 1000 })))
        (generate_random_token random)

  abbrev iat_of : Option ℕ → ℕ
  iat_of none = 0
  iat_of (some iat) = iat

  abbrev pub checked_payload : Option Text → Option Text → Option ℕ → Option TokenPayload
  checked_payload none dlg iat = none
  checked_payload (some sub) none iat = none
  checked_payload (some sub) (some dlg) iat =
      some (record { sub = sub; dlg = dlg; iat = iat_of iat })

  abbrev pub parsed_payload : Option ParsedPayload → Option TokenPayload
  parsed_payload none = none
  parsed_payload (some p) = checked_payload p.sub p.dlg p.iat

  abbrev pub parse_json : Option Text → Option TokenPayload
  parse_json none = none
  parse_json (some json) = parsed_payload (platform.parse json)

  abbrev pub read_parts : List Text → Option TokenPayload
  read_parts [] = none
  read_parts (p ∷ []) = none
  read_parts ([] ∷ q ∷ []) = none
  read_parts ((c ∷ p) ∷ q ∷ []) = parse_json (platform.atob (from_url (c ∷ p)))
  read_parts (p ∷ q ∷ r ∷ ps) = none

  unfoldable pub decode_delegate_token_payload : Text → Option TokenPayload
  unfolding split_dot from_url
  decode_delegate_token_payload token = read_parts (split_dot token)

  unfoldable pub verify_code_challenge : Text → Text → Text → Bool
  unfolding to_url same_key
  verify_code_challenge verifier challenge method =
      if same_key method (codes "S256")
      then same_key (to_url (platform.btoa_bytes (platform.sha256 verifier))) challenge
      else same_key verifier challenge
