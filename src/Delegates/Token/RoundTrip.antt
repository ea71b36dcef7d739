-- ===== src/Delegates/Token/RoundTrip.antt =====
-- A token is read back.
use casfa.Base.{
  ℕ, ◌/◌, ◌≡◌, refl, ◌∙◌, true, false, Bool, ◌&&◌, ◌||◌, none, some, [], ◌∷◌, ◌++◌, length, ◌==◌,
  leb, arith, All, Bool-cases, Option-cases, inl, inr, Bytes,
}
use casfa.Core.Text.{Text}
use casfa.Encoding.Hex.{length-bytes_to_hex}
use casfa.Drive.Paths.{is_empty}
use casfa.Delegates.{IsDigest}
use casfa.Delegates.MemoryStore.Index.{some-injective}
use casfa.Delegates.Token.{
  TokenPayload, TokenPlatform, url_char, url_chars, drop_padding, to_url, plain_char, from_url,
  split_dot, generate_random_token, create_delegate_access_token, decode_delegate_token_payload,
  read_parts, parse_json, sha256_hex,
}

-- The characters of Base64, with the padding.
abbrev pub is_base64_char : ℕ → Bool
is_base64_char c =
    (leb b'A' c && leb c b'Z' || leb b'a' c && leb c b'z')
    || (leb b'0' c && leb c b'9' || (c == b'+' || (c == b'/' || c == b'=')))

abbrev pub IsBase64 : Text → Type 0
IsBase64 s = All (λ c. is_base64_char c ≡ true) s

-- What the tokens rely on: digests of 32 bytes, `btoa` writes Base64, `atob` reads it back without its
-- padding, and JSON reads back what it wrote, which is not empty.
pub record IsTokenPlatform (platform : TokenPlatform) : Type 0 where
  pub digest : (text : Text) → length (platform.sha256 text) ≡ 32
  pub btoa : (text base64 : Text) → platform.btoa text ≡ some base64 → IsBase64 base64
  pub btoa_bytes : (bytes : Bytes) → IsBase64 (platform.btoa_bytes bytes)
  pub atob-btoa :
      (p : TokenPayload) (base64 : Text)
      → platform.btoa (platform.stringify p) ≡ some base64
      → platform.atob (drop_padding base64) ≡ some (platform.stringify p)
  pub nonempty :
      (p : TokenPayload) (base64 : Text)
      → platform.btoa (platform.stringify p) ≡ some base64
      → is_empty (drop_padding base64) ≡ false
  pub parse-stringify :
      (p : TokenPayload)
      → platform.parse (platform.stringify p)
        ≡ some (record { sub = some p.sub; dlg = some p.dlg; iat = some p.iat })

abbrev LacksDot : Text → Type 0
LacksDot s = All (λ c. (c == b'.') ≡ false) s

url_char-dot : (c : ℕ) → is_base64_char c ≡ true → (url_char c == b'.') ≡ false
url_char-dot c h = ground arith

plain-url_char : (c : ℕ) → is_base64_char c ≡ true → plain_char (url_char c) ≡ c
plain-url_char c h = ground arith

url_char-padding : (c : ℕ) → is_base64_char c ≡ true → (url_char c == b'=') ≡ (c == b'=')
url_char-padding c h = ground arith

empty-url_chars :
    (s : Text) → IsBase64 s → is_empty (drop_padding (url_chars s)) ≡ is_empty (drop_padding s)
unfolding drop_padding
empty-url_chars [] h = refl
empty-url_chars (c ∷ s) (h, hs) =
    rw (url_char-padding c h, empty-url_chars s hs)
      (elim (Bool-cases ((c == b'=') && is_empty (drop_padding s))) [
        | inl e ↦ rw e refl
        | inr e ↦ rw e refl
      ])

pub to_url-LacksDot : (s : Text) → IsBase64 s → LacksDot (to_url s)
unfolding to_url drop_padding
to_url-LacksDot [] h = tt
to_url-LacksDot (c ∷ s) (h, hs) =
    elim (Bool-cases ((url_char c == b'=') && is_empty (drop_padding (url_chars s)))) [
      | inl e ↦ rw e tt
      | inr e ↦ rw e (url_char-dot c h, to_url-LacksDot s hs)
    ]

-- The way back from a URL, but for the padding.
from_url-to_url : (s : Text) → IsBase64 s → from_url (to_url s) ≡ drop_padding s
unfolding to_url drop_padding from_url
from_url-to_url [] h = refl
from_url-to_url (c ∷ s) (h, hs) =
    let next : from_url (drop_padding (url_chars s)) ≡ drop_padding s = from_url-to_url s hs in
    rw (url_char-padding c h, empty-url_chars s hs)
      (elim (Bool-cases ((c == b'=') && is_empty (drop_padding s))) [
        | inl e ↦ rw e refl
        | inr e ↦ rw e (rw (plain-url_char c h, next) refl)
      ])

empty-from_url : (s : Text) → is_empty (from_url s) ≡ false → is_empty s ≡ false
unfolding from_url
empty-from_url [] h = cc
empty-from_url (c ∷ s) h = refl

split-whole : (s : Text) → LacksDot s → split_dot s ≡ s ∷ []
unfolding split_dot
split-whole [] h = refl
split-whole (c ∷ s) (h, hs) = rw h (rw (split-whole s hs) refl)

split-dot : (s t : Text) → LacksDot s → split_dot (s ++ (b'.' ∷ t)) ≡ s ∷ split_dot t
unfolding split_dot
split-dot [] t h = refl
split-dot (c ∷ s) t (h, hs) = rw h (rw (split-dot s t hs) refl)

module _ (platform : TokenPlatform) (p : IsTokenPlatform platform) where
  pub sha256_hex-IsDigest : (text : Text) → IsDigest (sha256_hex platform text)
  unfolding sha256_hex
  sha256_hex-IsDigest text =
      omega (arith, length-bytes_to_hex (platform.sha256 text), p.digest text)

  read_two_parts :
      (t q : Text) (payload : TokenPayload)
      → is_empty t ≡ false
      → parse_json platform (platform.atob (from_url t)) ≡ some payload
      → read_parts platform (t ∷ q ∷ []) ≡ some payload
  read_two_parts [] q payload n e = cc
  read_two_parts (c ∷ t) q payload n e = e

  -- A token that was created is read back.
  pub decode-create :
      (user id : Text) (now : ℕ) (random : Bytes) (token : Text)
      → create_delegate_access_token platform user id now random ≡ some token
      → decode_delegate_token_payload platform token
        ≡ some (record { sub = user; dlg = id; iat = now / 1000 })
  unfolding create_delegate_access_token decode_delegate_token_payload generate_random_token
  decode-create user id now random token e =
      let payload : TokenPayload = record { sub = user; dlg = id; iat = now / 1000 } in
      elim (Option-cases (platform.btoa (platform.stringify payload))) [
        | inl thrown ↦ absurd (let q : none ≡ some token = rw thrown at e in cc)
        | inr (base64, written) ↦
            let sig = to_url (platform.btoa_bytes random) in
            let same : some (to_url base64 ++ (b'.' ∷ sig)) ≡ some token = rw written at e in
            let good = p.btoa (platform.stringify payload) base64 written in
            let parts : split_dot (to_url base64 ++ (b'.' ∷ sig)) ≡ to_url base64 ∷ sig ∷ [] =
              split-dot (to_url base64) sig (to_url-LacksDot base64 good)
              ∙ rw
                  (split-whole sig
                    (to_url-LacksDot (platform.btoa_bytes random) (p.btoa_bytes random)))
                  refl in
            let back = from_url-to_url base64 good in
            rw (← some-injective same) (
              rw parts (
                read_two_parts (to_url base64) sig payload
                  (empty-from_url (to_url base64) (rw back (p.nonempty payload base64 written)))
                  (rw back (
                    rw (p.atob-btoa payload base64 written)
                      (rw (p.parse-stringify payload) refl)))))
      ]
