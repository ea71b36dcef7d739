-- ===== src/Delegates/Oauth/Codes.antt =====
-- The exchange of an authorization code for the tokens.
use casfa.Base.{
  ℕ, ◌-◌, ◌≤◌, ◌≡◌, refl, sym, ap, true, none, some, Option-cases, Bool-cases, inl, inr,
}
use casfa.Core.Text.{Text}
use casfa.Delegates.{DelegateGrantStore}
use casfa.Delegates.Token.{TokenPlatform, verify_code_challenge}
use casfa.Delegates.AuthCodes.{AuthCodes, AuthCodeEntry, auth_code_ttl_ms, clean, get, delete}
use casfa.Delegates.AuthCodes.Laws.{get-eq-some, get-delete_code}
use casfa.Delegates.Requests.{failed, issued, redirect, thrown, invalid_grant, TokenBody}
use casfa.Delegates.Oauth.{TokenDraws, OauthState, body_of_entry, exchange}

pub issued-injective : (a b : TokenBody) → issued a ≡ issued b → a ≡ b
issued-injective a b e =
    ap (λ r. elim r [ failed n w ↦ a | redirect u ↦ a | issued body ↦ body | thrown ↦ a ]) e

get-after : (now later : ℕ) (code : Text) (m : AuthCodes) → (get now later code m).1 ≡ clean now m
unfolding get
get-after now later code m = refl

module _ (platform : TokenPlatform) (store : DelegateGrantStore) where
  -- What stands behind tokens that were issued for a code: an entry of the code that is read at that time
  -- and at most five minutes old, whose challenge the verifier meets.
  pub record IsExchanged (s t : OauthState platform store) (draws : TokenDraws)
      (code verifier : Text) (body : TokenBody) : Type 0 where
    pub entry : AuthCodeEntry
    pub read : (get draws.now draws.later code s.1.0).0 ≡ some entry
    pub young : draws.later - entry.created_at ≤ auth_code_ttl_ms
    pub verified :
        verify_code_challenge platform verifier entry.code_challenge entry.code_challenge_method
        ≡ true
    pub body_eq : body ≡ body_of_entry platform store entry
    pub after : t ≡ (s.0, (delete code (clean draws.now s.1.0), s.1.1))

  -- Tokens are issued only for a code in the store that is at most five minutes old, to who has the verifier
  -- of its challenge; the code is deleted and the grants stay as they are.
  pub exchange-IsExchanged :
      (s : OauthState platform store) (draws : TokenDraws) (code verifier : Text) (body : TokenBody)
      → (exchange platform store draws code verifier s).0 ≡ issued body
      → IsExchanged s (exchange platform store draws code verifier s).1 draws code verifier body
  unfolding exchange
  exchange-IsExchanged (grants, (codes, notified)) draws code verifier body e =
      elim (Option-cases ((get draws.now draws.later code codes).0)) [
        | inl gone ↦ absurd (let q : failed 400 invalid_grant ≡ issued body = rw gone at e in cc)
        | inr (entry, found) ↦
            elim (Bool-cases (
              verify_code_challenge platform verifier entry.code_challenge
                entry.code_challenge_method)) [
                  | inr wrong ↦ absurd (
                      let q : failed 400 invalid_grant ≡ issued body =
                        rw wrong at (rw found at e) in
                      cc)
                  | inl right ↦
                      let same : issued (body_of_entry platform store entry) ≡ issued body =
                        rw right at (rw found at e) in
                      record {
                        entry = entry;
                        read = found;
                        young = get-eq-some draws.now draws.later code codes entry found;
                        verified = right;
                        body_eq = sym (issued-injective _ _ same);
                        after =
                            rw found
                              (rw right (rw (get-after draws.now draws.later code codes) refl));
                      }
                ]
      ]

  refused_code :
      (s : OauthState platform store) (draws : TokenDraws) (code verifier : Text)
      → (get draws.now draws.later code s.1.0).0 ≡ none
      → (exchange platform store draws code verifier s).0 ≡ failed 400 invalid_grant
  unfolding exchange
  refused_code (grants, (codes, notified)) draws code verifier gone = rw gone refl

  -- A code is good for one exchange: after tokens were issued for it, every further exchange of it is
  -- refused, whatever the verifier, the times and the store of the grants.
  pub exchange-once :
      (s : OauthState platform store) (draws again : TokenDraws) (code verifier other : Text)
      (body : TokenBody)
      → (exchange platform store draws code verifier s).0 ≡ issued body
      → (grants : store.State)
      → (exchange platform store again code other
          (grants, (exchange platform store draws code verifier s).1.1)).0
        ≡ failed 400 invalid_grant
  exchange-once s draws again code verifier other body e grants =
      let x = exchange-IsExchanged s draws code verifier body e in
      refused_code (grants, (exchange platform store draws code verifier s).1.1) again code other
        (rw x.after (get-delete_code again.now again.later code (clean draws.now s.1.0)))
