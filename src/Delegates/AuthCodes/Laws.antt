-- ===== src/Delegates/AuthCodes/Laws.antt =====
-- What is read of the authorization codes.
use casfa.Base.{
  ℕ, ◌-◌, ◌≤◌, ◌≡◌, refl, ap, ◌∙◌, false, none, some, [], ◌∷◌, arith, Option-cases, Bool-cases, inl,
  inr,
}
use casfa.Core.Text.{Text}
use casfa.Storage.{same_key, same_key_self}
use casfa.Maps.{map_get, map_set, map_delete}
use casfa.Maps.Laws.{get-set, get-delete}
use casfa.Delegates.MemoryStore.Index.{some-injective}
use casfa.Delegates.AuthCodes.{
  AuthCodes, AuthCodeEntry, auth_code_ttl_ms, is_stale, clean, set, get, delete,
}

clean-none :
    (now : ℕ) (code : Text) (m : AuthCodes)
    → map_get m code ≡ none
    → map_get (clean now m) code ≡ none
unfolding clean map_get
clean-none now code [] e = refl
clean-none now code ((k, v) ∷ m) e = elim (Bool-cases (same_key k code)) [
  | inl same ↦ absurd (ground (arith, same, e))
  | inr apart ↦
      let rest : map_get (clean now m) code ≡ none = clean-none now code m (rw apart at e) in
      elim (Bool-cases (is_stale now v)) [
        | inl stale ↦ rw stale rest
        | inr fresh ↦ rw fresh (rw apart rest)
      ]
]

-- What is read was put and is at most five minutes old.
pub get-eq-some :
    (now later : ℕ) (code : Text) (m : AuthCodes) (e : AuthCodeEntry)
    → (get now later code m).0 ≡ some e
    → later - e.created_at ≤ auth_code_ttl_ms
unfolding get
get-eq-some now later code m e h = elim (Option-cases (map_get (clean now m) code)) [
  | inl gone ↦ absurd (let q : none ≡ some e = rw gone at h in cc)
  | inr (x, found) ↦ elim (Bool-cases (is_stale later x)) [
    | inl stale ↦ absurd (let q : none ≡ some e = rw stale at (rw found at h) in cc)
    | inr fresh ↦
        let same : some x ≡ some e = rw fresh at (rw found at h) in
        rw (← some-injective same) (ground (arith, fresh))
  ]
]

-- A code that was deleted is not read, at any time.
pub get-delete_code :
    (now later : ℕ) (code : Text) (m : AuthCodes) → (get now later code (delete code m)).0 ≡ none
unfolding get delete
get-delete_code now later code m =
    rw
      (clean-none now code (map_delete m code)
        (get-delete m code code ∙ rw (same_key_self code) refl))
      refl

clean-fresh :
    (now : ℕ) (code : Text) (m : AuthCodes) (e : AuthCodeEntry)
    → map_get m code ≡ some e
    → is_stale now e ≡ false
    → map_get (clean now m) code ≡ some e
unfolding clean map_get
clean-fresh now code [] e h fresh = cc
clean-fresh now code ((k, v) ∷ m) e h fresh = elim (Bool-cases (same_key k code)) [
  | inl same ↦
      let is : v ≡ e = some-injective (rw same at h) in
      rw (rw (← is) at fresh) (rw same (ap some is))
  | inr apart ↦
      let rest : map_get (clean now m) code ≡ some e =
        clean-fresh now code m e (rw apart at h) fresh in
      elim (Bool-cases (is_stale now v)) [
        | inl stale ↦ rw stale rest
        | inr kept ↦ rw kept (rw apart rest)
      ]
]

-- A code that was put is read for five minutes.
pub get-set_code :
    (at_set now later : ℕ) (code : Text) (e : AuthCodeEntry) (m : AuthCodes)
    → is_stale now e ≡ false
    → is_stale later e ≡ false
    → (get now later code (set at_set code e m)).0 ≡ some e
unfolding get set
get-set_code at_set now later code e m fresh fresh_later =
    rw
      (clean-fresh now code (map_set (clean at_set m) code e) e
        (get-set (clean at_set m) code code e ∙ rw (same_key_self code) refl) fresh)
      (rw fresh_later refl)
