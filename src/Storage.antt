-- ===== src/Storage.antt =====
-- packages/storage-core: the interface of the storage backends. A key is the list of its characters.
-- `State` is what the backend holds; an asynchronous method is the step that it makes once it runs.
pub mod Memory
use casfa.Base.{
  ℕ, List, [], ◌∷◌, Bytes, Bool, true, false, ◌≡◌, ◌↔◌, Option, none, some, ◌&&◌, ◌==◌,
  if◌then◌else◌, refl, arith, ap, ==_iff,
}

abbrev pub Key : Type 0
Key = List ℕ

-- `===` on strings.
unfoldable pub same_key : Key → Key → Bool
same_key [] [] = true
same_key [] (b ∷ bs) = false
same_key (a ∷ as') [] = false
same_key (a ∷ as') (b ∷ bs) = a == b && same_key as' bs

pub same_key→eq : (a b : Key) → same_key a b ≡ true → a ≡ b
unfolding same_key
same_key→eq [] [] h = refl
same_key→eq [] (b ∷ bs) h = cc
same_key→eq (a ∷ x) [] h = cc
same_key→eq (a ∷ x) (b ∷ y) h = ground (arith, same_key→eq x y)

pub same_key_self : (a : Key) → same_key a a ≡ true
unfolding same_key
same_key_self [] = refl
same_key_self (a ∷ x) = ground (arith, same_key_self x)

pub same_key_iff : (a b : Key) → (same_key a b ≡ true) ↔ (a ≡ b)
same_key_iff a b = (same_key→eq a b, λ e. rw e (same_key_self b))

-- get, put and del, with the laws that a client relies on.
pub record StorageProvider : Type 1 where
  pub State : Type 0
  pub get : State → Key → Option Bytes
  pub put : State → Key → Bytes → State
  pub del : State → Key → State
  pub get-put :
      (s : State) (k j : Key) (value : Bytes)
      → get (put s k value) j ≡ (if same_key k j then some value else get s j)
  pub get-del : (s : State) (k j : Key) → get (del s k) j ≡ (if same_key k j then none else get s j)
