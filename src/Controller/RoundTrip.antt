-- ===== src/Controller/RoundTrip.antt =====
-- What `readFile` makes of a file that `writeFile` wrote.
use casfa.Base.{◌≡◌, ◌⊎◌, inl, inr, refl, ◌∙◌, some, List, [], ◌∷◌, ◌++◌, Bytes, All, IsByte, arith}
use casfa.Core.Node.Fields.{IsHash}
use casfa.Encoding.Cb32.RoundTrip.{decode-encode}
use casfa.Controller.{hash_to_key}
use casfa.Controller.Tree.{put_all}
use casfa.Storage.{Key, StorageProvider, same_key_iff, same_key_self}

abbrev pub In : Bytes → List Bytes → Type 0
In b [] = ⊥
In b (x ∷ xs) = (b ≡ x) ⊎ In b xs

pub In-append : (b : Bytes) (xs ys : List Bytes) → In b xs ⊎ In b ys → In b (xs ++ ys)
In-append b [] ys (inl h) = elim h [ ]
In-append b [] ys (inr h) = h
In-append b (x ∷ xs) ys (inl (inl e)) = inl e
In-append b (x ∷ xs) ys (inl (inr h)) = inr (In-append b xs ys (inl h))
In-append b (x ∷ xs) ys (inr h) = inr (In-append b xs ys (inr h))

pub In-last : (b : Bytes) (xs : List Bytes) → In b (xs ++ (b ∷ []))
In-last b [] = inl refl
In-last b (x ∷ xs) = inr (In-last b xs)

-- What the code relies on in a key provider: keys of 16 bytes.
pub record IsKeyProvider (compute_key : Bytes → Bytes) : Type 0 where
  pub size : (b : Bytes) → IsHash (compute_key b)
  pub bytes : (b : Bytes) → All IsByte (compute_key b)

-- No two different nodes of the list have one key.
abbrev pub NoCollision : (Bytes → Bytes) → List Bytes → Type 0
NoCollision compute_key nodes =
    (a b : Bytes) → In a nodes → In b nodes → compute_key a ≡ compute_key b → a ≡ b

-- Different hashes have different storage keys.
pub hash_to_key_injective :
    (g h : Bytes) → All IsByte g → All IsByte h → hash_to_key g ≡ hash_to_key h → g ≡ h
unfolding hash_to_key
hash_to_key_injective g h hg hh e = cc (decode-encode g hg, decode-encode h hh)

module _ (storage : StorageProvider) (compute_key : Bytes → Bytes)
    (provider : IsKeyProvider compute_key) where
  abbrev pub key_of : Bytes → Key
  key_of b = hash_to_key (compute_key b)

  key_of_collides : (a b : Bytes) → key_of a ≡ key_of b → compute_key a ≡ compute_key b
  key_of_collides a b e =
      hash_to_key_injective (compute_key a) (compute_key b) (provider.bytes a) (provider.bytes b) e

  -- A node stays readable while other nodes are put that do not collide with it.
  get-put_all_kept :
      (s : storage.State) (b : Bytes) (nodes : List Bytes)
      → ((a : Bytes) → In a nodes → compute_key a ≡ compute_key b → a ≡ b)
      → storage.get s (key_of b) ≡ some b
      → storage.get (put_all storage compute_key s nodes) (key_of b) ≡ some b
  unfolding put_all
  get-put_all_kept s b [] h e = e
  get-put_all_kept s b (a ∷ nodes) h e =
      get-put_all_kept (storage.put s (key_of a) a) b nodes (λ c m. h c (inr m))
        (ground (
          arith,
          storage.get-put s (key_of a) (key_of b) a,
          same_key_iff (key_of a) (key_of b),
          key_of_collides a b,
          h a (inl refl),
        ))

  -- Every node that was put can be read.
  pub get-put_all :
      (s : storage.State) (b : Bytes) (nodes : List Bytes)
      → NoCollision compute_key nodes
      → In b nodes
      → storage.get (put_all storage compute_key s nodes) (key_of b) ≡ some b
  unfolding put_all
  get-put_all s b [] h m = elim m [ ]
  get-put_all s b (a ∷ nodes) h (inl e) =
      get-put_all_kept (storage.put s (key_of a) a) b nodes (λ c m. h c b (inr m) (inl e))
        (storage.get-put s (key_of a) (key_of b) a ∙ rw (e, same_key_self (key_of a)) refl)
  get-put_all s b (a ∷ nodes) h (inr m) =
      get-put_all (storage.put s (key_of a) a) b nodes (λ c d u v. h c d (inr u) (inr v)) m
