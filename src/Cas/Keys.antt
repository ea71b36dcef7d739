-- ===== src/Cas/Keys.antt =====
-- The keys of nodes are not the keys of the meta blobs, and the sets of keys.
use casfa.Base.{
  ◌≡◌, refl, sym, ◌∙◌, true, false, List, [], ◌∷◌, ◌++◌, Bytes, arith, Bool-cases, inl, inr, ◌||◌,
}
use casfa.Encoding.Cb32.{is_valid_cb32}
use casfa.Encoding.Cb32.Alphabet.{valid-encode}
use casfa.Controller.{hash_to_key}
use casfa.Storage.{Key, same_key, same_key_iff}
use casfa.Cas.{retained_blob, new_keys_blob, times_blob, meta_blob, includes, add_key, to_set}

-- A key that no node has: it is no Base32 text.
abbrev pub IsReserved : Key → Type 0
IsReserved key = is_valid_cb32 key ≡ false

pub retained_blob-IsReserved : IsReserved retained_blob
unfolding is_valid_cb32
retained_blob-IsReserved = refl

pub new_keys_blob-IsReserved : IsReserved new_keys_blob
unfolding is_valid_cb32
new_keys_blob-IsReserved = refl

pub times_blob-IsReserved : IsReserved times_blob
unfolding is_valid_cb32
times_blob-IsReserved = refl

pub meta_blob-IsReserved : IsReserved meta_blob
unfolding is_valid_cb32
meta_blob-IsReserved = refl

pub reserved-same_key :
    (key node_key : Key)
    → IsReserved key
    → is_valid_cb32 node_key ≡ true
    → same_key key node_key ≡ false
reserved-same_key key node_key r v = ground (arith, same_key_iff key node_key)

pub hash_to_key-valid : (hash : Bytes) → is_valid_cb32 (hash_to_key hash) ≡ true
unfolding hash_to_key
hash_to_key-valid hash = valid-encode hash

pub same_key_comm : (a b : Key) → same_key a b ≡ same_key b a
same_key_comm a b = elim (Bool-cases (same_key a b)) [
  | inl e ↦ e ∙ sym ((same_key_iff b a).1 (sym ((same_key_iff a b).0 e)))
  | inr e ↦ ground (arith, same_key_iff a b, same_key_iff b a)
]

-- Membership, as a proposition by recursion.
abbrev pub HasKey : List Key → Key → Type 0
HasKey ks k = includes ks k ≡ true

pub includes-append :
    (xs ys : List Key) (k : Key) → includes (xs ++ ys) k ≡ (includes xs k || includes ys k)
unfolding includes
includes-append [] ys k = refl
includes-append (x ∷ xs) ys k = ground (arith, includes-append xs ys k)

pub includes-add :
    (seen : List Key) (k j : Key) → includes (add_key seen k) j ≡ (includes seen j || same_key k j)
unfolding add_key includes
includes-add seen k j = ground (arith, includes-append seen (k ∷ []) j, same_key_iff k j)

pub includes-to_set :
    (seen ks : List Key) (j : Key)
    → includes (to_set seen ks) j ≡ (includes seen j || includes ks j)
unfolding to_set includes
includes-to_set seen [] j = ground arith
includes-to_set seen (k ∷ ks) j =
    ground (arith, includes-to_set (add_key seen k) ks j, includes-add seen k j)
