-- ===== src/Controller/GetTree/Listed.antt =====
-- What `getTree` lists: entries of `nodes`, and the keys that wait.
use casfa.Base.{
  ◌≤◌, ◌≡◌, ◌⊎◌, refl, true, Option, none, some, List, [], ◌∷◌, ◌++◌, length, arith, if◌then◌else◌,
  inl, inr, Bool-cases,
}
use casfa.Storage.{Key, same_key, same_key_iff, same_key_self}
use casfa.Controller.RoundTrip.{In}
use casfa.Controller.GetTree.{Nodes, TreeNodeInfo, node_at, is_some, new_keys}

abbrev pub or_else {ℓ} : {A : Type ℓ} → Option A → Option A → Option A
or_else none b = b
or_else (some a) b = some a

pub node_at-append :
    (nodes : Nodes) (key : Key) (info : TreeNodeInfo) (k : Key)
    → node_at (nodes ++ ((key, info) ∷ [])) k
      ≡ or_else (node_at nodes k) (if same_key key k then some info else none)
unfolding node_at
node_at-append [] key info k = refl
node_at-append ((j, other) ∷ nodes) key info k = elim (Bool-cases (same_key j k)) [
  | inl e ↦ rw e refl
  | inr e ↦ rw e (node_at-append nodes key info k)
]

-- The entries that were there stay, and the new one is there.
pub listed-stays :
    (nodes : Nodes) (key : Key) (info : TreeNodeInfo) (k : Key)
    → is_some (node_at nodes k) ≡ true
    → is_some (node_at (nodes ++ ((key, info) ∷ [])) k) ≡ true
listed-stays nodes key info k h = ground (arith, node_at-append nodes key info k, h)

pub listed-added :
    (nodes : Nodes) (key : Key) (info : TreeNodeInfo)
    → is_some (node_at (nodes ++ ((key, info) ∷ [])) key) ≡ true
listed-added nodes key info = ground (arith, node_at-append nodes key info key, same_key_self key)

pub listed-cases :
    (nodes : Nodes) (key : Key) (info : TreeNodeInfo) (k : Key)
    → is_some (node_at (nodes ++ ((key, info) ∷ [])) k) ≡ true
    → (is_some (node_at nodes k) ≡ true) ⊎ (key ≡ k)
listed-cases nodes key info k h = elim (Bool-cases (same_key key k)) [
  | inl e ↦ inr ((same_key_iff key k).0 e)
  | inr e ↦ inl (ground (arith, node_at-append nodes key info k, h, e))
]

pub In-new_keys :
    (nodes : Nodes) (keys : List Key) (k : Key)
    → In k keys
    → In k (new_keys nodes keys) ⊎ (is_some (node_at nodes k) ≡ true)
unfolding new_keys
In-new_keys nodes [] k m = elim m [ ]
In-new_keys nodes (key ∷ keys) k (inl e) = elim (Bool-cases (is_some (node_at nodes key))) [
  | inl i ↦ inr (rw e i)
  | inr i ↦ inl (rw i (inl e))
]
In-new_keys nodes (key ∷ keys) k (inr m) = elim (In-new_keys nodes keys k m) [
  | inl later ↦ elim (Bool-cases (is_some (node_at nodes key))) [
    | inl i ↦ inl (rw i later)
    | inr i ↦ inl (rw i (inr later))
  ]
  | inr i ↦ inr i
]

pub length-new_keys : (nodes : Nodes) (keys : List Key) → length (new_keys nodes keys) ≤ length keys
unfolding new_keys
length-new_keys nodes [] = omega arith
length-new_keys nodes (key ∷ keys) = ground (arith, length-new_keys nodes keys)
