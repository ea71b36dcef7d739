-- ===== src/Cas/Closure.antt =====
-- The invariant that `putNode` keeps: what is stored under the key of a node decodes, and its children
-- are stored.
use casfa.Base.{
  ◌≡◌, refl, sym, ◌∙◌, true, some, List, [], ◌∷◌, Bytes, All, All-weaken, arith, Result, ok, err,
  Result-cases, Bool-cases, inl, inr, ℕ, append-nil,
}
use casfa.Core.Text.{TextDecoder}
use casfa.Core.Node.{CasNode, decode_node}
use casfa.Controller.{hash_to_key}
use casfa.Core.Node.{children_of}
use casfa.Storage.{Key, StorageProvider, same_key}
use casfa.Cas.{from_core, Stream, bytes_from_stream, JsonCodec}
use casfa.Cas.Lookup.{has_node, check_children}
use casfa.Cas.Update.{Action, put_node, track_node}
use casfa.Cas.Keys.{hash_to_key-valid}
use casfa.Cas.Blobs.{MetaOnly, track_node-MetaOnly}

pub from_core-eq-ok :
    (r : Result casfa.Core.Errors.CoreError CasNode) (node : CasNode)
    → from_core r ≡ ok node
    → r ≡ ok node
from_core-eq-ok (ok a) node e = ground arith
from_core-eq-ok (err x) node e = cc

module _ (storage : StorageProvider) where
  abbrev pub HasChildren : storage.State → List Bytes → Type 0
  HasChildren s hashes = All (λ c. has_node storage s (hash_to_key c) ≡ true) hashes

  pub check_children-eq-ok :
      (s : storage.State) (hashes : List Bytes)
      → check_children storage s hashes ≡ ok tt
      → HasChildren s hashes
  unfolding check_children
  check_children-eq-ok s [] e = tt
  check_children-eq-ok s (c ∷ cs) e = ground (arith, check_children-eq-ok s cs)

  pub check_children-HasChildren :
      (s : storage.State) (hashes : List Bytes)
      → HasChildren s hashes
      → check_children storage s hashes ≡ ok tt
  unfolding check_children
  check_children-HasChildren s [] h = refl
  check_children-HasChildren s (c ∷ cs) h = rw (h.0) (check_children-HasChildren s cs h.1)

  -- A node that is there stays there where its key reads the same, and after a put.
  has_node-kept :
      (s t : storage.State) (k : Key)
      → storage.get t k ≡ storage.get s k
      → has_node storage s k ≡ true
      → has_node storage t k ≡ true
  unfolding has_node
  has_node-kept s t k e h = rw e h

  has_node-put :
      (s : storage.State) (j k : Key) (bytes : Bytes)
      → has_node storage s k ≡ true
      → has_node storage (storage.put s j bytes) k ≡ true
  unfolding has_node
  has_node-put s j k bytes h = elim (Bool-cases (same_key j k)) [
    | inl e ↦ let g = storage.get-put s j k bytes in rw (g) (rw e refl)
    | inr e ↦ let g = storage.get-put s j k bytes in rw (g) (rw e h)
  ]

  module _ (text : TextDecoder) where
    pub record IsComplete (s : storage.State) (bytes : Bytes) : Type 0 where
      pub node : CasNode
      pub decoded : decode_node text bytes ≡ ok node
      pub children : HasChildren s (children_of node.children)

    abbrev pub IsClosed : storage.State → Type 0
    IsClosed s =
        (hash bytes : Bytes) → storage.get s (hash_to_key hash) ≡ some bytes → IsComplete s bytes

    IsComplete-weaken :
        (s t : storage.State) (bytes : Bytes)
        → ((c : Bytes)
            → has_node storage s (hash_to_key c) ≡ true
            → has_node storage t (hash_to_key c) ≡ true)
        → IsComplete s bytes
        → IsComplete t bytes
    IsComplete-weaken s t bytes w v = record {
      node = v.node;
      decoded = v.decoded;
      children = All-weaken _ _ (children_of v.node.children) w v.children;
    }

    IsClosed-meta :
        (m : Action storage (Unit {0}))
        → MetaOnly storage m
        → (s : storage.State) → IsClosed s
        → IsClosed (m s).1
    IsClosed-meta m only s closed hash bytes g =
        IsComplete-weaken s (m s).1 bytes
          (λ c.
            has_node-kept s (m s).1 (hash_to_key c) (only s (hash_to_key c) (hash_to_key-valid c)))
          (closed hash bytes (sym (only s (hash_to_key hash) (hash_to_key-valid hash)) ∙ g))

    IsClosed-put :
        (s : storage.State) (key : Key) (bytes : Bytes)
        → IsComplete s bytes
        → IsClosed s
        → IsClosed (storage.put s key bytes)
    IsClosed-put s key bytes v closed hash found g =
        let kept = λ (c : Bytes). has_node-put s key (hash_to_key c) bytes in
        elim (Bool-cases (same_key key (hash_to_key hash))) [
          | inl e ↦
              let same : bytes ≡ found =
                ground (arith, storage.get-put s key (hash_to_key hash) bytes) in
              rw (← same) (IsComplete-weaken s (storage.put s key bytes) bytes kept v)
          | inr e ↦
              let old : storage.get s (hash_to_key hash) ≡ some found =
                ground (arith, storage.get-put s key (hash_to_key hash) bytes) in
              IsComplete-weaken s (storage.put s key bytes) found kept (closed hash found old)
        ]

    module _ (json : JsonCodec) (compute_key : Bytes → Bytes) where
      -- Whatever `putNode` is called with and whether it throws or not, the storage stays closed: every
      -- node in it decodes and has its children in it.
      pub put_node-IsClosed :
          (s : storage.State) (node_key : Key) (body : Stream) (now : ℕ)
          → IsClosed s
          → IsClosed (put_node storage json text compute_key node_key body now s).1
      unfolding put_node
      put_node-IsClosed s node_key body now closed =
          let bytes = bytes_from_stream body in
          elim (Result-cases (from_core (decode_node text bytes))) [
            | inr u ↦ rw (u.1) closed
            | inl u ↦
                rw (u.1)
                  (elim (Result-cases (check_children storage s (children_of (u.0).children))) [
                    | inr v ↦ rw (v.1) closed
                    | inl v ↦
                        rw (v.1)
                          (elim (Bool-cases (same_key (hash_to_key (compute_key bytes)) node_key)) [
                            | inr e ↦ rw e closed
                            | inl e ↦
                                let complete : IsComplete s bytes = record {
                                  node = u.0;
                                  decoded = from_core-eq-ok _ (u.0) (u.1);
                                  children =
                                      check_children-eq-ok s (children_of (u.0).children) (v.1);
                                } in
                                rw (e, append-nil bytes)
                                  (IsClosed-meta (track_node storage json node_key now)
                                    (track_node-MetaOnly storage json node_key now)
                                    (storage.put s node_key bytes)
                                    (IsClosed-put s node_key bytes complete closed))
                          ])
                  ])
          ]
