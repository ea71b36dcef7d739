-- ===== src/Controller/Write.antt =====
-- Writing: `uploadFileNode`, `writeFile`, `putFileNode`.
use casfa.Base.{ℕ, ◌+◌, Bool, true, false, Option, none, some, List, [], ◌∷◌, length, Bytes}
use casfa.Base.Exec.{Exec, pure, lift, modify, ◌>>=◌, ◌>>◌}
use casfa.Core.Text.{Text}
use casfa.Core.Pascal.{slice}
use casfa.Core.Node.{EncodedNode, encode_file_node, encode_successor_node}
use casfa.Core.Topology.{
  Capacity, LayoutNode, Layouts, layout, nil, cons, compute_layout, compute_layout_size,
  count_layout_nodes,
}
use casfa.Controller.{ControllerError, from_core, from_split, hash_to_key}
use casfa.Storage.{Key, StorageProvider}

abbrev pub default_node_limit : ℕ
default_node_limit = 1048576

pub record WriteResult : Type 0 where
  pub key : Key
  pub size : ℕ
  pub node_count : ℕ

module _ (storage : StorageProvider) (compute_key : Bytes → Bytes) where
  abbrev pub Action : Type 0 → Type 0
  Action A = Exec storage.State ControllerError A

  -- `await storage.put(hashToKey(encoded.hash), encoded.bytes); return encoded.hash;`
  unfoldable pub store_node : EncodedNode → Action Bytes
  unfolding hash_to_key
  store_node encoded = do
    modify (λ s. storage.put s (hash_to_key encoded.hash) encoded.bytes)
    pure encoded.hash

  -- The end of `uploadFileNode`: a file node at the root, a successor node below it.
  unfoldable pub upload_chunk : Bool → Bytes → Text → ℕ → List Bytes → Action Bytes
  unfolding store_node
  upload_chunk true node_data content_type total children = do
    encoded ←
        lift (from_core (encode_file_node compute_key node_data (some content_type) total children))
    store_node encoded
  upload_chunk false node_data content_type total children =
      store_node (encode_successor_node compute_key node_data children)

  -- `uploadFileNode` and its loop over the children. A leaf is the case of no children: the encoders
  -- are then called without the optional argument, whose default is the empty list.
  unfoldable mutual
    unfolding upload_chunk

    pub upload_file_node : Bytes → Text → ℕ → LayoutNode → ℕ → Bool → Action Bytes
    upload_file_node content content_type total (layout depth data_size children) offset is_root =
        do
          child_hashes ← upload_children content content_type total children (offset + data_size)
          upload_chunk is_root (slice content offset data_size) content_type total child_hashes

    pub upload_children : Bytes → Text → ℕ → Layouts → ℕ → Action (List Bytes)
    upload_children content content_type total nil offset = pure []
    upload_children content content_type total (cons child rest) offset = do
      hash ← upload_file_node content content_type total child offset false
      hashes ← upload_children content content_type total rest (offset + compute_layout_size child)
      pure (hash ∷ hashes)

  -- `ctx.nodeLimit ?? DEFAULT_NODE_LIMIT`
  unfoldable pub get_node_limit : Option ℕ → ℕ
  get_node_limit none = default_node_limit
  get_node_limit (some limit) = limit

  unfoldable pub write_file : (ℕ → ℕ → Capacity) → Option ℕ → Bytes → Text → Action WriteResult
  unfolding get_node_limit hash_to_key
  write_file exp_log node_limit content content_type = do
    let size = length content
    l ← lift (from_split (compute_layout exp_log size (get_node_limit node_limit)))
    root_hash ← upload_file_node content content_type size l 0 true
    pure (record { key = hash_to_key root_hash; size = size; node_count = count_layout_nodes l })

  unfoldable pub put_file_node : Bytes → Option Text → Action Key
  unfolding store_node
  put_file_node content content_type = do
    encoded ←
        lift (from_core (encode_file_node compute_key content content_type (length content) []))
    hash ← store_node encoded
    pure (hash_to_key hash)
