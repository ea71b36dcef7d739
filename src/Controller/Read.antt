-- ===== src/Controller/Read.antt =====
-- Reading: `getChunk`, `getNode`, `readFile`, `openFileStream`. These do not change the storage.
-- A traversal descends into children as long as they are there; the fuel bounds how deep.
use casfa.Base.{
  ℕ, zero, suc, Bool, true, false, Option, none, some, List, [], ◌∷◌, ◌++◌, if◌then◌else◌, Bytes,
  Result, ok, err, ◌>>=◌, concat,
}
use casfa.Core.Text.{Text, TextDecoder}
use casfa.Core.Node.{children_of, NodeKind, CasNode, decode_node}
use casfa.Controller.{key_to_hash_bytes, ControllerError, out_of_fuel, from_core, hash_to_key}
use casfa.Storage.{Key, StorageProvider}

-- `kind === "file" || kind === "successor"`
abbrev pub has_content : NodeKind → Bool
has_content NodeKind.set = false
has_content NodeKind.dict = false
has_content NodeKind.file = true
has_content NodeKind.successor = true

-- The part that `if (node.data) parts.push(node.data)` adds.
abbrev pub content_part : Option Bytes → List Bytes
content_part none = []
content_part (some bytes) = bytes ∷ []

-- `if (node.data && node.data.length > 0) controller.enqueue(node.data)`
abbrev pub content_chunk : Option Bytes → List Bytes
content_chunk none = []
content_chunk (some []) = []
content_chunk (some (b ∷ bs)) = (b ∷ bs) ∷ []

module _ (storage : StorageProvider) (text : TextDecoder) (s : storage.State) where
  unfoldable pub get_chunk : Key → Option Bytes
  get_chunk key = storage.get s key

  abbrev decode_found : Option Bytes → Result ControllerError (Option CasNode)
  decode_found none = ok none
  decode_found (some bytes) = do node ← from_core (decode_node text bytes); ok (some node)

  unfoldable pub get_node : Key → Result ControllerError (Option CasNode)
  get_node key = decode_found (storage.get s key)

  -- The loop of `makeDict`. It decodes each child for a size that nothing uses, and throws where a child
  -- is there and is no node.
  unfoldable pub resolve_entries : List (Text × Key) → Result ControllerError (List Bytes)
  unfolding get_node key_to_hash_bytes
  resolve_entries [] = ok []
  resolve_entries ((name, key) ∷ rest) = do
    hash ← key_to_hash_bytes key
    found ← get_node key
    hashes ← resolve_entries rest
    ok (hash ∷ hashes)

  -- `childNode && (childNode.kind === ... )`, and the recursive call where that holds.
  abbrev pub visit {ℓ} :
      {A : Type ℓ}
      → (CasNode → Result ControllerError (List A))
      → Option CasNode
      → Result ControllerError (List A)
  visit read none = ok []
  visit read (some node) = if has_content node.kind then read node else ok []

  -- The loop over the children, for both traversals.
  unfoldable pub read_each {ℓ} :
      {A : Type ℓ}
      → (CasNode → Result ControllerError (List A))
      → List Bytes
      → Result ControllerError (List A)
  unfolding hash_to_key
  read_each read [] = ok []
  read_each read (hash ∷ hashes) = do
    found ← get_node (hash_to_key hash)
    part ← visit read found
    rest ← read_each read hashes
    ok (part ++ rest)

  -- The concatenation of the parts is written part by part.
  unfoldable pub read_file_node_data : ℕ → CasNode → Result ControllerError Bytes
  unfolding read_each
  read_file_node_data zero node = err out_of_fuel
  read_file_node_data (suc fuel) node = do
    below ← read_each (read_file_node_data fuel) (children_of node.children)
    ok (concat (content_part node.content) ++ below)

  -- What `streamFileNodeData` enqueues, in order.
  unfoldable pub stream_file_node_data : ℕ → CasNode → Result ControllerError (List Bytes)
  unfolding read_each
  stream_file_node_data zero node = err out_of_fuel
  stream_file_node_data (suc fuel) node = do
    below ← read_each (stream_file_node_data fuel) (children_of node.children)
    ok (content_chunk node.content ++ below)

  abbrev pub read_found : ℕ → Option CasNode → Result ControllerError (Option Bytes)
  read_found fuel none = ok none
  read_found fuel (some node) =
      let whole : Result ControllerError (Option Bytes) = (do
        bytes ← read_file_node_data fuel node
        ok (some bytes)) in
      if has_content node.kind then whole else ok none

  unfoldable pub read_file : ℕ → Key → Result ControllerError (Option Bytes)
  unfolding get_node read_file_node_data
  read_file fuel key = do found ← get_node key; read_found fuel found

  abbrev pub stream_found : ℕ → Option CasNode → Result ControllerError (List Bytes)
  stream_found fuel none = ok []
  stream_found fuel (some node) =
      if has_content node.kind then stream_file_node_data fuel node else ok []

  -- The chunks of `openFileStream`, which closes with none where there is no file.
  unfoldable pub open_file_stream : ℕ → Key → Result ControllerError (List Bytes)
  unfolding get_node stream_file_node_data
  open_file_stream fuel key = do found ← get_node key; stream_found fuel found
