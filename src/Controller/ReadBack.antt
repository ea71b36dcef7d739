-- ===== src/Controller/ReadBack.antt =====
-- Reading the nodes of a tree that a storage holds.
use casfa.Base.{
  ℕ, zero, suc, ◌+◌, ◌*◌, ◌≤◌, ◌<◌, ◌≡◌, inl, inr, refl, ap, ◌∙◌, Bool, true, false, some, List, [],
  ◌∷◌, ◌++◌, length, Bytes, Result, ok, append-nil, All, arith, drop-drop, take-add, length-take,
  drop,
}
use casfa.Core.Text.{Text, TextDecoder}
use casfa.Core.Pascal.{slice}
use casfa.Core.Node.{CasNode, present, decode_node}
use casfa.Core.Node.Fields.{IsHash, IsContentType}
use casfa.Core.Node.RoundTrip.{
  decode-file_node_bytes, decode-encode_successor, encode_successor_node_lem,
}
use casfa.Core.Topology.{LayoutNode, Layouts, layout, nil, cons, compute_layout_size, layouts_size}
use casfa.Core.Topology.Layout.{Fits, AllFit, height, heights, layouts_count}
use casfa.Controller.{ControllerError, hash_to_key}
use casfa.Controller.Tree.{chunk_bytes, tree_bytes, tree_hashes, written, written_below}
use casfa.Controller.RoundTrip.{In, In-append, In-last, IsKeyProvider}
use casfa.Core.Node.{children_of}
use casfa.Controller.Read.{has_content, get_node, read_each, read_file_node_data}
use casfa.Storage.{Key, StorageProvider}

slice-add :
    (b : Bytes) (offset n m : ℕ)
    → slice b offset n ++ slice b (offset + n) m ≡ slice b offset (n + m)
slice-add b offset n m = rw (← drop-drop offset n b) (take-add n m (drop offset b))

children_of-present : (hashes : List Bytes) → children_of (present hashes) ≡ hashes
children_of-present [] = refl
children_of-present (h ∷ hs) = refl

module _ (storage : StorageProvider) (text : TextDecoder) (compute_key : Bytes → Bytes)
    (provider : IsKeyProvider compute_key) (content : Bytes) (content_type : Text) (total space : ℕ)
    (valid : IsContentType text content_type) (total_small : total < 18446744073709551616)
    (space_small : space + 64 < 4294967296) (s : storage.State) where
  abbrev pub Stored : List Bytes → Type 0
  Stored nodes = (b : Bytes) → In b nodes → storage.get s (hash_to_key (compute_key b)) ≡ some b

  tree_hashes-IsHash :
      (children : Layouts) (offset : ℕ)
      → All IsHash (tree_hashes compute_key content content_type total children offset)
  unfolding tree_hashes
  tree_hashes-IsHash nil offset = tt
  tree_hashes-IsHash (cons child rest) offset = (provider.size _, tree_hashes-IsHash rest _)

  length-tree_hashes :
      (children : Layouts) (offset : ℕ)
      → length (tree_hashes compute_key content content_type total children offset)
        ≡ layouts_count children
  unfolding tree_hashes
  length-tree_hashes nil offset = refl
  length-tree_hashes (cons child rest) offset = ap suc (length-tree_hashes rest _)

  -- A chunk decodes to a node that holds its bytes and its children.
  record IsChunk (node : CasNode) (node_data : Bytes) (hashes : List Bytes) : Type 0 where
    kind : has_content node.kind ≡ true
    stored : node.content ≡ some node_data
    below : children_of node.children ≡ hashes

  decode-chunk_bytes :
      (is_root : Bool) (node_data : Bytes) (hashes : List Bytes)
      → All IsHash hashes
      → length node_data + length hashes * 16 ≤ space
      → (node : CasNode) × (decode_node text
            (chunk_bytes compute_key content content_type total is_root node_data hashes)
          ≡ ok node)
        × IsChunk node node_data hashes
  decode-chunk_bytes true node_data hashes hs hl = (
    _,
    decode-file_node_bytes text node_data content_type total hashes hs (omega arith) (omega arith)
        total_small valid,
    record { kind = refl; stored = refl; below = children_of-present hashes },
  )
  decode-chunk_bytes false node_data hashes hs hl = (
    _,
    rw (encode_successor_node_lem compute_key node_data hashes) at
        (decode-encode_successor text compute_key node_data hashes hs (omega arith) (omega arith)),
    record { kind = refl; stored = refl; below = children_of-present hashes },
  )

  get_node_stored :
      (key : Key) (bytes : Bytes) (node : CasNode)
      → storage.get s key ≡ some bytes
      → decode_node text bytes ≡ ok node
      → get_node storage text s key ≡ ok (some node)
  unfolding get_node
  get_node_stored key bytes node e d = rw e (rw d refl)

  read_each_nil :
      (read : CasNode → Result ControllerError Bytes) → read_each storage text s read [] ≡ ok []
  unfolding read_each
  read_each_nil read = refl

  read_each_step :
      (read : CasNode → Result ControllerError Bytes) (node : CasNode) (hash : Bytes)
      (hashes : List Bytes) (part rest : Bytes)
      → get_node storage text s (hash_to_key hash) ≡ ok (some node)
      → has_content node.kind ≡ true
      → read node ≡ ok part
      → read_each storage text s read hashes ≡ ok rest
      → read_each storage text s read (hash ∷ hashes) ≡ ok (part ++ rest)
  unfolding read_each
  read_each_step read node hash hashes part rest g k p r = rw (g) (rw k (rw p (rw r refl)))

  read_node_step :
      (fuel : ℕ) (node : CasNode) (node_data : Bytes) (hashes : List Bytes) (rest : Bytes)
      → IsChunk node node_data hashes
      → read_each storage text s (read_file_node_data storage text s fuel) hashes ≡ ok rest
      → read_file_node_data storage text s (suc fuel) node ≡ ok (node_data ++ rest)
  unfolding read_file_node_data
  read_node_step fuel node node_data hashes rest c e =
      rw (c.below, c.stored) (rw e (rw (append-nil node_data) refl))

  -- The root of a tree is found, and reading it gives its part of the content.
  pub record ReadsBack (fuel : ℕ) (l : LayoutNode) (offset : ℕ) (is_root : Bool) : Type 0 where
    pub node : CasNode
    pub found :
        get_node storage text s (
          hash_to_key
            (compute_key (tree_bytes compute_key content content_type total l offset is_root)))
        ≡ ok (some node)
    pub kind : has_content node.kind ≡ true
    pub reads :
        read_file_node_data storage text s fuel node
        ≡ ok (slice content offset (compute_layout_size l))

  mutual
    unfolding tree_bytes tree_hashes written written_below compute_layout_size layouts_size

    pub read_tree :
        (l : LayoutNode) (offset : ℕ) (is_root : Bool) (fuel : ℕ)
        → height l ≤ fuel
        → Fits space l
        → Stored (written compute_key content content_type total l offset is_root)
        → ReadsBack fuel l offset is_root
    read_tree (layout depth n children) offset is_root zero h f st = absurd (omega arith)
    read_tree (layout depth n children) offset is_root (suc fuel) h f st =
        let node_data = slice content offset n in
        let hashes = tree_hashes compute_key content content_type total children (offset + n) in
        let room : length node_data + length hashes * 16 ≤ space = omega (
          arith,
          f.0,
          length-take n (drop offset content),
          length-tree_hashes children (offset + n),
        ) in
        let bytes = chunk_bytes compute_key content content_type total is_root node_data hashes in
        let before = written_below compute_key content content_type total children (offset + n) in
        let (node, decoded, chunk) =
          decode-chunk_bytes is_root node_data hashes (tree_hashes-IsHash children (offset + n))
            room in
        let below =
          read_below children (offset + n) fuel (omega arith) f.1
            (λ b m. st b (In-append b before (bytes ∷ []) (inl m))) in
        record {
          node = node;
          found =
              get_node_stored (hash_to_key (compute_key bytes)) bytes node
                (st bytes (In-last bytes before)) decoded;
          kind = chunk.kind;
          reads =
              read_node_step fuel node node_data hashes _ chunk below
              ∙ ap ok (slice-add content offset n (layouts_size children));
        }

    read_below :
        (children : Layouts) (offset fuel : ℕ)
        → heights children ≤ fuel
        → AllFit space children
        → Stored (written_below compute_key content content_type total children offset)
        → read_each storage text s
            (read_file_node_data storage text s fuel)
            (tree_hashes compute_key content content_type total children offset)
          ≡ ok (slice content offset (layouts_size children))
    read_below nil offset fuel h f st = read_each_nil (read_file_node_data storage text s fuel)
    read_below (cons child rest) offset fuel h f st =
        let size = compute_layout_size child in
        let here = written compute_key content content_type total child offset false in
        let later = written_below compute_key content content_type total rest (offset + size) in
        let first =
          read_tree child offset false fuel (omega arith) f.0
            (λ b m. st b (In-append b here later (inl m))) in
        let others =
          read_below rest (offset + size) fuel (omega arith) f.1
            (λ b m. st b (In-append b here later (inr m))) in
        read_each_step (read_file_node_data storage text s fuel) first.node
          (compute_key (tree_bytes compute_key content content_type total child offset false))
          (tree_hashes compute_key content content_type total rest (offset + size)) _ _ first.found
          first.kind first.reads others
        ∙ ap ok (slice-add content offset size (layouts_size rest))
