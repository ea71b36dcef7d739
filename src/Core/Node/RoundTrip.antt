-- ===== src/Core/Node/RoundTrip.antt =====
-- What `decodeNode` makes of the output of the four encoders.
use casfa.Base.{
  ℕ, ◌+◌, ◌*◌, ◌≤◌, ◌<◌, ◌≡◌, refl, false, Option, some, List, [], ◌++◌, arith, length, drop,
  concat, All, Bytes, IsU32, ok, drop-append_at, drop-drop, append-nil, sort, length-sort, All-sort,
}
use casfa.Core.Text.{Text, TextDecoder}
use casfa.Core.ByteOrder.{le_bytes}
use casfa.Core.Header.{CasHeader, create_header, encode_header, get_node_type}
use casfa.Core.Header.RoundTrip.{IsHeader, decode_header-encode, length-encode_header}
use casfa.Core.Node.{
  NodeKind, EncodedNode, finish, bare_node, decode_node, decode_payload, encode_set_node,
  encode_successor_node, encode_file_node, has_duplicate,
}
use casfa.Core.Node.Fields.{
  IsHash, length-concat, read_children_at, IsContentType, content_type_text, info_bytes,
  encode_file_info_fits, length-info_bytes, decode_file_info_at,
}

abbrev pub file_node_bytes : Bytes → Text → ℕ → List Bytes → Bytes
file_node_bytes content ct file_size children =
    encode_header (create_header 3 (64 + length content) (length children))
    ++ (concat children ++ (info_bytes file_size ct ++ content))

abbrev pub successor_node_bytes : Bytes → List Bytes → Bytes
successor_node_bytes content children =
    encode_header (create_header 2 (length content) (length children))
    ++ (concat children ++ content)

abbrev pub set_node_bytes : List Bytes → ℕ → Bytes
set_node_bytes sorted count = encode_header (create_header 0 0 count) ++ concat sorted

module _ (compute_key : Bytes → Bytes) where
  pub encode_successor_node_lem :
      (content : Bytes) (children : List Bytes)
      → encode_successor_node compute_key content children
        ≡ finish compute_key (successor_node_bytes content children)
  unfolding encode_successor_node
  encode_successor_node_lem content children = refl

  -- The encoder of file nodes fails only on a content type that is too long.
  pub encode_file_node_fits :
      (content : Bytes) (content_type : Option Text) (file_size : ℕ) (children : List Bytes)
      → length (content_type_text content_type) ≤ 56
      → encode_file_node compute_key content content_type file_size children
        ≡ ok (
            finish compute_key
              (file_node_bytes content (content_type_text content_type) file_size children))
  unfolding encode_file_node
  encode_file_node_fits content content_type n children h =
      rw (encode_file_info_fits n content_type h) refl

  -- The encoder of set nodes returns a node only for two children at least, no two neighbours equal once
  -- sorted, and the node is the header and the sorted children.
  pub encode_set-eq-ok :
      (children : List Bytes) (node : EncodedNode)
      → encode_set_node compute_key children ≡ ok node
      → (2 ≤ length children)
        × (has_duplicate (sort le_bytes children) ≡ false)
        × (node ≡ finish compute_key (set_node_bytes (sort le_bytes children) (length children)))
  unfolding encode_set_node
  encode_set-eq-ok children node e = ground arith

module _ (text : TextDecoder) where
  -- The common part: the header and the children are read back, and the payload stands behind them.
  pub decode_node-sections :
      (flags size : ℕ) (children : List Bytes) (payload : Bytes)
      → IsU32 flags
      → IsU32 size
      → IsU32 (length children)
      → All IsHash children
      → let h = create_header flags size (length children) in
        let buffer = encode_header h ++ (concat children ++ payload) in
        decode_node text buffer
        ≡ decode_payload text buffer h (get_node_type flags) children (16 + length children * 16)
  unfolding decode_node
  decode_node-sections flags size children payload hf hz hn hs =
      let h = create_header flags size (length children) in
      let rest = concat children ++ payload in
      let hashes =
        read_children_at (encode_header h ++ rest) 16 children payload hs
          (drop-append_at 16 (encode_header h) rest (length-encode_header h)) in
      let v : IsHeader h = record { magic = refl; flags = hf; size = hz; count = hn } in
      rw (decode_header-encode h rest v) (rw hashes refl)

  pub payload_at :
      (h : CasHeader) (children : List Bytes) (payload : Bytes)
      → All IsHash children
      → drop (16 + length children * 16) (encode_header h ++ (concat children ++ payload)) ≡ payload
  payload_at h children payload hs =
      rw
        (
          ← drop-drop 16 (length children * 16) (encode_header h ++ (concat children ++ payload)),
          drop-append_at 16 (encode_header h) (concat children ++ payload) (length-encode_header h),
        )
        (drop-append_at (length children * 16) (concat children) payload
          (length-concat children hs))

  pub decode-file_node_bytes :
      (content : Bytes) (ct : Text) (file_size : ℕ) (children : List Bytes)
      → All IsHash children
      → IsU32 (64 + length content)
      → IsU32 (length children)
      → file_size < 18446744073709551616
      → IsContentType text ct
      → decode_node text (file_node_bytes content ct file_size children)
        ≡ ok (record (bare_node NodeKind.file (64 + length content) children) {
          file_info = some (record { file_size = file_size; content_type = ct });
          content = some content;
        })
  unfolding get_node_type decode_payload
  decode-file_node_bytes content ct n children hs hl hn hz v =
      let h = create_header 3 (64 + length content) (length children) in
      let payload = info_bytes n ct ++ content in
      let offset = 16 + length children * 16 in
      let buffer = encode_header h ++ (concat children ++ payload) in
      let at : drop offset buffer ≡ payload = payload_at h children payload hs in
      let behind : drop (offset + 64) buffer ≡ content =
        rw (← drop-drop offset 64 buffer, at)
          (drop-append_at 64 (info_bytes n ct) content (length-info_bytes n ct v.short)) in
      rw (decode_node-sections 3 (64 + length content) children payload (omega arith) hl hn hs)
        (rw (decode_file_info_at text buffer offset n ct content hz v at, behind) refl)

  module _ (compute_key : Bytes → Bytes) where
    -- A successor node whose sizes fit 32 bits is read back with its bytes and its children, where the
    -- children are 16-byte hashes.
    pub decode-encode_successor :
        (content : Bytes) (children : List Bytes)
        → All IsHash children
        → IsU32 (length content)
        → IsU32 (length children)
        → decode_node text (encode_successor_node compute_key content children).bytes
          ≡ ok (record (bare_node NodeKind.successor (length content) children) {
            content = some content;
          })
    unfolding encode_successor_node get_node_type decode_payload
    decode-encode_successor content children hs hl hn =
        rw (decode_node-sections 2 (length content) children content (omega arith) hl hn hs) (
          rw (payload_at (create_header 2 (length content) (length children)) children content hs)
            refl)

    -- A file node is encoded and read back with its size, its content type, its bytes and its
    -- children, where the children are 16-byte hashes, the content type fits, the payload and the count fit 32 bits and the file size
    -- fits 64 bits.
    pub decode-encode_file :
        (content : Bytes) (content_type : Option Text) (file_size : ℕ) (children : List Bytes)
        → All IsHash children
        → IsU32 (64 + length content)
        → IsU32 (length children)
        → file_size < 18446744073709551616
        → IsContentType text (content_type_text content_type)
        → (node : EncodedNode) × (encode_file_node compute_key content content_type file_size
              children
            ≡ ok node)
          × (decode_node text node.bytes
              ≡ ok (record (bare_node NodeKind.file (64 + length content) children) {
                file_info = some (record {
                  file_size = file_size;
                  content_type = content_type_text content_type;
                });
                content = some content;
              }))
    decode-encode_file content content_type n children hs hl hn hz v =
        let ct = content_type_text content_type in
        (
          finish compute_key (file_node_bytes content ct n children),
          encode_file_node_fits compute_key content content_type n children v.short,
          decode-file_node_bytes content ct n children hs hl hn hz v,
        )

    -- A set node that was encoded is read back as its children in the order of their bytes, where the
    -- children are fewer than 2 ^ 32 hashes of 16 bytes.
    pub decode-encode_set :
        (children : List Bytes) (node : EncodedNode)
        → All IsHash children
        → IsU32 (length children)
        → encode_set_node compute_key children ≡ ok node
        → decode_node text node.bytes ≡ ok (bare_node NodeKind.set 0 (sort le_bytes children))
    unfolding get_node_type decode_payload
    decode-encode_set children node hs hn e =
        let sorted = sort le_bytes children in
        let n : length sorted ≡ length children = length-sort le_bytes children in
        let sections =
          decode_node-sections 0 0 sorted [] (omega arith) (omega arith) (rw n hn)
            (All-sort le_bytes IsHash children hs) in
        let (_, _, r) = encode_set-eq-ok compute_key children node e in
        rw (r, ← n, ← append-nil (concat sorted)) (rw sections refl)
