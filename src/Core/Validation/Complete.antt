-- ===== src/Core/Validation/Complete.antt =====
-- What the encoders write is valid.
use casfa.Base.{
  ℕ, ◌+◌, ◌*◌, ◌/◌, ◌<◌, ◌≡◌, refl, true, false, some, List, [], ◌∷◌, ◌++◌, map, ltb, length,
  concat, All, Bytes, IsU32, ok, arith, length-append, drop-append_at, append-nil, ==_self, le→ltb,
}
use casfa.Core.Words.{u32_bytes}
use casfa.Core.Text.{TextDecoder}
use casfa.Core.Header.{CasHeader, create_header, encode_header, get_node_type}
use casfa.Core.Header.RoundTrip.{IsHeader, decode_header-encode, length-encode_header}
use casfa.Core.Node.{NodeKind, kind_of_type, encode_successor_node}
use casfa.Core.Node.Fields.{IsHash, length-concat, read_children_at}
use casfa.Core.Validation.{
  Invalid, has_magic, check_header, check_kind, check_set, check_sorted, validate_node_structure,
}
use casfa.Core.ByteOrder.{le_bytes}
use casfa.Core.ByteOrder.Laws.{le_bytes-IsOrder}
use casfa.Core.Node.{EncodedNode, encode_set_node, has_duplicate}
use casfa.Core.Node.RoundTrip.{encode_set-eq-ok}
use casfa.Base.{is_ordered, sort-ordered, sort, length-sort, All-sort}
use casfa.Encoding.Cb32.{encode_cb32}

module _ (flags size : ℕ) (children : List Bytes) (payload : Bytes) (hf : flags < 65536)
    (hz : IsU32 size) (hn : IsU32 (length children)) (hs : All IsHash children)
    (hp : length payload ≡ size) where
  abbrev header : CasHeader
  header = create_header flags size (length children)

  abbrev buffer : Bytes
  buffer = encode_header header ++ (concat children ++ payload)

  buffer-magic : has_magic buffer ≡ true
  unfolding encode_header u32_bytes
  buffer-magic = refl

  header-IsHeader : IsHeader header
  header-IsHeader = record { magic = refl; flags = omega arith; size = hz; count = hn }

  length-buffer : length buffer ≡ 16 + length children * 16 + size
  length-buffer = omega (
    arith,
    length-append (encode_header header) (concat children ++ payload),
    length-append (concat children) payload,
    length-encode_header header,
    length-concat children hs,
  )

  pub check_header-encoded :
      (kind : NodeKind)
      → kind_of_type (get_node_type flags) ≡ some kind
      → check_header buffer ≡ ok (header, kind)
  unfolding check_header
  check_header-encoded kind k =
      let decoded = decode_header-encode header (concat children ++ payload) header-IsHeader in
      let reserved : flags / 65536 ≡ 0 = omega arith in
      rw (decoded, buffer-magic, k, reserved, length-buffer)
        (ground (arith, ==_self (16 + length children * 16 + size)))

  pub validate-encoded :
      (text : TextDecoder) (kind : NodeKind)
      → kind_of_type (get_node_type flags) ≡ some kind
      → check_kind text kind buffer header children (16 + length children * 16) ≡ ok tt
      → validate_node_structure text buffer
        ≡ ok (record { kind = kind; size = size; child_keys = map encode_cb32 children })
  unfolding validate_node_structure
  validate-encoded text kind k e =
      let hashes = read_children_at buffer 16 children payload hs (
        drop-append_at 16 (encode_header header) (concat children ++ payload)
          (length-encode_header header)) in
      rw (check_header-encoded kind k) (rw hashes (rw e refl))

module _ (text : TextDecoder) (compute_key : Bytes → Bytes) where
  -- An encoded successor node is valid, with its bytes' number as its size and its children, where the
  -- children are 16-byte hashes and the sizes fit 32 bits.
  pub validate-successor :
      (content : Bytes) (children : List Bytes)
      → All IsHash children
      → IsU32 (length content)
      → IsU32 (length children)
      → validate_node_structure text (encode_successor_node compute_key content children).bytes
        ≡ ok (record {
          kind = NodeKind.successor;
          size = length content;
          child_keys = map encode_cb32 children;
        })
  unfolding get_node_type encode_successor_node
  validate-successor content children hs hl hn =
      validate-encoded 2 (length content) children content (omega arith) hl hn hs refl text
        NodeKind.successor refl refl

pub check_sorted-ordered :
    (duplicate unsorted : Invalid) (xs : List Bytes)
    → is_ordered le_bytes xs ≡ true
    → has_duplicate xs ≡ false
    → check_sorted duplicate unsorted xs ≡ ok tt
unfolding check_sorted is_ordered has_duplicate le_bytes
check_sorted-ordered duplicate unsorted [] h d = refl
check_sorted-ordered duplicate unsorted (a ∷ []) h d = refl
check_sorted-ordered duplicate unsorted (a ∷ b ∷ rest) h d =
    ground (arith, check_sorted-ordered duplicate unsorted (b ∷ rest))

module _ (text : TextDecoder) (compute_key : Bytes → Bytes) where
  -- A set node that was encoded, of fewer than 2 ^ 32 children with 16-byte hashes, is valid, with the
  -- size 0 and the children in the order of their bytes.
  pub validate-set :
      (children : List Bytes) (node : EncodedNode)
      → All IsHash children
      → IsU32 (length children)
      → encode_set_node compute_key children ≡ ok node
      → validate_node_structure text node.bytes
        ≡ ok (record {
          kind = NodeKind.set;
          size = 0;
          child_keys = map encode_cb32 (sort le_bytes children);
        })
  unfolding get_node_type check_set
  validate-set children node hs hn e =
      let sorted = sort le_bytes children in
      let n : length sorted ≡ length children = length-sort le_bytes children in
      let (two, apart, r) = encode_set-eq-ok compute_key children node e in
      let count : ltb (length sorted) 2 ≡ false =
        le→ltb (length sorted) 2 (omega (arith, n, two)) in
      let checked : check_kind text NodeKind.set
            (encode_header (create_header 0 0 (length sorted)) ++ (concat sorted ++ []))
            (create_header 0 0 (length sorted)) sorted (16 + length sorted * 16)
          ≡ ok tt =
        rw count (
          check_sorted-ordered Invalid.duplicate_child Invalid.unsorted_children sorted
            (sort-ordered le_bytes le_bytes-IsOrder.total children) apart) in
      rw (r, ← n, ← append-nil (concat sorted))
        (validate-encoded 0 0 sorted [] (omega arith) (omega arith) (rw n hn)
          (All-sort le_bytes IsHash children hs) refl text NodeKind.set refl checked)
