-- ===== src/Core/Validation/Files.antt =====
-- An encoded file node with a printable content type is valid.
use casfa.Base.{
  ℕ, zero, suc, ◌+◌, ◌-◌, ◌*◌, ◌≤◌, ◌≡◌, refl, true, Option, List, [], ◌∷◌, ◌++◌, map, length, take,
  drop, replicate, All, Bytes, IsU32, ok, arith, length-append, take-append_at, drop-append,
  drop-drop, le→ltb,
}
use casfa.Core.Words.{u32_bytes}
use casfa.Core.Text.{Text, TextDecoder}
use casfa.Core.Header.{create_header, get_node_type}
use casfa.Core.Node.{NodeKind, EncodedNode, finish, encode_file_node, until_zero, pad_content_type}
use casfa.Core.Node.Fields.{
  IsHash, NoZero, length-pad, until_zero-pad, info_bytes, length-info_bytes, content_type_text,
}
use casfa.Core.Node.RoundTrip.{payload_at, file_node_bytes, encode_file_node_fits}
use casfa.Core.Validation.{check_file, all_printable, all_zero, validate_node_structure}
use casfa.Core.Validation.Complete.{validate-encoded}
use casfa.Encoding.Cb32.{encode_cb32}

printable-NoZero : (ct : Bytes) → all_printable ct ≡ true → NoZero ct
unfolding all_printable
printable-NoZero [] h = tt
printable-NoZero (b ∷ bs) h = (λ z. ground (arith, z), printable-NoZero bs (ground (arith, h)))

all_zero-replicate : (n : ℕ) → all_zero (replicate n 0) ≡ true
unfolding all_zero
all_zero-replicate zero = refl
all_zero-replicate (suc n) = all_zero-replicate n

content_type_at :
    (file_size : ℕ) (ct content : Bytes)
    → length ct ≤ 56
    → take 56 (drop 8 (info_bytes file_size ct ++ content)) ≡ pad_content_type ct
unfolding u32_bytes
content_type_at n ct content h = take-append_at 56 (pad_content_type ct) content (length-pad ct h)

check_file-encoded :
    (text : TextDecoder) (content : Bytes) (ct : Text) (file_size : ℕ) (children : List Bytes)
    → All IsHash children
    → length ct ≤ 56
    → all_printable ct ≡ true
    → check_file
        (file_node_bytes content ct file_size children)
        (create_header 3 (64 + length content) (length children))
        (16 + length children * 16)
      ≡ ok tt
unfolding check_file
check_file-encoded text content ct n children hs short printable =
    let header = create_header 3 (64 + length content) (length children) in
    let children_end = 16 + length children * 16 in
    let buffer = file_node_bytes content ct n children in
    let at : drop children_end buffer ≡ info_bytes n ct ++ content =
      payload_at text header children (info_bytes n ct ++ content) hs in
    let field : take 56 (drop (children_end + 8) buffer) ≡ pad_content_type ct =
      rw (← drop-drop children_end 8 buffer, at) (content_type_at n ct content short) in
    let used : until_zero (pad_content_type ct) ≡ ct =
      until_zero-pad ct (56 - length ct) (printable-NoZero ct printable) in
    rw
      (
        field,
        le→ltb (64 + length content) 64 (omega arith),
        used,
        printable,
        drop-append ct (replicate (56 - length ct) 0),
        all_zero-replicate (56 - length ct),
      )
      refl

module _ (text : TextDecoder) (compute_key : Bytes → Bytes) where
  -- A file node is encoded and valid, with its payload as its size and its children, where the children
  -- are 16-byte hashes, the payload and the count fit 32 bits, and the content type is printable ASCII
  -- of at most 56 bytes.
  pub validate-file :
      (content : Bytes) (content_type : Option Text) (file_size : ℕ) (children : List Bytes)
      → All IsHash children
      → IsU32 (64 + length content)
      → IsU32 (length children)
      → length (content_type_text content_type) ≤ 56
      → all_printable (content_type_text content_type) ≡ true
      → (node : EncodedNode) × (encode_file_node compute_key content content_type file_size children
          ≡ ok node)
        × (validate_node_structure text node.bytes
            ≡ ok (record {
              kind = NodeKind.file;
              size = 64 + length content;
              child_keys = map encode_cb32 children;
            }))
  unfolding get_node_type
  validate-file content content_type n children hs hl hn short printable =
      let ct = content_type_text content_type in
      let payload = info_bytes n ct ++ content in
      let size : length payload ≡ 64 + length content =
        omega (arith, length-append (info_bytes n ct) content, length-info_bytes n ct short) in
      (
        finish compute_key (file_node_bytes content ct n children),
        encode_file_node_fits compute_key content content_type n children short,
        validate-encoded 3 (64 + length content) children payload (omega arith) hl hn hs size text
            NodeKind.file refl (check_file-encoded text content ct n children hs short printable),
      )
