-- ===== src/Core/Node.antt =====
-- packages/core/src/node.ts with the types of types.ts: encoding and decoding of nodes.
-- `compute_key` is the key provider, whose code is elsewhere.
pub mod Fields
pub mod RoundTrip
pub mod Directory
pub mod Canonical
mod Examples
use casfa.Base.{
  ℕ, zero, suc, ◌+◌, ◌-◌, ◌*◌, ◌/◌, ◌%◌, ◌≤◌, ◌≡◌, Bool, true, false, Option, none, some, List, [],
  ◌∷◌, ◌++◌, map, ltb, ◌==◌, not, if◌then◌else◌, length, take, drop, replicate, Bytes, Result, ok,
  err, guard, ◌>>=◌, ◌>>◌, sort,
}
use casfa.Core.Errors.{
  CoreError, out_of_range, unknown_node_type, content_type_too_long, set_too_few_children,
  set_duplicate_child, children_count_mismatch,
}
use casfa.Core.Words.{u32_bytes, get_uint32}
use casfa.Core.Text.{Text, TextDecoder}
use casfa.Core.Pascal.{slice, encode_pascal_strings, decode_pascal_strings, concat_bytes}
use casfa.Core.ByteOrder.{compare_bytes, le_bytes}
use casfa.Core.NodeType
use casfa.Core.Header.{
  CasHeader, hash_size, header_size, encode_header, decode_header, get_node_type, create_set_header,
  create_dict_header, create_successor_header, create_file_header,
}
use Prim.Native.Nat.{eq}
use mathlib.Core.List.{zip}

abbrev pub fileinfo_size : ℕ
fileinfo_size = 64

abbrev pub content_type_max_length : ℕ
content_type_max_length = 56

pub data NodeKind : Type 0 where
  set dict file successor : NodeKind

pub record FileInfo : Type 0 where
  pub file_size : ℕ
  pub content_type : Text

-- `content` is the field `data`.
pub record CasNode : Type 0 where
  pub kind : NodeKind
  pub size : ℕ
  pub file_info : Option FileInfo
  pub children : Option (List Bytes)
  pub child_names : Option (List Text)
  pub content : Option Bytes

pub record EncodedNode : Type 0 where
  pub bytes : Bytes
  pub hash : Bytes

abbrev pub Entry : Type 0
Entry = Text × Bytes

-- The 56 bytes of the content type: `new ArrayBuffer` is filled with zeros. An absent and an empty
-- content type are both skipped.
abbrev pub pad_content_type : Text → Bytes
pad_content_type text = text ++ replicate (content_type_max_length - length text) 0

abbrev content_type_bytes : Option Text → Result CoreError Bytes
content_type_bytes none = ok (pad_content_type [])
content_type_bytes (some text) = do
  guard (not (ltb content_type_max_length (length text))) content_type_too_long
  ok (pad_content_type text)

unfoldable pub encode_file_info : ℕ → Option Text → Result CoreError Bytes
encode_file_info file_size content_type = do
  let size_low = file_size % 4294967296
  let size_high = file_size / 4294967296 % 4294967296
  padded ← content_type_bytes content_type
  ok (u32_bytes size_low ++ (u32_bytes size_high ++ padded))

-- `subarray(0, indexOf(0))`, or all of it where there is no zero byte.
unfoldable pub until_zero : Bytes → Bytes
until_zero [] = []
until_zero (b ∷ bs) = if b == 0 then [] else b ∷ until_zero bs

-- The fields behind `new DataView(buffer, offset, 64)`, which throws where the buffer is too short.
decode_info_view : TextDecoder → Bytes → Result CoreError FileInfo
unfolding until_zero
decode_info_view text view = do
  guard (length view == fileinfo_size) out_of_range
  size_low ← get_uint32 view 0
  size_high ← get_uint32 view 4
  ok (record {
    file_size = size_low + size_high * 4294967296;
    content_type = text.decode (until_zero (drop 8 view));
  })

unfoldable pub decode_file_info : TextDecoder → Bytes → ℕ → Result CoreError FileInfo
unfolding decode_info_view
decode_file_info text buffer offset = decode_info_view text (slice buffer offset fileinfo_size)

-- Pairs of a name and its child, sorted by the bytes of the name.
unfoldable pub sort_children_by_name : List Text → List Bytes → List Entry
unfolding sort le_bytes
sort_children_by_name names children = sort (λ a b. le_bytes a.0 b.0) (zip names children)

-- The loop over neighbours that looks for equal ones.
unfoldable pub has_duplicate : List Bytes → Bool
unfolding compare_bytes
has_duplicate [] = false
has_duplicate (a ∷ []) = false
has_duplicate (a ∷ b ∷ rest) =
    let later = has_duplicate (b ∷ rest) in elim (compare_bytes a b) [ eq ↦ true | _ ↦ later ]

unfoldable pub sort_children_by_hash : List Bytes → Result CoreError (List Bytes)
unfolding sort le_bytes has_duplicate
sort_children_by_hash children = do
  let sorted = sort le_bytes children
  guard (not (has_duplicate sorted)) set_duplicate_child
  ok sorted

abbrev pub finish : (Bytes → Bytes) → Bytes → EncodedNode
finish compute_key node_bytes = record { bytes = node_bytes; hash = compute_key node_bytes }

module _ (compute_key : Bytes → Bytes) where
  unfoldable pub encode_set_node : List Bytes → Result CoreError EncodedNode
  unfolding sort_children_by_hash concat_bytes create_set_header
  encode_set_node children = do
    guard (not (ltb (length children) 2)) set_too_few_children
    sorted ← sort_children_by_hash children
    let header = encode_header (create_set_header (length children))
    ok (finish compute_key (header ++ concat_bytes sorted))

  unfoldable pub encode_dict_node : List Bytes → List Text → Result CoreError EncodedNode
  unfolding sort_children_by_name concat_bytes create_dict_header
  encode_dict_node children child_names = do
    guard (length children == length child_names) children_count_mismatch
    let sorted = sort_children_by_name child_names children
    let children_bytes = concat_bytes (map (λ (p : Entry). p.1) sorted)
    names_bytes ← encode_pascal_strings (map (λ (p : Entry). p.0) sorted)
    let header = encode_header (create_dict_header (length names_bytes) (length children))
    ok (finish compute_key (header ++ (children_bytes ++ names_bytes)))

  unfoldable pub encode_successor_node : Bytes → List Bytes → EncodedNode
  unfolding concat_bytes create_successor_header
  encode_successor_node content children =
      let header = encode_header (create_successor_header (length content) (length children)) in
      finish compute_key (header ++ (concat_bytes children ++ content))

  unfoldable pub encode_file_node :
      Bytes → Option Text → ℕ → List Bytes → Result CoreError EncodedNode
  unfolding concat_bytes create_file_header encode_file_info
  encode_file_node content content_type file_size children = do
    file_info ← encode_file_info file_size content_type
    let payload_size = fileinfo_size + length content
    let header = encode_header (create_file_header payload_size (length children))
    ok (finish compute_key (header ++ (concat_bytes children ++ (file_info ++ content))))

-- The loop that slices `count` hashes from the offset on.
unfoldable pub read_children : Bytes → ℕ → ℕ → List Bytes
read_children buffer offset zero = []
read_children buffer offset (suc count) =
    slice buffer offset hash_size ∷ read_children buffer (offset + hash_size) count

-- `children.length > 0 ? children : undefined`
abbrev pub present : List Bytes → Option (List Bytes)
present [] = none
present (c ∷ cs) = some (c ∷ cs)

-- `node.children`, or no children where the field is undefined.
abbrev pub children_of : Option (List Bytes) → List Bytes
children_of none = []
children_of (some hashes) = hashes

-- A node with the fields that every kind has; the others are `undefined`.
abbrev pub bare_node : NodeKind → ℕ → List Bytes → CasNode
bare_node kind size children = record {
  kind = kind;
  size = size;
  file_info = none;
  children = present children;
  child_names = none;
  content = none;
}

-- The `switch (nodeType)` of `decodeNode`, behind the children.
unfoldable pub decode_payload :
    TextDecoder → Bytes → CasHeader → ℕ → List Bytes → ℕ → Result CoreError CasNode
unfolding decode_pascal_strings decode_file_info
decode_payload text buffer header node_type children offset =
    if node_type == NodeType.set
    then ok (bare_node NodeKind.set header.size children)
    else if node_type == NodeType.dict
    then (do
      names ← decode_pascal_strings text buffer offset header.count
      ok (record (bare_node NodeKind.dict header.size children) { child_names = some names }))
    else if node_type == NodeType.successor
    then ok (record (bare_node NodeKind.successor header.size children) {
      content = some (drop offset buffer);
    })
    else if node_type == NodeType.file
    then (do
      info ← decode_file_info text buffer offset
      ok (record (bare_node NodeKind.file header.size children) {
        file_info = some info;
        content = some (drop (offset + fileinfo_size) buffer);
      }))
    else err unknown_node_type

unfoldable pub decode_node : TextDecoder → Bytes → Result CoreError CasNode
unfolding decode_header get_node_type read_children
decode_node text buffer = do
  header ← decode_header buffer
  let children = read_children buffer header_size header.count
  let offset = header_size + header.count * hash_size
  decode_payload text buffer header (get_node_type header.flags) children offset

abbrev is_ok : {A : Type 0} → Result CoreError A → Bool
is_ok (ok a) = true
is_ok (err e) = false

unfoldable pub is_valid_node : Bytes → Bool
unfolding decode_header
is_valid_node buffer =
    if ltb (length buffer) header_size then false else is_ok (decode_header buffer)

abbrev pub kind_of_type : ℕ → Option NodeKind
kind_of_type node_type =
    if node_type == NodeType.set
    then some NodeKind.set
    else if node_type == NodeType.dict
    then some NodeKind.dict
    else if node_type == NodeType.successor
    then some NodeKind.successor
    else if node_type == NodeType.file
    then some NodeKind.file
    else none

abbrev kind_of_header : Result CoreError CasHeader → Option NodeKind
kind_of_header (ok header) = kind_of_type (header.flags % 4)
kind_of_header (err e) = none

unfoldable pub get_node_kind : Bytes → Option NodeKind
unfolding decode_header
get_node_kind buffer =
    if ltb (length buffer) header_size then none else kind_of_header (decode_header buffer)
