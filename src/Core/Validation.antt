-- ===== src/Core/Validation.antt =====
-- packages/core/src/validation.ts. A result that is not valid is its reason; the texts of the reasons are
-- left out. The checks of a node's structure stand twice in the code, in `validateNodeStructure` and at
-- the front of `validateNode`, in the same order; here they stand once.
pub mod Sound
pub mod Complete
pub mod Files
pub mod Dicts
pub mod Whole
mod Examples
use casfa.Base.{
  ℕ, zero, suc, ◌+◌, ◌*◌, ◌≤◌, Bool, true, false, ◌&&◌, Option, none, some, List, [], ◌∷◌, ◌++◌,
  map, ltb, leb, ◌==◌, not, if◌then◌else◌, length, drop, Bytes, Result, ok, err, guard, ◌>>=◌, ◌>>◌,
  get_or,
}
use casfa.Core.Errors.{CoreError}
use casfa.Core.Words.{get_uint16}
use casfa.Core.Text.{Text, TextDecoder}
use casfa.Core.Pascal.{slice}
use casfa.Core.ByteOrder.{compare_bytes}
use casfa.Core.SizeFlag.{compute_size_flag_byte}
use casfa.Core.Header.{
  CasHeader, header_size, hash_size, decode_header, get_node_type, reserved_bits,
}
use casfa.Core.Node.{
  NodeKind, fileinfo_size, content_type_max_length, kind_of_type, read_children, until_zero,
}
use casfa.Encoding.Cb32.{Cb32Error, encode_cb32, decode_cb32}
use casfa.Storage.{Key, same_key}
use Prim.Native.Nat.{lt, eq, gt}

pub record Validated : Type 0 where
  pub kind : NodeKind
  pub size : ℕ
  pub child_keys : List Key

pub data Invalid : Type 0 where
  too_small bad_magic unknown_type reserved_set length_mismatch children_exceed : Invalid
  set_too_small set_has_payload duplicate_child unsorted_children : Invalid
  info_too_small bad_content_type padding_not_zero : Invalid
  no_name_length no_name_content name_not_utf8 duplicate_name unsorted_names : Invalid
  header_failed : CoreError → Invalid
  size_flag_mismatch : ℕ → ℕ → Invalid
  hash_mismatch : Key → Key → Invalid
  missing_children : Validated → List Key → Invalid
  -- `keyToHash` throws on a key that is no Base32 text.
  bad_key : Cb32Error → Invalid
  -- A `DataView` that reads past its buffer throws.
  read_failed : CoreError → Invalid

abbrev from_core {ℓ} : {A : Type ℓ} → (CoreError → Invalid) → Result CoreError A → Result Invalid A
from_core as_invalid (ok a) = ok a
from_core as_invalid (err e) = err (as_invalid e)

abbrev pub from_key : Result Cb32Error Bytes → Result Invalid Bytes
from_key (ok hash) = ok hash
from_key (err e) = err (Invalid.bad_key e)

-- The four comparisons with MAGIC_BYTES.
abbrev pub has_magic : Bytes → Bool
has_magic (a ∷ b ∷ c ∷ d ∷ rest) = a == 0x43 && (b == 0x41 && (c == 0x53 && d == 0x01))
has_magic _ = false

abbrev known_kind : Option NodeKind → Result Invalid NodeKind
known_kind none = err Invalid.unknown_type
known_kind (some kind) = ok kind

-- Steps 1 to 6: the header and the length of the buffer.
unfoldable pub check_header : Bytes → Result Invalid (CasHeader × NodeKind)
unfolding decode_header get_node_type
check_header bytes = do
  guard (not (ltb (length bytes) header_size)) Invalid.too_small
  guard (has_magic bytes) Invalid.bad_magic
  header ← from_core Invalid.header_failed (decode_header bytes)
  kind ← known_kind (kind_of_type (get_node_type header.flags))
  guard (reserved_bits header.flags == 0) Invalid.reserved_set
  guard (length bytes == header_size + header.count * hash_size + header.size)
      Invalid.length_mismatch
  guard (not (ltb (length bytes) (header_size + header.count * hash_size))) Invalid.children_exceed
  ok (header, kind)

-- The loops over neighbours, of hashes and of names.
unfoldable pub check_sorted : Invalid → Invalid → List Bytes → Result Invalid (Unit {0})
unfolding compare_bytes
check_sorted duplicate unsorted [] = ok tt
check_sorted duplicate unsorted (a ∷ []) = ok tt
check_sorted duplicate unsorted (a ∷ b ∷ rest) =
    let later = check_sorted duplicate unsorted (b ∷ rest) in
    elim (compare_bytes a b) [ eq ↦ err duplicate | gt ↦ err unsorted | lt ↦ later ]

-- Step 8.
unfoldable pub check_set : CasHeader → List Bytes → Result Invalid (Unit {0})
unfolding check_sorted
check_set header children = do
  guard (not (ltb header.count 2)) Invalid.set_too_small
  guard (header.size == 0) Invalid.set_has_payload
  check_sorted Invalid.duplicate_child Invalid.unsorted_children children

-- The two loops over the 56 bytes of the content type.
unfoldable pub all_printable : Bytes → Bool
all_printable [] = true
all_printable (b ∷ bs) = leb 0x20 b && (leb b 0x7e && all_printable bs)

unfoldable pub all_zero : Bytes → Bool
all_zero [] = true
all_zero (b ∷ bs) = b == 0 && all_zero bs

-- Step 9 for file nodes.
unfoldable pub check_file : Bytes → CasHeader → ℕ → Result Invalid (Unit {0})
unfolding all_printable all_zero until_zero
check_file bytes header children_end = do
  guard (not (ltb header.size fileinfo_size)) Invalid.info_too_small
  let content_type = slice bytes (children_end + 8) content_type_max_length
  let used = until_zero content_type
  guard (all_printable used) Invalid.bad_content_type
  guard (all_zero (drop (length used) content_type)) Invalid.padding_not_zero

-- The keys for which the checker says no.
unfoldable pub missing_keys : (Key → Bool) → List Key → List Key
missing_keys exists [] = []
missing_keys exists (k ∷ ks) =
    let rest = missing_keys exists ks in if exists k then rest else k ∷ rest

abbrev pub no_missing : Validated → List Key → Result Invalid (Unit {0})
no_missing found [] = ok tt
no_missing found (k ∷ ks) = err (Invalid.missing_children found (k ∷ ks))

-- Step 12. The check is left out where there is no checker.
abbrev pub check_exists : Option (Key → Bool) → Validated → Result Invalid (Unit {0})
check_exists none found = ok tt
check_exists (some exists) found = no_missing found (missing_keys exists found.child_keys)

module _ (text : TextDecoder) where
  -- validatePascalString: the bytes consumed.
  unfoldable pub validate_pascal_string : Bytes → ℕ → Result Invalid ℕ
  validate_pascal_string buffer offset = do
    guard (not (ltb (length buffer) (offset + 2))) Invalid.no_name_length
    size ← from_core Invalid.read_failed (get_uint16 buffer offset)
    guard (not (ltb (length buffer) (offset + 2 + size))) Invalid.no_name_content
    guard (text.is_utf8 (slice buffer (offset + 2) size)) Invalid.name_not_utf8
    ok (2 + size)

  -- validatePascalStringsWithNames: a string that was consumed has 2 bytes of length in front.
  unfoldable pub validate_pascal_strings_with_names : Bytes → ℕ → ℕ → Result Invalid (List Text)
  unfolding validate_pascal_string
  validate_pascal_strings_with_names buffer offset zero = ok []
  validate_pascal_strings_with_names buffer offset (suc count) = do
    consumed ← validate_pascal_string buffer offset
    size ← from_core Invalid.read_failed (get_uint16 buffer offset)
    let name = text.decode (slice buffer (offset + 2) size)
    names ← validate_pascal_strings_with_names buffer (offset + consumed) count
    ok (name ∷ names)

  -- Steps 9 and 10 for dict nodes.
  unfoldable pub check_dict : Bytes → CasHeader → ℕ → Result Invalid (Unit {0})
  unfolding validate_pascal_strings_with_names check_sorted
  check_dict bytes header children_end = do
    names ← validate_pascal_strings_with_names bytes children_end header.count
    check_sorted Invalid.duplicate_name Invalid.unsorted_names names

  -- The step that is for the kind of the node.
  abbrev pub check_kind : NodeKind → Bytes → CasHeader → List Bytes → ℕ → Result Invalid (Unit {0})
  check_kind NodeKind.set bytes header children children_end = check_set header children
  check_kind NodeKind.dict bytes header children children_end = check_dict bytes header children_end
  check_kind NodeKind.successor bytes header children children_end = ok tt
  check_kind NodeKind.file bytes header children children_end = check_file bytes header children_end

  unfoldable pub validate_node_structure : Bytes → Result Invalid Validated
  unfolding encode_cb32 read_children
  validate_node_structure bytes = do
    (header, kind) ← check_header bytes
    let children_end = header_size + header.count * hash_size
    let children = read_children bytes header_size header.count
    check_kind kind bytes header children children_end
    ok (record { kind = kind; size = header.size; child_keys = map encode_cb32 children })

  unfoldable pub validate_node :
      (Bytes → Bytes) → Option (Key → Bool) → Bytes → Key → Result Invalid Validated
  unfolding missing_keys
  validate_node compute_key exists bytes expected_key = do
    found ← validate_node_structure bytes
    expected_hash ← from_key (decode_cb32 expected_key)
    let expected_flag = get_or expected_hash 0 0
    let actual_flag = compute_size_flag_byte (length bytes)
    guard (expected_flag == actual_flag) (Invalid.size_flag_mismatch expected_flag actual_flag)
    let actual_key = encode_cb32 (compute_key bytes)
    guard (same_key actual_key expected_key) (Invalid.hash_mismatch expected_key actual_key)
    check_exists exists found
    ok found
