-- ===== src/Core/Validation/Examples.antt =====
-- Concrete nodes, and the theorems about validation at them.
use casfa.Base.{
  ℕ, ◌≡◌, refl, arith, Bool, true, false, List, [], ◌∷◌, Bytes, Result, ok, err, some, none,
  replicate, length, map, sort, All, IsByte,
}
use casfa.Core.Text.{ascii_decoder}
use casfa.Core.ByteOrder.{le_bytes}
use casfa.Core.SizeFlag.{compute_size_flag_byte}
use casfa.Core.Pascal.{encode_pascal_strings}
use casfa.Core.Node.{
  NodeKind, EncodedNode, Entry, finish, encode_successor_node, encode_set_node, encode_file_node,
}
use casfa.Core.Node.RoundTrip.{set_node_bytes}
use casfa.Core.Node.Directory.{name_of, sort_entries, encode_entries, dict_node_bytes}
use casfa.Core.Validation.{Invalid, Validated, validate_node_structure, validate_node}
use casfa.Core.Validation.Sound.{Decodes, validate-Decodes}
use casfa.Core.Validation.Complete.{validate-successor}
use casfa.Core.Validation.Whole.{validate_node-accepts}
use casfa.Encoding.Cb32.{encode_cb32}

abbrev sixteen : ℕ → Bytes
sixteen b = replicate 16 b

-- A key provider that puts the size flag in front.
abbrev flagged_key : Bytes → Bytes
flagged_key bytes = compute_size_flag_byte (length bytes) ∷ replicate 15 7

abbrev leaf_bytes : Bytes
leaf_bytes = (encode_successor_node flagged_key (5 ∷ 6 ∷ []) (sixteen 3 ∷ [])).bytes

abbrev leaf_found : Validated
leaf_found = record {
  kind = NodeKind.successor;
  size = 2;
  child_keys = encode_cb32 (sixteen 3) ∷ [];
}

short : validate_node_structure ascii_decoder (1 ∷ 2 ∷ []) ≡ err Invalid.too_small
unfolding validate_node_structure casfa.Core.Validation.check_header
short = refl

leaf_valid : validate_node_structure ascii_decoder leaf_bytes ≡ ok leaf_found
leaf_valid =
    validate-successor ascii_decoder flagged_key (5 ∷ 6 ∷ []) (sixteen 3 ∷ []) (refl, tt)
      (omega arith) (omega arith)

validate-Decodes_example : Decodes ascii_decoder leaf_bytes leaf_found
validate-Decodes_example = validate-Decodes ascii_decoder leaf_bytes leaf_found leaf_valid

abbrev set_node : EncodedNode
set_node = finish flagged_key (set_node_bytes (sixteen 3 ∷ sixteen 9 ∷ []) 2)

set_encoded : encode_set_node flagged_key (sixteen 9 ∷ sixteen 3 ∷ []) ≡ ok set_node
unfolding encode_set_node
set_encoded = refl

printable : casfa.Core.Validation.all_printable (97 ∷ 47 ∷ 98 ∷ []) ≡ true
unfolding casfa.Core.Validation.all_printable
printable = refl

abbrev entries : List Entry
entries = (98 ∷ [], sixteen 3) ∷ (97 ∷ 99 ∷ [], sixteen 9) ∷ []

abbrev dict_node : EncodedNode
dict_node = finish flagged_key (
    dict_node_bytes ((97 ∷ 99 ∷ [], sixteen 9) ∷ (98 ∷ [], sixteen 3) ∷ [])
      (2 ∷ 0 ∷ 97 ∷ 99 ∷ 1 ∷ 0 ∷ 98 ∷ []))

dict_encoded : encode_entries flagged_key entries ≡ ok dict_node
unfolding casfa.Core.Node.encode_dict_node encode_pascal_strings mathlib.Core.List.zip
    casfa.Core.Pascal.encode_pascal_string casfa.Core.Words.u16_bytes
dict_encoded = refl

no_equal_names : casfa.Core.Node.has_duplicate (map name_of (sort_entries entries)) ≡ false
unfolding casfa.Core.Node.has_duplicate casfa.Base.sort le_bytes
no_equal_names = refl

leaf_key-bytes : All IsByte (flagged_key leaf_bytes)
unfolding compute_size_flag_byte encode_successor_node casfa.Core.Header.encode_header
    casfa.Core.Words.u32_bytes
leaf_key-bytes = omega arith

leaf_verified :
    validate_node ascii_decoder flagged_key
      (some (λ k. true))
      leaf_bytes
      (encode_cb32 (flagged_key leaf_bytes))
    ≡ ok leaf_found
leaf_verified =
    validate_node-accepts ascii_decoder flagged_key (λ k. true) leaf_bytes leaf_found leaf_valid
      leaf_key-bytes refl (refl, tt)
