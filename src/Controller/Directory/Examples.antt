-- ===== src/Controller/Directory/Examples.antt =====
-- A directory of two entries that is made and read.
use casfa.Base.{
  List, [], ◌∷◌, Bytes, length, replicate, map, ◌≡◌, refl, ok, some, none, arith, ◌%◌, All, IsByte,
}
use casfa.Core.Text.{ascii_decoder}
use casfa.Core.Pascal.{encode_pascal_strings}
use casfa.Core.Node.{CasNode, NodeKind, present, EncodedNode, Entry, finish, encode_dict_node}
use casfa.Core.Node.Directory.{child_of, name_of, sort_entries, encode_entries, dict_node_bytes}
use casfa.Controller.{hash_to_key}
use casfa.Controller.Read.{get_node}
use casfa.Controller.Directory.{make_dict, keyed, IsChild, get_node-make_dict}
use casfa.Storage.Memory.{Table}
use casfa.Storage.Memory.Laws.{memory_storage}

abbrev length_key : Bytes → Bytes
length_key b = length b % 256 ∷ replicate 15 0

abbrev entries : List Entry
entries = (98 ∷ [], 1 ∷ replicate 15 0) ∷ (97 ∷ 99 ∷ [], 2 ∷ replicate 15 0) ∷ []

abbrev dict_node : EncodedNode
dict_node =
    finish length_key (dict_node_bytes (sort_entries entries) (2 ∷ 0 ∷ 97 ∷ 99 ∷ 1 ∷ 0 ∷ 98 ∷ []))

dict_encoded : encode_entries length_key entries ≡ ok dict_node
unfolding casfa.Core.Node.encode_dict_node encode_pascal_strings mathlib.Core.List.zip
    casfa.Core.Pascal.encode_pascal_string casfa.Core.Words.u16_bytes
dict_encoded = refl

children_absent : All (IsChild memory_storage ascii_decoder []) entries
unfolding get_node casfa.Storage.Memory.get
children_absent = (
  record { size = refl; bytes = omega arith; node = none; reads = refl; plain = refl },
  (record { size = refl; bytes = omega arith; node = none; reads = refl; plain = refl }, tt),
)

get_node-make_dict_example :
    (found : CasNode) × ((make_dict memory_storage length_key ascii_decoder
        (map keyed entries)
        []).0
      ≡ ok (hash_to_key dict_node.hash))
    × (get_node memory_storage ascii_decoder
          (make_dict memory_storage length_key ascii_decoder (map keyed entries) []).1
          (hash_to_key dict_node.hash)
        ≡ ok (some found))
    × (found.kind ≡ NodeKind.dict)
    × (found.children ≡ present (map child_of (sort_entries entries)))
    × (found.child_names ≡ some (map name_of (sort_entries entries)))
unfolding casfa.Core.Header.encode_header casfa.Core.Words.u32_bytes casfa.Base.sort
    casfa.Core.ByteOrder.le_bytes
get_node-make_dict_example =
    get_node-make_dict memory_storage length_key ascii_decoder [] entries dict_node children_absent
      (omega arith) dict_encoded
