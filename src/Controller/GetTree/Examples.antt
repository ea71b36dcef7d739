-- ===== src/Controller/GetTree/Examples.antt =====
-- The tree of a node with one child that is missing.
use casfa.Base.{
  [], ◌∷◌, Bytes, replicate, ◌≡◌, ◌≢◌, refl, ok, err, some, none, arith, Bool-cases, inl, inr,
}
use casfa.Core.Text.{ascii_decoder}
use casfa.Core.Node.{CasNode, NodeKind, bare_node, encode_successor_node, decode_node, children_of}
use casfa.Controller.{out_of_fuel, hash_to_key}
use casfa.Controller.Read.{get_node}
use casfa.Controller.GetTree.{Nodes, get_tree}
use casfa.Controller.GetTree.Complete.{IsTree, get_tree-IsTree}
use casfa.Controller.GetTree.Ends.{HasFewChildren, get_tree-ends}
use casfa.Storage.{Key, same_key}
use casfa.Storage.Memory.{Table}
use casfa.Storage.Memory.Laws.{memory_storage}

abbrev zero_key : Bytes → Bytes
zero_key b = replicate 16 0

abbrev missing : Bytes
missing = replicate 16 1

abbrev root_bytes : Bytes
root_bytes = (encode_successor_node zero_key (5 ∷ 6 ∷ []) (missing ∷ [])).bytes

abbrev root_key : Key
root_key = 48 ∷ []

abbrev stored : Table
stored = (root_key, root_bytes) ∷ []

abbrev listed : Nodes
listed =
    (
      root_key,
      record {
        kind = NodeKind.successor;
        size = 2;
        content_type = none;
        children = some (hash_to_key missing ∷ []);
        child_names = none;
      },
    )
    ∷ []

abbrev root_node : CasNode
root_node = record (bare_node NodeKind.successor 2 (missing ∷ [])) { content = some (5 ∷ 6 ∷ []) }

root_decoded : decode_node ascii_decoder root_bytes ≡ ok root_node
unfolding decode_node encode_successor_node casfa.Core.Header.encode_header
    casfa.Core.Words.u32_bytes casfa.Core.Words.get_uint32 casfa.Core.Node.decode_payload
root_decoded = refl

tree_found : get_tree memory_storage ascii_decoder stored 1000 5 root_key ≡ ok listed
unfolding get_tree casfa.Storage.Memory.get same_key decode_node encode_successor_node
    casfa.Core.Header.encode_header casfa.Core.Words.u32_bytes casfa.Core.Words.get_uint32
    casfa.Core.Node.decode_payload
tree_found = refl

get_tree-IsTree_example : IsTree memory_storage ascii_decoder stored 1000 root_key listed
get_tree-IsTree_example =
    get_tree-IsTree memory_storage ascii_decoder stored 1000 root_key 5 listed tree_found

one_child : HasFewChildren memory_storage ascii_decoder stored 1
unfolding get_node casfa.Storage.Memory.get
one_child key node e = elim (Bool-cases (same_key root_key key)) [
  | inl h ↦
      let same : root_node ≡ node = ground (arith, e, h, root_decoded) in rw (← same) (omega arith)
  | inr h ↦ absurd (ground (arith, e, h))
]

get_tree-ends_example :
    get_tree memory_storage ascii_decoder stored 1000 2000 root_key ≢ err out_of_fuel
get_tree-ends_example =
    get_tree-ends memory_storage ascii_decoder stored 1000 1 one_child 2000 root_key (omega arith)
