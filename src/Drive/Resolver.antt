-- ===== src/Drive/Resolver.antt =====
-- cells/drive/backend/services/root-resolver.ts: from a root and a path to the key of a node.
use casfa.Base.{ℕ, Option, none, some, List, [], ◌∷◌, Bytes, Result, ok, ◌>>=◌}
use casfa.Core.Text.{Text, TextDecoder}
use casfa.Core.Node.{CasNode, NodeKind, decode_node, children_of}
use casfa.Controller.{hash_to_key}
use casfa.Storage.{Key}
use casfa.Cas.{bytes_from_stream}
use casfa.Cas.Lookup.{CasNodeResult}
use casfa.Cas.Facade.{CasFacade}
use casfa.Drive.{DriveError, from_path, from_core, defined, get_elem?, index_of, decimal_index}
use casfa.Drive.Paths.{normalize_path}

-- The child at a numeric segment.
abbrev pub numbered_child : List Bytes → Option ℕ → Option Key
numbered_child children none = none
numbered_child children (some num) = elim (get_elem? children num) [
  | none ↦ none
  | some hash ↦ some (hash_to_key hash)
]

-- The name at its index, and else the number.
abbrev pub named_child : List Bytes → Option ℕ → Text → Result DriveError (Option Key)
named_child children none segment = ok (numbered_child children (decimal_index segment))
named_child children (some i) segment = do
  hash ← defined (get_elem? children i)
  ok (some (hash_to_key hash))

abbrev pub names_of : Option (List Text) → List Text
names_of none = []
names_of (some names) = names

abbrev segment_child : NodeKind → List Bytes → List Text → Text → Result DriveError (Option Key)
segment_child NodeKind.dict children names segment =
    named_child children (index_of names segment) segment
segment_child NodeKind.set children names segment =
    ok (numbered_child children (decimal_index segment))
segment_child NodeKind.file children names segment = ok none
segment_child NodeKind.successor children names segment = ok none

abbrev unless_empty : List Bytes → Result DriveError (Option Key) → Result DriveError (Option Key)
unless_empty [] found = ok none
unless_empty (hash ∷ hashes) found = found

-- The children of a decoded node and the names of a dict node are as many, so a name has a child.
unfoldable pub resolve_segment : CasNode → Text → Result DriveError (Option Key)
unfolding index_of decimal_index hash_to_key
resolve_segment node segment =
    unless_empty (children_of node.children)
      (segment_child node.kind (children_of node.children) (names_of node.child_names) segment)

module _ (compute_key : Bytes → Bytes) (cas : CasFacade compute_key) (text : TextDecoder) where
  module _ (s : cas.State) where
    abbrev decode_found : Option CasNodeResult → Result DriveError (Option CasNode)
    decode_found none = ok none
    decode_found (some found) = do
      node ← from_core (decode_node text (bytes_from_stream found.body))
      ok (some node)

    unfoldable pub get_node_decoded : Key → Result DriveError (Option CasNode)
    get_node_decoded key = decode_found (cas.get_node s key)

    abbrev pub segment_of : Option CasNode → Text → Result DriveError (Option Key)
    segment_of none segment = ok none
    segment_of (some node) segment = resolve_segment node segment

    -- The loop of `resolvePath`.
    unfoldable pub resolve_segments : Key → List Text → Result DriveError (Option Key)
    unfolding get_node_decoded resolve_segment
    resolve_segments key [] = ok (some key)
    resolve_segments key (segment ∷ segments) = do
      node ← get_node_decoded key
      next ← segment_of node segment
      elim next [ none ↦ ok none | some next_key ↦ resolve_segments next_key segments ]

    unfoldable pub resolve_path : Key → Text → Result DriveError (Option Key)
    unfolding normalize_path resolve_segments
    resolve_path root_key path_str = do
      segments ← from_path (normalize_path path_str)
      resolve_segments root_key segments
