-- ===== src/Controller/GetTree.antt =====
-- `getTree` of packages/core/src/controller.ts: the nodes below a key, breadth first, up to a limit.
-- The object `nodes` is the list of its entries in the order in which they were added. What a plain
-- object inherits from Object.prototype is left out: no key of a hash is the name of such a property.
pub mod Listed
pub mod Complete
pub mod Ends
mod Examples
use casfa.Base.{
  ℕ, zero, suc, Bool, true, false, Option, none, some, List, [], ◌∷◌, ◌++◌, Bytes, Result, ok, err,
  map, length, ltb, if◌then◌else◌, not, ◌>>=◌, ◌≡◌, ◌≤◌, ◌<◌, ◌⊎◌, arith, refl, Result-cases,
  Bool-cases, Option-cases, inl, inr,
}
use casfa.Core.Text.{Text, TextDecoder}
use casfa.Core.Node.{NodeKind, FileInfo, CasNode, children_of}
use casfa.Controller.{ControllerError, out_of_fuel, hash_to_key}
use casfa.Controller.Read.{get_node}
use casfa.Storage.{Key, StorageProvider, same_key}

pub record TreeNodeInfo : Type 0 where
  pub kind : NodeKind
  pub size : ℕ
  pub content_type : Option Text
  pub children : Option (List Key)
  pub child_names : Option (List Text)

abbrev pub Nodes : Type 0
Nodes = List (Key × TreeNodeInfo)

-- `nodes[key]`
unfoldable pub node_at : Nodes → Key → Option TreeNodeInfo
node_at [] key = none
node_at ((k, info) ∷ nodes) key = if same_key k key then some info else node_at nodes key

abbrev pub is_some {ℓ} : {A : Type ℓ} → Option A → Bool
is_some none = false
is_some (some a) = true

-- A field that is set only to what is not empty.
abbrev pub non_empty {ℓ} : {A : Type ℓ} → Option (List A) → Option (List A)
non_empty none = none
non_empty (some []) = none
non_empty (some (a ∷ as')) = some (a ∷ as')

-- `node.fileInfo?.contentType`
abbrev pub content_type_of : Option FileInfo → Option Text
content_type_of none = none
content_type_of (some info) = some info.content_type

-- `node.children?.map((h) => hashToKey(h))`
abbrev pub child_keys_of : Option (List Bytes) → Option (List Key)
child_keys_of none = none
child_keys_of (some hashes) = some (map hash_to_key hashes)

unfoldable pub tree_node_info : CasNode → TreeNodeInfo
tree_node_info node = record {
  kind = node.kind;
  size = node.size;
  content_type = non_empty (content_type_of node.file_info);
  children = non_empty (child_keys_of node.children);
  child_names = non_empty node.child_names;
}

-- The child keys that are pushed: those not in `nodes`.
unfoldable pub new_keys : Nodes → List Key → List Key
unfolding node_at
new_keys nodes [] = []
new_keys nodes (key ∷ keys) =
    let rest = new_keys nodes keys in if is_some (node_at nodes key) then rest else key ∷ rest

-- A round for a key that is not in `nodes`: nothing for a missing node, and else its entry and its
-- child keys. `continue_with` is the rest of the loop.
unfoldable pub tree_visit :
    (List Key → Nodes → Result ControllerError Nodes)
    → Key
    → List Key
    → Nodes
    → Option CasNode
    → Result ControllerError Nodes
unfolding tree_node_info new_keys hash_to_key
tree_visit continue_with key queue nodes none = continue_with queue nodes
tree_visit continue_with key queue nodes (some node) =
    let added = nodes ++ ((key, tree_node_info node) ∷ []) in
    continue_with (queue ++ new_keys added (map hash_to_key (children_of node.children))) added

module _ (storage : StorageProvider) (text : TextDecoder) (s : storage.State) (limit : ℕ) where
  -- The `while` loop. The fuel bounds the rounds.
  unfoldable pub tree_loop : ℕ → List Key → Nodes → Result ControllerError Nodes
  unfolding get_node tree_visit
  tree_loop zero [] nodes = ok nodes
  tree_loop zero (key ∷ queue) nodes = err out_of_fuel
  tree_loop (suc fuel) [] nodes = ok nodes
  tree_loop (suc fuel) (key ∷ queue) nodes =
      let skipped = tree_loop fuel queue nodes in
      let read : Result ControllerError Nodes = (do
        found ← get_node storage text s key
        tree_visit (tree_loop fuel) key queue nodes found) in
      if ltb (length nodes) limit
      then (if is_some (node_at nodes key) then skipped else read)
      else ok nodes

  -- The default of the limit is 1000.
  unfoldable pub get_tree : ℕ → Key → Result ControllerError Nodes
  unfolding tree_loop
  get_tree fuel root_key = tree_loop fuel (root_key ∷ []) []
