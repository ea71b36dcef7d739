-- ===== src/Drive/Mutations.antt =====
-- cells/drive/backend/services/tree-mutations.ts: changes of a tree of dict nodes at a path.
pub mod Put
pub mod Replace
pub mod Placed
pub mod Add
pub mod Reports
pub mod Remove
pub mod AtPath
use casfa.Base.{
  ℕ, zero, suc, Bool, true, false, Option, none, some, List, [], ◌∷◌, ◌++◌, if◌then◌else◌, length,
  take, drop, Bytes, Result, ok, err, sort, ltb,
}
use casfa.Base.Exec.{Exec, pure, lift, raise, reads, ◌>>=◌, ◌>>◌}
use casfa.Core.Text.{Text, TextDecoder}
use casfa.Core.Node.{CasNode, NodeKind, EncodedNode, children_of, encode_dict_node}
use casfa.Controller.{hash_to_key, key_to_hash}
use casfa.Storage.{Key}
use casfa.Cas.{stream_from_bytes}
use casfa.Cas.Facade.{CasFacade}
use casfa.Drive.{
  DriveError, path_empty, not_a_dict, entry_not_found, segment_not_found, parent_path_not_found,
  parent_not_a_dict, type_error, from_path, from_core, from_key, defined, get_elem?, set, index_of,
  decimal_index,
}
use casfa.Drive.Paths.{normalize_path, join_slash}
use casfa.Drive.Resolver.{names_of, numbered_child, named_child, get_node_decoded, resolve_path}
use casfa.Drive.World.{Action, World, put_node, report, put_dict}

-- `resolveSegment` of this file: dict nodes only.
abbrev dict_child :
    NodeKind → List Bytes → Option (List Text) → Text → Result DriveError (Option Key)
dict_child NodeKind.dict children (some names) segment =
    named_child children (index_of names segment) segment
dict_child NodeKind.dict children none segment = ok none
dict_child NodeKind.set children names segment = ok none
dict_child NodeKind.file children names segment = ok none
dict_child NodeKind.successor children names segment = ok none

abbrev unless_empty : List Bytes → Result DriveError (Option Key) → Result DriveError (Option Key)
unless_empty [] found = ok none
unless_empty (hash ∷ hashes) found = found

unfoldable pub resolve_segment : CasNode → Text → Result DriveError (Option Key)
unfolding index_of decimal_index hash_to_key
resolve_segment node segment =
    unless_empty (children_of node.children)
      (dict_child node.kind (children_of node.children) node.child_names segment)

-- `if (!node || node.kind !== "dict") throw ...`
abbrev pub dict_kind : NodeKind → CasNode → DriveError → Result DriveError CasNode
dict_kind NodeKind.dict node thrown = ok node
dict_kind NodeKind.set node thrown = err thrown
dict_kind NodeKind.file node thrown = err thrown
dict_kind NodeKind.successor node thrown = err thrown

abbrev pub need_dict : Option CasNode → DriveError → Result DriveError CasNode
need_dict none thrown = err thrown
need_dict (some node) thrown = dict_kind node.kind node thrown

abbrev pub need {ℓ} : {A : Type ℓ} → Option A → DriveError → Result DriveError A
need none thrown = err thrown
need (some a) thrown = ok a

-- splice(i, 0, v)
abbrev pub insert_at {ℓ} : {A : Type ℓ} → ℕ → A → List A → List A
insert_at i v xs = take i xs ++ (v ∷ drop i xs)

-- filter((_, i) => i !== index)
abbrev pub remove_at {ℓ} : {A : Type ℓ} → ℕ → List A → List A
remove_at i [] = []
remove_at zero (x ∷ xs) = xs
remove_at (suc i) (x ∷ xs) = x ∷ remove_at i xs

-- segments.slice(0, -1) and segments[segments.length - 1]
abbrev pub init_of : Text → List Text → List Text
init_of p [] = []
init_of p (q ∷ ps) = p ∷ init_of q ps

abbrev pub last_of : Text → List Text → Text
last_of p [] = p
last_of p (q ∷ ps) = last_of q ps

abbrev placed_at :
    Option ℕ → List Text → List Bytes → Bytes → Result DriveError (List Text × List Bytes)
placed_at none names children hash = err type_error
placed_at (some i) names children hash = ok (names, insert_at i hash children)

-- The names and children with an entry: an entry of that name keeps its place, and else the name is sorted
-- in and the child goes to the place of the name. `le_locale a b` says that
-- `a.localeCompare(b, "en", { sensitivity: "base" })` is not positive: the collation is the platform's.
abbrev entry_added :
    (Text → Text → Bool)
    → List Text
    → List Bytes
    → Option ℕ
    → Text
    → Bytes
    → Result DriveError (List Text × List Bytes)
entry_added le_locale names children (some i) name hash = ok (names, set children i hash)
entry_added le_locale names children none name hash =
    let new_names = sort le_locale (names ++ (name ∷ [])) in
    placed_at (index_of new_names name) new_names children hash

module _ (compute_key : Bytes → Bytes) (cas : CasFacade compute_key) where
  abbrev Act : Type 0 → Type 0
  Act A = Action compute_key cas A

  -- The dict with another child at the index.
  unfoldable pub put_child : CasNode → ℕ → Key → Act Key
  unfolding key_to_hash
  put_child node name_idx child_key = do
    hash ← lift (from_key (key_to_hash child_key))
    put_dict compute_key cas (set (children_of node.children) name_idx hash)
        (names_of node.child_names)

  -- The dict without the entry at the index.
  unfoldable pub put_without : CasNode → ℕ → Act Key
  put_without node name_idx =
      put_dict compute_key cas (remove_at name_idx (children_of node.children))
        (remove_at name_idx (names_of node.child_names))

  module _ (text : TextDecoder) where
    -- The dict node under a key.
    unfoldable pub read_dict : Key → DriveError → Act CasNode
    unfolding get_node_decoded
    read_dict key thrown = do
      node ← reads (λ w. get_node_decoded compute_key cas text w.0 key)
      lift (need_dict node thrown)

    unfoldable pub replace_subtree_at_path : Key → List Text → Key → Act Key
    unfolding read_dict index_of
    replace_subtree_at_path root_key [] new_child_key = raise path_empty
    replace_subtree_at_path root_key (segment ∷ []) new_child_key = do
      node ← read_dict root_key not_a_dict
      name_idx ←
          lift (need (index_of (names_of node.child_names) segment) (entry_not_found segment))
      put_child node name_idx new_child_key
    replace_subtree_at_path root_key (segment ∷ next ∷ segments) new_child_key = do
      node ← read_dict root_key not_a_dict
      name_idx ←
          lift (need (index_of (names_of node.child_names) segment) (entry_not_found segment))
      found ← lift (resolve_segment node segment)
      first_key ← lift (need found (segment_not_found segment))
      new_first_key ← replace_subtree_at_path first_key (next ∷ segments) new_child_key
      put_child node name_idx new_first_key

    module _ (le_locale : Text → Text → Bool) where
      unfoldable pub add_or_replace_in_dict : Key → Text → Key → Act Key
      unfolding read_dict put_dict key_to_hash index_of sort
      add_or_replace_in_dict dict_key name child_key = do
        node ← read_dict dict_key not_a_dict
        let names = names_of node.child_names
        hash ← lift (from_key (key_to_hash child_key))
        added ← lift (
            entry_added le_locale names (children_of node.children) (index_of names name) name hash)
        put_dict compute_key cas added.1 added.0

      -- `parentPath === "" ? rootKey : await resolvePath(cas, rootKey, parentPath)`, none for null.
      abbrev pub parent_of : Text → Key → World compute_key cas → Result DriveError (Option Key)
      parent_of [] root_key w = ok (some root_key)
      parent_of (c ∷ path) root_key w = resolve_path compute_key cas text w.0 root_key (c ∷ path)

      unfoldable pub find_parent : Key → Text → Act (Option Key)
      unfolding resolve_path
      find_parent root_key parent_path = reads (parent_of parent_path root_key)

      -- The end of the operations: the changed parent is put into the dicts above it.
      unfoldable pub put_parent : Key → Text → List Text → Key → Act Key
      unfolding replace_subtree_at_path
      put_parent root_key segment [] new_parent_key = pure new_parent_key
      put_parent root_key segment (next ∷ segments) new_parent_key =
          replace_subtree_at_path root_key (init_of segment (next ∷ segments)) new_parent_key

      -- `addOrReplaceAtPath` behind its first test.
      unfoldable pub add_at : Key → Text → List Text → Key → Act Key
      unfolding find_parent
      add_at root_key segment segments new_child_key = do
        found ← find_parent root_key (join_slash (init_of segment segments))
        parent_key ← lift (need found parent_path_not_found)
        new_parent_key ← add_or_replace_in_dict parent_key (last_of segment segments) new_child_key
        put_parent root_key segment segments new_parent_key

      abbrev unless_no_segments :
          {A : Type 0}
          → List Text
          → Exec (World compute_key cas) DriveError A
          → (Text → List Text → Exec (World compute_key cas) DriveError A)
          → Exec (World compute_key cas) DriveError A
      unless_no_segments [] none_left some_left = none_left
      unless_no_segments (p ∷ ps) none_left some_left = some_left p ps

      unfoldable pub add_or_replace_at_path : Key → Text → Key → Act Key
      add_or_replace_at_path root_key path_str new_child_key = do
        segments ← lift (from_path (normalize_path path_str))
        unless_no_segments segments (raise path_empty) (λ p ps. add_at root_key p ps new_child_key)

      unfoldable pub remove_entry_at_path : Key → Text → Act Key
      unfolding normalize_path find_parent read_dict put_without put_parent index_of join_slash
      remove_entry_at_path root_key path_str = do
        segments ← lift (from_path (normalize_path path_str))
        unless_no_segments segments (raise path_empty) (λ p ps. do
          found ← find_parent root_key (join_slash (init_of p ps))
          parent_key ← lift (need found parent_path_not_found)
          node ← read_dict parent_key parent_not_a_dict
          let name = last_of p ps
          name_idx ← lift (need (index_of (names_of node.child_names) name) (entry_not_found name))
          new_parent_key ← put_without node name_idx
          put_parent root_key p ps new_parent_key)

      abbrev only_dict : NodeKind → CasNode → Option CasNode
      only_dict NodeKind.dict node = some node
      only_dict NodeKind.set node = none
      only_dict NodeKind.file node = none
      only_dict NodeKind.successor node = none

      abbrev dict_of : Option CasNode → Option CasNode
      dict_of none = none
      dict_of (some node) = only_dict node.kind node

      -- The index of an entry in what may be a dict.
      abbrev entry_of : Option CasNode → Text → Option (CasNode × ℕ)
      entry_of none name = none
      entry_of (some node) name = elim (index_of (names_of node.child_names) name) [
        | none ↦ none
        | some i ↦ some (node, i)
      ]

      abbrev read_if_there : Option Key → World compute_key cas → Result DriveError (Option CasNode)
      read_if_there none w = ok none
      read_if_there (some key) w = get_node_decoded compute_key cas text w.0 key

      unfoldable pub try_remove_entry_at_path : Key → Text → Act Key
      unfolding normalize_path find_parent get_node_decoded put_without put_parent index_of
          join_slash
      try_remove_entry_at_path root_key path_str = do
        segments ← lift (from_path (normalize_path path_str))
        unless_no_segments segments (pure root_key) (λ p ps. do
          parent_key ← find_parent root_key (join_slash (init_of p ps))
          node ← reads (read_if_there parent_key)
          elim (entry_of (dict_of node) (last_of p ps)) [
            | none ↦ pure root_key
            | some (dict, name_idx) ↦ do
              new_parent_key ← put_without dict name_idx
              put_parent root_key p ps new_parent_key
          ])

      -- The loop of `ensurePathThenAddOrReplace` over the proper prefixes of the path.
      unfoldable pub ensure_dirs : Key → Key → List Text → Text → List Text → Act Key
      unfolding resolve_path add_or_replace_at_path join_slash
      ensure_dirs empty_dict_key root before segment [] = pure root
      ensure_dirs empty_dict_key root before segment (next ∷ segments) = do
        let path_prefix = join_slash (before ++ (segment ∷ []))
        resolved ← reads (λ w. resolve_path compute_key cas text w.0 root path_prefix)
        new_root ← elim resolved [
          | none ↦ add_or_replace_at_path root path_prefix empty_dict_key
          | some key ↦ pure root
        ]
        ensure_dirs empty_dict_key new_root (before ++ (segment ∷ [])) next segments

      -- The empty dict, reported where it is new.
      unfoldable pub ensure_empty_dict : Act Key
      unfolding put_node report hash_to_key
      ensure_empty_dict = do
        encoded ← lift (from_core (encode_dict_node compute_key [] []))
        let empty_dict_key = hash_to_key encoded.hash
        exists ← reads (λ w. ok (cas.has_node w.0 empty_dict_key))
        let create : Act Key = (do
          put_node compute_key cas empty_dict_key (stream_from_bytes encoded.bytes)
          report compute_key cas empty_dict_key
          pure empty_dict_key)
        if exists then pure empty_dict_key else create

      unfoldable pub ensure_path_then_add_or_replace : Key → Text → Key → Act Key
      unfolding normalize_path ensure_empty_dict ensure_dirs add_or_replace_at_path
      ensure_path_then_add_or_replace root_key path_str new_child_key = do
        segments ← lift (from_path (normalize_path path_str))
        unless_no_segments segments (raise path_empty) (λ p ps. do
          empty_dict_key ← ensure_empty_dict
          root ← ensure_dirs empty_dict_key root_key [] p ps
          add_or_replace_at_path root path_str new_child_key)
