-- ===== src/Drive/Examples.antt =====
-- A small drive over the CAS facade, and the theorems about the drive at it.
use casfa.Base.{
  ◌⊎◌, Result, ℕ, ◌+◌, ◌%◌, List, [], ◌∷◌, Bytes, length, replicate, ◌≡◌, ◌≢◌, refl, ok, some, none,
  arith, All, IsByte, Bool, true, inl, inr, map, get_or, ap, if◌then◌else◌, ltb, ◌&&◌,
}
use casfa.Core.Text.{Text, ascii_decoder}
use casfa.Core.Pascal.{encode_pascal_strings}
use casfa.Core.ByteOrder.{le_bytes}
use casfa.Core.Node.{CasNode, NodeKind, EncodedNode, Entry, bare_node, encode_successor_node}
use casfa.Core.Node.Directory.{child_of, name_of, dict_node_bytes}
use casfa.Controller.{hash_to_key}
use casfa.Controller.RoundTrip.{In}
use casfa.Encoding.Cb32.{codes}
use casfa.Storage.{Key, same_key}
use casfa.Storage.Memory.{Table}
use casfa.Drive.Paths.{normalize_path, join_slash}
use casfa.Drive.Resolver.{resolve_path, resolve_segments}
use casfa.Drive.{DriveError}
use casfa.Drive.World.{World}
use casfa.Drive.Mutations.{
  add_or_replace_at_path, replace_subtree_at_path, add_or_replace_in_dict, put_without,
}
use casfa.Drive.Mutations.Add.{
  IsAdded, add_or_replace_in_dict-IsAdded, add_or_replace_in_dict-swaps,
}
use casfa.Drive.Mutations.Remove.{put_without-removes}
use casfa.Drive.Entries.{child_at, IsDict}
use casfa.Drive.Paths.Laws.{IsSegment}
use casfa.Drive.Mutations.Put.{HasDict}
use casfa.Drive.Mutations.Replace.{IsDistinct, replace_subtree-resolves}
use casfa.Drive.Mutations.AtPath.{add_or_replace_at_path-resolves}
use casfa.Drive.Sample.{
  sum_key, sum_key-IsKeyProvider, cas, leaf_bytes, empty_bytes, root_bytes, files, root_key,
  leaf_key,
}

abbrev root_entries : List Entry
root_entries = (codes "d", sum_key empty_bytes) ∷ []

abbrev root_node : CasNode
root_node = record (bare_node NodeKind.dict 3 (map child_of root_entries)) {
  child_names = some (map name_of root_entries);
}

abbrev start : World sum_key cas
start = ((files, 0), [])

root_is_dict : IsDict ascii_decoder root_node root_entries
root_is_dict = record {
  kind = refl;
  names = refl;
  children = refl;
  valid = (record { hash = refl; plain = refl }, tt);
  small = omega arith;
}

root_dict : HasDict sum_key cas ascii_decoder start.0 root_key root_entries
unfolding casfa.Drive.Resolver.get_node_decoded casfa.Cas.Lookup.get_node casfa.Storage.Memory.get
    casfa.Storage.same_key hash_to_key encode_successor_node casfa.Core.Header.encode_header
    casfa.Core.Words.u32_bytes casfa.Core.Node.decode_node casfa.Core.Words.get_uint32
    casfa.Core.Node.decode_payload casfa.Core.Pascal.decode_pascal_string
    casfa.Core.Words.get_uint16
root_dict = record { node = root_node; found = refl; dict = root_is_dict }

empty_dict : HasDict sum_key cas ascii_decoder start.0 (hash_to_key (sum_key empty_bytes)) []
unfolding casfa.Drive.Resolver.get_node_decoded casfa.Cas.Lookup.get_node casfa.Storage.Memory.get
    casfa.Storage.same_key hash_to_key encode_successor_node casfa.Core.Header.encode_header
    casfa.Core.Words.u32_bytes casfa.Core.Node.decode_node casfa.Core.Words.get_uint32
    casfa.Core.Node.decode_payload casfa.Core.Pascal.decode_pascal_string
    casfa.Core.Words.get_uint16
empty_dict = record {
  node = record (bare_node NodeKind.dict 0 []) { child_names = some [] };
  found = refl;
  dict = record { kind = refl; names = refl; children = refl; valid = tt; small = omega arith };
}

path_segments : normalize_path (codes "d/b") ≡ ok (codes "d" ∷ codes "b" ∷ [])
unfolding normalize_path
path_segments = refl

abbrev run : Result DriveError Key × World sum_key cas
run =
    add_or_replace_at_path sum_key cas ascii_decoder le_bytes root_key (codes "d/b") leaf_key start

abbrev new_root : Key
new_root = codes "4EC00000000000000000000000"

run-ok : run ≡ (ok new_root, run.1)
unfolding casfa.Drive.Mutations.add_or_replace_at_path casfa.Drive.Mutations.add_at
    casfa.Drive.Mutations.find_parent casfa.Drive.Mutations.add_or_replace_in_dict
    casfa.Drive.Mutations.put_parent casfa.Drive.Mutations.replace_subtree_at_path
    casfa.Drive.Mutations.put_child casfa.Drive.Mutations.resolve_segment
    casfa.Drive.Mutations.read_dict casfa.Drive.World.put_dict casfa.Drive.World.put_node
    casfa.Drive.World.report casfa.Drive.Paths.normalize_path casfa.Drive.Paths.join_slash
    casfa.Drive.Resolver.resolve_path casfa.Drive.index_of casfa.Controller.key_to_hash
    casfa.Core.Node.encode_dict_node casfa.Core.Pascal.encode_pascal_strings
    casfa.Core.Pascal.encode_pascal_string casfa.Core.Words.u16_bytes casfa.Base.sort
    casfa.Core.ByteOrder.le_bytes mathlib.Core.List.zip casfa.Cas.Update.put_node
    casfa.Cas.Update.track_node casfa.Cas.Lookup.check_children casfa.Cas.Lookup.read_new_keys
    casfa.Cas.Lookup.read_times casfa.Storage.Memory.put casfa.Drive.Resolver.get_node_decoded
    casfa.Cas.Lookup.get_node casfa.Storage.Memory.get casfa.Storage.same_key hash_to_key
    encode_successor_node casfa.Core.Header.encode_header casfa.Core.Words.u32_bytes
    casfa.Core.Node.decode_node casfa.Core.Words.get_uint32 casfa.Core.Node.decode_payload
    casfa.Core.Pascal.decode_pascal_string casfa.Core.Words.get_uint16
run-ok = refl

abbrev new_parent : Key
new_parent = codes "4CSG0000000000000000000000"

run-reports : run.1.1 ≡ new_parent ∷ new_root ∷ []
unfolding casfa.Drive.Mutations.add_or_replace_at_path casfa.Drive.Mutations.add_at
    casfa.Drive.Mutations.find_parent casfa.Drive.Mutations.add_or_replace_in_dict
    casfa.Drive.Mutations.put_parent casfa.Drive.Mutations.replace_subtree_at_path
    casfa.Drive.Mutations.put_child casfa.Drive.Mutations.resolve_segment
    casfa.Drive.Mutations.read_dict casfa.Drive.World.put_dict casfa.Drive.World.put_node
    casfa.Drive.World.report casfa.Drive.Paths.normalize_path casfa.Drive.Paths.join_slash
    casfa.Drive.Resolver.resolve_path casfa.Drive.index_of casfa.Controller.key_to_hash
    casfa.Core.Node.encode_dict_node casfa.Core.Pascal.encode_pascal_strings
    casfa.Core.Pascal.encode_pascal_string casfa.Core.Words.u16_bytes casfa.Base.sort
    casfa.Core.ByteOrder.le_bytes mathlib.Core.List.zip casfa.Cas.Update.put_node
    casfa.Cas.Update.track_node casfa.Cas.Lookup.check_children casfa.Cas.Lookup.read_new_keys
    casfa.Cas.Lookup.read_times casfa.Storage.Memory.put casfa.Drive.Resolver.get_node_decoded
    casfa.Cas.Lookup.get_node casfa.Storage.Memory.get casfa.Storage.same_key hash_to_key
    encode_successor_node casfa.Core.Header.encode_header casfa.Core.Words.u32_bytes
    casfa.Core.Node.decode_node casfa.Core.Words.get_uint32 casfa.Core.Node.decode_payload
    casfa.Core.Pascal.decode_pascal_string casfa.Core.Words.get_uint16
run-reports = refl

parent_not_root : ¬ In new_parent (new_root ∷ [])
parent_not_root (inl e) = omega (arith, ap (λ (k : Key). get_or k 1 0) e)
parent_not_root (inr m) = m

run-IsDistinct : IsDistinct run.1.1
run-IsDistinct = rw run-reports (parent_not_root, ((λ m. m), tt))

run-fresh : All (λ k. cas.get_node start.0 k ≡ none) run.1.1
unfolding casfa.Cas.Lookup.get_node casfa.Storage.Memory.get casfa.Storage.same_key hash_to_key
    encode_successor_node casfa.Core.Header.encode_header casfa.Core.Words.u32_bytes
run-fresh = rw run-reports (refl, (refl, tt))

new_or_same :
    (t : cas.State) (ks : List Key)
    → All (λ k. cas.get_node start.0 k ≡ none) ks
    → All (λ k. (cas.get_node start.0 k ≡ none) ⊎ (cas.get_node start.0 k ≡ cas.get_node t k)) ks
new_or_same t [] h = tt
new_or_same t (k ∷ ks) h = (inl h.0, new_or_same t ks h.1)

add_or_replace_at_path-resolves_example :
    resolve_path sum_key cas ascii_decoder run.1.0 new_root (codes "d/b") ≡ ok (some leaf_key)
unfolding casfa.Drive.Entries.child_at casfa.Base.is_ordered
add_or_replace_at_path-resolves_example =
    add_or_replace_at_path-resolves sum_key cas ascii_decoder le_bytes sum_key-IsKeyProvider start.0
      (sum_key root_bytes) (hash_to_key (sum_key empty_bytes)) new_root (codes "d/b") (codes "d")
      (codes "b" ∷ []) [] (sum_key leaf_bytes) run.1 path_segments
      (root_entries, root_dict, (sum_key empty_bytes, refl, refl)) empty_dict refl (omega arith)
      refl (omega arith) (inr refl) run-ok run-IsDistinct
      (new_or_same
        (add_or_replace_in_dict sum_key cas ascii_decoder le_bytes
          (hash_to_key (sum_key empty_bytes)) (codes "b") leaf_key start).1.0
        run.1.1 run-fresh)

-- The entry "d" of the root is replaced by the leaf.
abbrev replaced : Result DriveError Key × World sum_key cas
replaced =
    replace_subtree_at_path sum_key cas ascii_decoder root_key (codes "d" ∷ []) leaf_key start

abbrev replaced_root : Key
replaced_root = codes "4CTG0000000000000000000000"

replaced-ok : replaced ≡ (ok replaced_root, replaced.1)
unfolding casfa.Drive.Mutations.add_or_replace_at_path casfa.Drive.Mutations.add_at
    casfa.Drive.Mutations.find_parent casfa.Drive.Mutations.add_or_replace_in_dict
    casfa.Drive.Mutations.put_parent casfa.Drive.Mutations.replace_subtree_at_path
    casfa.Drive.Mutations.put_child casfa.Drive.Mutations.resolve_segment
    casfa.Drive.Mutations.read_dict casfa.Drive.World.put_dict casfa.Drive.World.put_node
    casfa.Drive.World.report casfa.Drive.Paths.normalize_path casfa.Drive.Paths.join_slash
    casfa.Drive.Resolver.resolve_path casfa.Drive.index_of casfa.Controller.key_to_hash
    casfa.Core.Node.encode_dict_node casfa.Core.Pascal.encode_pascal_strings
    casfa.Core.Pascal.encode_pascal_string casfa.Core.Words.u16_bytes casfa.Base.sort
    casfa.Core.ByteOrder.le_bytes mathlib.Core.List.zip casfa.Cas.Update.put_node
    casfa.Cas.Update.track_node casfa.Cas.Lookup.check_children casfa.Cas.Lookup.read_new_keys
    casfa.Cas.Lookup.read_times casfa.Storage.Memory.put casfa.Drive.Resolver.get_node_decoded
    casfa.Cas.Lookup.get_node casfa.Storage.Memory.get casfa.Storage.same_key hash_to_key
    encode_successor_node casfa.Core.Header.encode_header casfa.Core.Words.u32_bytes
    casfa.Core.Node.decode_node casfa.Core.Words.get_uint32 casfa.Core.Node.decode_payload
    casfa.Core.Pascal.decode_pascal_string casfa.Core.Words.get_uint16
replaced-ok = refl

replaced-reports : replaced.1.1 ≡ replaced_root ∷ []
unfolding casfa.Drive.Mutations.add_or_replace_at_path casfa.Drive.Mutations.add_at
    casfa.Drive.Mutations.find_parent casfa.Drive.Mutations.add_or_replace_in_dict
    casfa.Drive.Mutations.put_parent casfa.Drive.Mutations.replace_subtree_at_path
    casfa.Drive.Mutations.put_child casfa.Drive.Mutations.resolve_segment
    casfa.Drive.Mutations.read_dict casfa.Drive.World.put_dict casfa.Drive.World.put_node
    casfa.Drive.World.report casfa.Drive.Paths.normalize_path casfa.Drive.Paths.join_slash
    casfa.Drive.Resolver.resolve_path casfa.Drive.index_of casfa.Controller.key_to_hash
    casfa.Core.Node.encode_dict_node casfa.Core.Pascal.encode_pascal_strings
    casfa.Core.Pascal.encode_pascal_string casfa.Core.Words.u16_bytes casfa.Base.sort
    casfa.Core.ByteOrder.le_bytes mathlib.Core.List.zip casfa.Cas.Update.put_node
    casfa.Cas.Update.track_node casfa.Cas.Lookup.check_children casfa.Cas.Lookup.read_new_keys
    casfa.Cas.Lookup.read_times casfa.Storage.Memory.put casfa.Drive.Resolver.get_node_decoded
    casfa.Cas.Lookup.get_node casfa.Storage.Memory.get casfa.Storage.same_key hash_to_key
    encode_successor_node casfa.Core.Header.encode_header casfa.Core.Words.u32_bytes
    casfa.Core.Node.decode_node casfa.Core.Words.get_uint32 casfa.Core.Node.decode_payload
    casfa.Core.Pascal.decode_pascal_string casfa.Core.Words.get_uint16
replaced-reports = refl

replaced-IsDistinct : IsDistinct replaced.1.1
replaced-IsDistinct = rw replaced-reports ((λ m. m), tt)

replace_subtree-resolves_example :
    resolve_segments sum_key cas ascii_decoder replaced.1.0 replaced_root (codes "d" ∷ [])
    ≡ ok (some leaf_key)
unfolding casfa.Drive.Entries.child_at
replace_subtree-resolves_example =
    replace_subtree-resolves sum_key cas ascii_decoder sum_key-IsKeyProvider start.0 root_key
      replaced_root (codes "d" ∷ []) (sum_key leaf_bytes) replaced.1 refl (omega arith)
      (root_entries, root_dict, (sum_key empty_bytes, refl, tt)) replaced-ok replaced-IsDistinct

-- A file "x" is added to the root.
abbrev added : Result DriveError Key × World sum_key cas
added =
    add_or_replace_in_dict sum_key cas ascii_decoder le_bytes root_key (codes "x") leaf_key start

abbrev added_root : Key
added_root = codes "6TDG0000000000000000000000"

added-ok : added.0 ≡ ok added_root
unfolding casfa.Drive.Mutations.add_or_replace_at_path casfa.Drive.Mutations.add_at
    casfa.Drive.Mutations.find_parent casfa.Drive.Mutations.add_or_replace_in_dict
    casfa.Drive.Mutations.put_parent casfa.Drive.Mutations.replace_subtree_at_path
    casfa.Drive.Mutations.put_child casfa.Drive.Mutations.resolve_segment
    casfa.Drive.Mutations.read_dict casfa.Drive.World.put_dict casfa.Drive.World.put_node
    casfa.Drive.World.report casfa.Drive.Paths.normalize_path casfa.Drive.Paths.join_slash
    casfa.Drive.Resolver.resolve_path casfa.Drive.index_of casfa.Controller.key_to_hash
    casfa.Core.Node.encode_dict_node casfa.Core.Pascal.encode_pascal_strings
    casfa.Core.Pascal.encode_pascal_string casfa.Core.Words.u16_bytes casfa.Base.sort
    casfa.Core.ByteOrder.le_bytes mathlib.Core.List.zip casfa.Cas.Update.put_node
    casfa.Cas.Update.track_node casfa.Cas.Lookup.check_children casfa.Cas.Lookup.read_new_keys
    casfa.Cas.Lookup.read_times casfa.Storage.Memory.put casfa.Drive.Resolver.get_node_decoded
    casfa.Cas.Lookup.get_node casfa.Storage.Memory.get casfa.Storage.same_key hash_to_key
    encode_successor_node casfa.Core.Header.encode_header casfa.Core.Words.u32_bytes
    casfa.Core.Node.decode_node casfa.Core.Words.get_uint32 casfa.Core.Node.decode_payload
    casfa.Core.Pascal.decode_pascal_string casfa.Core.Words.get_uint16
added-ok = refl

add_or_replace_in_dict-IsAdded_example :
    IsAdded sum_key cas ascii_decoder le_bytes start added.1 added_root root_entries
      (codes "x")
      (sum_key leaf_bytes)
unfolding casfa.Base.is_ordered
add_or_replace_in_dict-IsAdded_example =
    add_or_replace_in_dict-IsAdded sum_key cas ascii_decoder le_bytes sum_key-IsKeyProvider start
      root_key added_root root_entries (codes "x") (sum_key leaf_bytes) root_dict refl (omega arith)
      refl (omega arith) (inr refl) added-ok

-- The entry "d" of the root is removed.
abbrev removed : Result DriveError Key × World sum_key cas
removed = put_without sum_key cas root_node 0 start

abbrev removed_root : Key
removed_root = hash_to_key (sum_key empty_bytes)

removed-ok : removed.0 ≡ ok removed_root
unfolding casfa.Drive.Mutations.add_or_replace_at_path casfa.Drive.Mutations.add_at
    casfa.Drive.Mutations.find_parent casfa.Drive.Mutations.add_or_replace_in_dict
    casfa.Drive.Mutations.put_parent casfa.Drive.Mutations.replace_subtree_at_path
    casfa.Drive.Mutations.put_child casfa.Drive.Mutations.resolve_segment
    casfa.Drive.Mutations.read_dict casfa.Drive.World.put_dict casfa.Drive.World.put_node
    casfa.Drive.World.report casfa.Drive.Paths.normalize_path casfa.Drive.Paths.join_slash
    casfa.Drive.Resolver.resolve_path casfa.Drive.index_of casfa.Controller.key_to_hash
    casfa.Core.Node.encode_dict_node casfa.Core.Pascal.encode_pascal_strings
    casfa.Core.Pascal.encode_pascal_string casfa.Core.Words.u16_bytes casfa.Base.sort
    casfa.Core.ByteOrder.le_bytes mathlib.Core.List.zip casfa.Cas.Update.put_node
    casfa.Cas.Update.track_node casfa.Cas.Lookup.check_children casfa.Cas.Lookup.read_new_keys
    casfa.Cas.Lookup.read_times casfa.Storage.Memory.put casfa.Drive.Resolver.get_node_decoded
    casfa.Cas.Lookup.get_node casfa.Storage.Memory.get casfa.Storage.same_key hash_to_key
    encode_successor_node casfa.Core.Header.encode_header casfa.Core.Words.u32_bytes
    casfa.Core.Node.decode_node casfa.Core.Words.get_uint32 casfa.Core.Node.decode_payload
    casfa.Core.Pascal.decode_pascal_string casfa.Core.Words.get_uint16
    casfa.Drive.Mutations.put_without
removed-ok = refl

put_without-removes_example :
    (after : List Entry) × HasDict sum_key cas ascii_decoder removed.1.0 removed_root after
    × ((other : Text)
        → child_at after other
          ≡ (if same_key (codes "d") other then none else child_at root_entries other))
unfolding casfa.Drive.index_of casfa.Storage.same_key
put_without-removes_example =
    put_without-removes sum_key cas ascii_decoder sum_key-IsKeyProvider start root_key removed_root
      root_entries (codes "d") 0 root_node root_is_dict (refl, tt) refl removed-ok

-- A dict with "B" before "a", and a collation that has "a" before "B".
abbrev mixed_entries : List Entry
mixed_entries = (codes "B", sum_key empty_bytes) ∷ (codes "a", sum_key leaf_bytes) ∷ []

abbrev mixed_bytes : Bytes
mixed_bytes = dict_node_bytes mixed_entries (1 ∷ 0 ∷ b'B' ∷ 1 ∷ 0 ∷ b'a' ∷ [])

abbrev mixed_key : Key
mixed_key = hash_to_key (sum_key mixed_bytes)

abbrev mixed_start : World sum_key cas
mixed_start = (((mixed_key, mixed_bytes) ∷ files, 0), [])

abbrev lower_case : ℕ → ℕ
lower_case c = if ltb 64 c && ltb c 91 then c + 32 else c

abbrev le_lower : Text → Text → Bool
le_lower a b = le_bytes (map lower_case a) (map lower_case b)

mixed_is_dict :
    IsDict ascii_decoder
      (record (bare_node NodeKind.dict 6 (map child_of mixed_entries)) {
        child_names = some (map name_of mixed_entries);
      })
      mixed_entries
mixed_is_dict = record {
  kind = refl;
  names = refl;
  children = refl;
  valid = (record { hash = refl; plain = refl }, (record { hash = refl; plain = refl }, tt));
  small = omega arith;
}

mixed_dict : HasDict sum_key cas ascii_decoder mixed_start.0 mixed_key mixed_entries
unfolding casfa.Drive.Resolver.get_node_decoded casfa.Cas.Lookup.get_node casfa.Storage.Memory.get
    casfa.Storage.same_key hash_to_key encode_successor_node casfa.Core.Header.encode_header
    casfa.Core.Words.u32_bytes casfa.Core.Node.decode_node casfa.Core.Words.get_uint32
    casfa.Core.Node.decode_payload casfa.Core.Pascal.decode_pascal_string
    casfa.Core.Words.get_uint16
mixed_dict = record {
  node = record (bare_node NodeKind.dict 6 (map child_of mixed_entries)) {
    child_names = some (map name_of mixed_entries);
  };
  found = refl;
  dict = mixed_is_dict;
}

abbrev mixed : Result DriveError Key × World sum_key cas
mixed =
    add_or_replace_in_dict sum_key cas ascii_decoder le_lower mixed_key (codes "c") leaf_key
      mixed_start

abbrev mixed_root : Key
mixed_root = codes "96YG0000000000000000000000"

mixed-ok : mixed.0 ≡ ok mixed_root
unfolding casfa.Drive.Mutations.add_or_replace_at_path casfa.Drive.Mutations.add_at
    casfa.Drive.Mutations.find_parent casfa.Drive.Mutations.add_or_replace_in_dict
    casfa.Drive.Mutations.put_parent casfa.Drive.Mutations.replace_subtree_at_path
    casfa.Drive.Mutations.put_child casfa.Drive.Mutations.resolve_segment
    casfa.Drive.Mutations.read_dict casfa.Drive.World.put_dict casfa.Drive.World.put_node
    casfa.Drive.World.report casfa.Drive.Paths.normalize_path casfa.Drive.Paths.join_slash
    casfa.Drive.Resolver.resolve_path casfa.Drive.index_of casfa.Controller.key_to_hash
    casfa.Core.Node.encode_dict_node casfa.Core.Pascal.encode_pascal_strings
    casfa.Core.Pascal.encode_pascal_string casfa.Core.Words.u16_bytes casfa.Base.sort
    casfa.Core.ByteOrder.le_bytes mathlib.Core.List.zip casfa.Cas.Update.put_node
    casfa.Cas.Update.track_node casfa.Cas.Lookup.check_children casfa.Cas.Lookup.read_new_keys
    casfa.Cas.Lookup.read_times casfa.Storage.Memory.put casfa.Drive.Resolver.get_node_decoded
    casfa.Cas.Lookup.get_node casfa.Storage.Memory.get casfa.Storage.same_key hash_to_key
    encode_successor_node casfa.Core.Header.encode_header casfa.Core.Words.u32_bytes
    casfa.Core.Node.decode_node casfa.Core.Words.get_uint32 casfa.Core.Node.decode_payload
    casfa.Core.Pascal.decode_pascal_string casfa.Core.Words.get_uint16
mixed-ok = refl

add_or_replace_in_dict-swaps_example :
    (after : List Entry) × HasDict sum_key cas ascii_decoder mixed.1.0 mixed_root after
    × (child_at after (codes "a") ≡ some (sum_key empty_bytes))
    × (child_at after (codes "B") ≡ some (sum_key leaf_bytes))
    × (child_at after (codes "c") ≡ some (sum_key leaf_bytes))
unfolding casfa.Drive.index_of casfa.Storage.same_key le_bytes
add_or_replace_in_dict-swaps_example =
    add_or_replace_in_dict-swaps sum_key cas ascii_decoder le_lower sum_key-IsKeyProvider
      mixed_start mixed_key mixed_root (codes "B", sum_key empty_bytes)
      (codes "a", sum_key leaf_bytes) (codes "c") (sum_key leaf_bytes) mixed_dict refl (omega arith)
      refl (omega arith) refl refl refl refl refl mixed-ok

d-IsSegment : IsSegment (codes "d")
unfolding casfa.Storage.same_key
d-IsSegment = record { nonempty = refl; whole = refl; named = refl }
