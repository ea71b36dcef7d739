-- ===== src/Cas/Examples.antt =====
-- Concrete runs of the store, and its theorems at concrete inputs.
use casfa.Base.{
  ◌≡◌, ◌↔◌, ◌%◌, ◌+◌, refl, arith, true, List, [], ◌∷◌, Bytes, ok, some, none, length, replicate,
  if◌then◌else◌,
}
use casfa.Core.Text.{ascii_decoder}
use casfa.Core.Node.{encode_successor_node, decode_node, bare_node, NodeKind}
use casfa.Core.Node.RoundTrip.{successor_node_bytes, decode-encode_successor}
use casfa.Controller.{hash_to_key}
use casfa.Encoding.Cb32.{codes, is_valid_cb32}
use casfa.Storage.{Key, same_key, same_key_iff}
use casfa.Storage.Memory.{Table, get}
use casfa.Storage.Memory.Laws.{memory_storage}
use casfa.Cas.{
  child_missing, retained_blob, new_keys_blob, times_blob, bytes_from_stream, Stream, includes,
}
use casfa.Cas.Lookup.{read_new_keys, read_times, child_keys, reachable_keys}
use casfa.Cas.Update.{put_node, gc}
use casfa.Cas.ToyJson.{toy_json}
use casfa.Cas.Keys.{HasKey}
use casfa.Cas.Closure.{IsComplete, IsClosed, put_node-IsClosed}
use casfa.Cas.Reachable.{Reaches}
use casfa.Cas.Reached.{reachable_keys-eq-ok, reachable_keys-total, IsUniverse, pushes}
use casfa.Cas.Collect.{HasRead, is_stale, gc_run, gc_lem, gc-keeps}
use casfa.Cas.Outcome.{IsPut, put_node-eq-ok}
use casfa.Cas.Sweep.{IsSwept, gc-IsSwept, put_node-accepts}

abbrev toy_hash : Bytes → Bytes
toy_hash b = length b % 256 ∷ replicate 15 0

abbrev empty : Table
empty = []

abbrev leaf : Stream
leaf = successor_node_bytes (5 ∷ 6 ∷ []) [] ∷ []

abbrev leaf_key : Key
leaf_key = hash_to_key (toy_hash (bytes_from_stream leaf))

leaf-IsComplete : IsComplete memory_storage ascii_decoder empty (bytes_from_stream leaf)
unfolding casfa.Core.Header.encode_header encode_successor_node casfa.Core.Words.u32_bytes
leaf-IsComplete = record {
  node = record (bare_node NodeKind.successor 2 []) { content = some (5 ∷ 6 ∷ []) };
  decoded =
      decode-encode_successor ascii_decoder toy_hash (5 ∷ 6 ∷ []) [] tt (omega arith) (omega arith);
  children = tt;
}

no_keys : read_new_keys memory_storage empty toy_json ≡ ok []
unfolding read_new_keys get
no_keys = refl

no_times : read_times memory_storage empty toy_json ≡ ok []
unfolding read_times get
no_times = refl

put_node-accepts_leaf :
    (put_node memory_storage toy_json ascii_decoder toy_hash leaf_key leaf 70 empty).0 ≡ ok tt
put_node-accepts_leaf =
    put_node-accepts memory_storage toy_json ascii_decoder toy_hash empty leaf 70 [] []
      leaf-IsComplete no_keys no_times

put_node-accepts_example :
    (put_node memory_storage toy_json ascii_decoder toy_hash leaf_key leaf 70 empty).0 ≡ ok tt
put_node-accepts_example =
    put_node-accepts memory_storage toy_json ascii_decoder toy_hash empty leaf 70 [] []
      leaf-IsComplete no_keys no_times

put_node-eq-ok_example :
    IsPut memory_storage toy_json ascii_decoder toy_hash empty
      (put_node memory_storage toy_json ascii_decoder toy_hash leaf_key leaf 70 empty).1
      leaf_key
      (bytes_from_stream leaf)
      70
put_node-eq-ok_example =
    put_node-eq-ok memory_storage toy_json ascii_decoder toy_hash empty leaf_key leaf 70
      put_node-accepts_leaf

empty-IsClosed : IsClosed memory_storage ascii_decoder empty
unfolding get
empty-IsClosed hash bytes e = cc

put_node-IsClosed_example :
    IsClosed memory_storage ascii_decoder
      (put_node memory_storage toy_json ascii_decoder toy_hash leaf_key leaf 70 empty).1
put_node-IsClosed_example =
    put_node-IsClosed memory_storage ascii_decoder toy_json toy_hash empty leaf_key leaf 70
      empty-IsClosed

-- Two tracked nodes with the time 5.
abbrev kept_key : Key
kept_key = codes "AA"

abbrev lost_key : Key
lost_key = codes "BB"

abbrev two_nodes : Table
two_nodes =
    (kept_key, bytes_from_stream leaf)
    ∷ (lost_key, bytes_from_stream leaf)
    ∷ (new_keys_blob, toy_json.print_keys (kept_key ∷ lost_key ∷ []))
    ∷ (times_blob, toy_json.print_times ((kept_key, 5) ∷ (lost_key, 5) ∷ []))
    ∷ []

kept_children : child_keys memory_storage two_nodes ascii_decoder kept_key ≡ ok []
unfolding child_keys casfa.Cas.Lookup.get_node get same_key decode_node
    casfa.Core.Header.encode_header casfa.Core.Words.u32_bytes casfa.Core.Words.get_uint32
    casfa.Core.Node.decode_payload
kept_children = refl

kept_found :
    reachable_keys memory_storage two_nodes ascii_decoder 2 (kept_key ∷ []) ≡ ok (kept_key ∷ [])
unfolding reachable_keys casfa.Cas.add_key casfa.Cas.Lookup.push_all casfa.Cas.Lookup.reach_loop
kept_found = rw kept_children refl

-- What a collection from the first node reads.
tracked : HasRead memory_storage toy_json ascii_decoder two_nodes 2 (kept_key ∷ [])
unfolding casfa.Cas.Lookup.read_keys_to_retain read_new_keys read_times get same_key
tracked = record {
  reached = kept_key ∷ [];
  retained = [];
  new_keys = kept_key ∷ lost_key ∷ [];
  times = (kept_key, 5) ∷ (lost_key, 5) ∷ [];
  found = kept_found;
  retained_read = refl;
  new_keys_read = refl;
  times_read = refl;
}

lost-valid : is_valid_cb32 lost_key ≡ true
unfolding is_valid_cb32
lost-valid = refl

kept-valid : is_valid_cb32 kept_key ≡ true
unfolding is_valid_cb32
kept-valid = refl

gc_lem_example :
    get (gc memory_storage toy_json ascii_decoder 2 (kept_key ∷ []) 10 90 two_nodes).1 lost_key ≡ (
      if is_stale memory_storage toy_json ascii_decoder tracked 10 lost_key
      then none
      else get two_nodes lost_key)
gc_lem_example =
    gc_lem memory_storage toy_json ascii_decoder two_nodes 2 (kept_key ∷ []) 10 90 tracked lost_key
      lost-valid

kept-Reaches : Reaches memory_storage ascii_decoder two_nodes (kept_key ∷ []) kept_key
unfolding includes same_key
kept-Reaches = Reaches.root refl

gc-keeps_example :
    get (gc memory_storage toy_json ascii_decoder 2 (kept_key ∷ []) 10 90 two_nodes).1 kept_key
    ≡ get two_nodes kept_key
gc-keeps_example =
    gc-keeps memory_storage toy_json ascii_decoder two_nodes 2 (kept_key ∷ []) 10 90 kept_key
      kept-valid kept-Reaches

reachable_keys-eq-ok_example :
    HasKey (kept_key ∷ []) lost_key
    ↔ Reaches memory_storage ascii_decoder two_nodes (kept_key ∷ []) lost_key
reachable_keys-eq-ok_example =
    reachable_keys-eq-ok memory_storage ascii_decoder two_nodes 2 (kept_key ∷ []) (kept_key ∷ [])
      kept_found lost_key

kept-only : (k : Key) → HasKey (kept_key ∷ []) k → kept_key ≡ k
unfolding includes
kept-only k m = ground (arith, same_key_iff kept_key k)

kept-IsUniverse : IsUniverse memory_storage ascii_decoder two_nodes (kept_key ∷ [])
unfolding includes
kept-IsUniverse = record {
  below = λ k m. [];
  read = λ k m. rw (← kept-only k m) kept_children;
  inside = λ k j m h. cc;
}

reachable_keys-total_example :
    (found : List Key) × (reachable_keys memory_storage two_nodes ascii_decoder
        (1 + pushes memory_storage ascii_decoder two_nodes (kept_key ∷ []) [])
        (kept_key ∷ [])
      ≡ ok found)
reachable_keys-total_example =
    reachable_keys-total memory_storage ascii_decoder two_nodes (kept_key ∷ []) (kept_key ∷ [])
      kept-IsUniverse (λ k m. m)

gc_done : (gc memory_storage toy_json ascii_decoder 2 (kept_key ∷ []) 10 90 two_nodes).0 ≡ ok tt
unfolding casfa.Cas.Update.write_collected casfa.Cas.Lookup.read_meta get casfa.Storage.Memory.put
    casfa.Storage.Memory.del same_key casfa.Cas.Update.del_all casfa.Cas.Update.stale_keys
    casfa.Cas.to_set tracked
gc_done =
    rw (gc_run memory_storage toy_json ascii_decoder two_nodes 2 (kept_key ∷ []) 10 90 tracked) refl

gc-IsSwept_example :
    (reached : List Key) × (reachable_keys memory_storage two_nodes ascii_decoder 2 (kept_key ∷ [])
      ≡ ok reached)
    × IsSwept memory_storage toy_json
        (gc memory_storage toy_json ascii_decoder 2 (kept_key ∷ []) 10 90 two_nodes).1
        reached
        90
gc-IsSwept_example =
    gc-IsSwept memory_storage toy_json ascii_decoder two_nodes 2 (kept_key ∷ []) 10 90 gc_done
