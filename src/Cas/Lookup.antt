-- ===== src/Cas/Lookup.antt =====
-- The reading half of packages/cas/src/cas-meta.ts and cas-service.ts.
use casfa.Base.{
  ℕ, zero, suc, ◌+◌, Bool, true, false, Option, none, some, List, [], ◌∷◌, ◌++◌, map, length,
  if◌then◌else◌, Bytes, Result, ok, err, guard, ◌>>=◌, ◌>>◌,
}
use casfa.Core.Text.{TextDecoder}
use casfa.Core.Node.{CasNode, decode_node}
use casfa.Controller.{hash_to_key}
use casfa.Core.Node.{children_of}
use casfa.Storage.{Key, StorageProvider}
use casfa.Cas.{
  CasError, child_missing, out_of_fuel, from_core, Stream, stream_from_bytes, bytes_from_stream,
  retained_blob, new_keys_blob, times_blob, meta_blob, Times, Meta, JsonCodec, includes, add_key,
  to_set,
}

abbrev pub or_else {ℓ} : {A : Type ℓ} → A → Option A → A
or_else d none = d
or_else d (some a) = a

-- decodeJson
abbrev pub decode_json {ℓ} :
    {A : Type ℓ} → (Bytes → Result CasError (Option A)) → Option Bytes → Result CasError (Option A)
decode_json parse none = ok none
decode_json parse (some []) = ok none
decode_json parse (some (b ∷ bs)) = parse (b ∷ bs)

-- Each push puts a key on top of the stack: `queue.pop()` takes the key that was pushed last.
unfoldable pub push_all : List Key → List Key → List Key
push_all [] stack = stack
push_all (k ∷ ks) stack = push_all ks (k ∷ stack)

pub record CasInfo : Type 0 where
  pub last_gc_time : Option ℕ
  pub node_count : ℕ
  pub total_bytes : ℕ

pub record CasNodeResult : Type 0 where
  pub key : Key
  pub body : Stream

module _ (storage : StorageProvider) (s : storage.State) where
  abbrev as_stream : Option Bytes → Option Stream
  as_stream none = none
  as_stream (some bytes) = some (stream_from_bytes bytes)

  -- `get` of the adapter createCasStorageFromBuffer.
  abbrev pub get_stream : Key → Option Stream
  get_stream key = as_stream (storage.get s key)

  abbrev stream_bytes : Option Stream → Option Bytes
  stream_bytes none = none
  stream_bytes (some stream) = some (bytes_from_stream stream)

  -- getBytes
  unfoldable pub get_bytes : Key → Option Bytes
  get_bytes key = stream_bytes (get_stream key)

  abbrev with_key : Key → Option Stream → Option CasNodeResult
  with_key key none = none
  with_key key (some stream) = some (record { key = key; body = stream })

  unfoldable pub get_node : Key → Option CasNodeResult
  get_node key = with_key key (get_stream key)

  abbrev is_some : Option Stream → Bool
  is_some none = false
  is_some (some stream) = true

  unfoldable pub has_node : Key → Bool
  has_node key = is_some (get_stream key)

  -- The loop of `putNode` over the children.
  unfoldable pub check_children : List Bytes → Result CasError (Unit {0})
  unfolding has_node hash_to_key
  check_children [] = ok tt
  check_children (hash ∷ hashes) = do
    guard (has_node (hash_to_key hash)) (child_missing (hash_to_key hash))
    check_children hashes

  module _ (json : JsonCodec) where
    unfoldable pub read_keys_to_retain : Result CasError (List Key)
    unfolding get_bytes
    read_keys_to_retain = do
      arr ← decode_json json.parse_keys (get_bytes retained_blob)
      ok (or_else [] arr)

    unfoldable pub read_new_keys : Result CasError (List Key)
    unfolding get_bytes
    read_new_keys = do
      arr ← decode_json json.parse_keys (get_bytes new_keys_blob)
      ok (or_else [] arr)

    unfoldable pub read_times : Result CasError Times
    unfolding get_bytes
    read_times = do obj ← decode_json json.parse_times (get_bytes times_blob); ok (or_else [] obj)

    abbrev pub no_meta : Meta
    no_meta = record { last_gc_time = none }

    unfoldable pub read_meta : Result CasError Meta
    unfolding get_bytes
    read_meta = do obj ← decode_json json.parse_meta (get_bytes meta_blob); ok (or_else no_meta obj)

    unfoldable pub read_last_gc_time : Result CasError (Option ℕ)
    unfolding read_meta
    read_last_gc_time = do obj ← read_meta; ok obj.last_gc_time

    abbrev size_of : Option Bytes → ℕ
    size_of none = 0
    size_of (some bytes) = length bytes

    -- The loop of `info` that adds up the sizes.
    unfoldable pub sum_bytes : List Key → ℕ
    unfolding get_bytes
    sum_bytes [] = 0
    sum_bytes (k ∷ ks) = size_of (get_bytes k) + sum_bytes ks

    unfoldable pub info : Result CasError CasInfo
    unfolding sum_bytes read_last_gc_time read_keys_to_retain read_new_keys to_set
    info = do
      last_gc_time ← read_last_gc_time
      retained ← read_keys_to_retain
      new_keys ← read_new_keys
      let all_keys = to_set [] (retained ++ new_keys)
      ok (record {
        last_gc_time = last_gc_time;
        node_count = length all_keys;
        total_bytes = sum_bytes all_keys;
      })

  module _ (text : TextDecoder) where
    abbrev decode_result : Option CasNodeResult → Result CasError (Option CasNode)
    decode_result none = ok none
    decode_result (some found) = do
      node ← from_core (decode_node text (bytes_from_stream found.body))
      ok (some node)

    -- `getNodeDecoded` of `gc`.
    unfoldable pub get_node_decoded : Key → Result CasError (Option CasNode)
    unfolding get_node
    get_node_decoded key = decode_result (get_node key)

    abbrev keys_below : Option CasNode → List Key
    keys_below none = []
    keys_below (some node) = map hash_to_key (children_of node.children)

    -- The keys that one round of `reachableKeys` pushes.
    unfoldable pub child_keys : Key → Result CasError (List Key)
    unfolding get_node_decoded
    child_keys key = do node ← get_node_decoded key; ok (keys_below node)

    -- The `while` loop of `reachableKeys`. The fuel bounds the rounds.
    unfoldable pub reach_loop : ℕ → List Key → List Key → Result CasError (List Key)
    reach_loop zero [] seen = ok seen
    reach_loop zero (key ∷ stack) seen = err out_of_fuel
    reach_loop (suc fuel) [] seen = ok seen
    reach_loop (suc fuel) (key ∷ stack) seen =
        let skipped = reach_loop fuel stack seen in
        let visited : Result CasError (List Key) = (do
          children ← child_keys key
          reach_loop fuel (push_all children stack) (add_key seen key)) in
        if includes seen key then skipped else visited

    unfoldable pub reachable_keys : ℕ → List Key → Result CasError (List Key)
    unfolding reach_loop push_all child_keys
    reachable_keys fuel root_keys = reach_loop fuel (push_all root_keys []) []
