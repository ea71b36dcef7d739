-- ===== src/Cas/Update.antt =====
-- The changing half of packages/cas/src/cas-meta.ts and cas-service.ts. A read and the write that follows
-- it are one step after the other, with no other caller between them.
use casfa.Base.{
  ℕ, ltb, Bool, false, Option, none, some, List, [], ◌∷◌, ◌++◌, if◌then◌else◌, Bytes, guard,
}
use casfa.Base.Exec.{Exec, pure, lift, reads, modify, ◌>>=◌, ◌>>◌}
use casfa.Core.Text.{TextDecoder}
use casfa.Core.Node.{decode_node}
use casfa.Controller.{hash_to_key}
use casfa.Core.Node.{children_of}
use casfa.Storage.{Key, StorageProvider, same_key}
use casfa.Cas.{
  CasError, key_mismatch, from_core, Stream, stream_from_bytes, bytes_from_stream, retained_blob,
  new_keys_blob, times_blob, meta_blob, Times, time_of, assign_time, JsonCodec, includes, to_set,
}
use casfa.Cas.Lookup.{
  check_children, read_keys_to_retain, read_new_keys, read_times, read_meta, reachable_keys,
}

-- The keys of `gc` that are stale: not reached, and with a time before the cut-off.
abbrev pub is_old : Option ℕ → ℕ → Bool
is_old none cut_off = false
is_old (some time) cut_off = ltb time cut_off

unfoldable pub stale_keys : List Key → Times → ℕ → List Key → List Key
unfolding includes time_of
stale_keys reached times cut_off [] = []
stale_keys reached times cut_off (k ∷ ks) =
    let rest = stale_keys reached times cut_off ks in
    if includes reached k then rest else if is_old (time_of times k) cut_off then k ∷ rest else rest

-- The times that `gc` keeps, as the loop over the reached keys assigns them.
unfoldable pub retain_times : Times → List Key → Times → Times
unfolding time_of assign_time
retain_times times [] kept = kept
retain_times times (k ∷ ks) kept = elim (time_of times k) [
  | none ↦ retain_times times ks kept
  | some time ↦ retain_times times ks (assign_time kept k time)
]

module _ (storage : StorageProvider) where
  abbrev pub Action : Type 0 → Type 0
  Action A = Exec storage.State CasError A

  -- `put` of the adapter createCasStorageFromBuffer.
  abbrev pub put_stream : Key → Stream → Action (Unit {0})
  put_stream key value = modify (λ s. storage.put s key (bytes_from_stream value))

  unfoldable pub put_bytes : Key → Bytes → Action (Unit {0})
  put_bytes key bytes = put_stream key (stream_from_bytes bytes)

  -- The loop of `gc` over the keys to delete.
  unfoldable pub del_all : List Key → Action (Unit {0})
  del_all [] = pure tt
  del_all (k ∷ ks) = do modify (λ s. storage.del s k); del_all ks

  module _ (json : JsonCodec) where
    unfoldable pub write_keys_to_retain : List Key → Action (Unit {0})
    unfolding put_bytes
    write_keys_to_retain keys = put_bytes retained_blob (json.print_keys keys)

    unfoldable pub clear_new_keys : Action (Unit {0})
    unfolding put_bytes
    clear_new_keys = put_bytes new_keys_blob (json.print_keys [])

    unfoldable pub append_new_key : Key → Action (Unit {0})
    unfolding put_bytes includes
    append_new_key key = do
      keys ← reads (λ s. read_new_keys storage s json)
      if includes keys key
          then pure tt
          else put_bytes new_keys_blob (json.print_keys (keys ++ (key ∷ [])))

    unfoldable pub write_times : Times → Action (Unit {0})
    unfolding put_bytes
    write_times times = put_bytes times_blob (json.print_times times)

    unfoldable pub set_time : Key → ℕ → Action (Unit {0})
    unfolding write_times
    set_time key time = do
      times ← reads (λ s. read_times storage s json)
      write_times (assign_time times key time)

    unfoldable pub write_last_gc_time : ℕ → Action (Unit {0})
    unfolding put_bytes
    write_last_gc_time time = do
      obj ← reads (λ s. read_meta storage s json)
      put_bytes meta_blob (json.print_meta (record obj { last_gc_time = some time }))

    -- The two writes that follow the node in `putNode`. `now` is what `Date.now()` returns.
    unfoldable pub track_node : Key → ℕ → Action (Unit {0})
    unfolding append_new_key set_time
    track_node node_key now = do append_new_key node_key; set_time node_key now

    -- The four writes that end `gc`.
    unfoldable pub write_collected : List Key → Times → ℕ → Action (Unit {0})
    unfolding write_keys_to_retain clear_new_keys write_times write_last_gc_time
    write_collected reached times now = do
      write_keys_to_retain reached
      clear_new_keys
      write_times (retain_times times reached [])
      write_last_gc_time now

    module _ (text : TextDecoder) where
      unfoldable pub put_node : (Bytes → Bytes) → Key → Stream → ℕ → Action (Unit {0})
      put_node compute_key node_key body now = do
        let bytes = bytes_from_stream body
        node ← lift (from_core (decode_node text bytes))
        reads (λ s. check_children storage s (children_of node.children))
        let computed_key = hash_to_key (compute_key bytes)
        lift (guard (same_key computed_key node_key) (key_mismatch node_key computed_key))
        put_stream node_key (stream_from_bytes bytes)
        track_node node_key now

      unfoldable pub gc : ℕ → List Key → ℕ → ℕ → Action (Unit {0})
      gc fuel node_keys cut_off now = do
        reached ← reads (λ s. reachable_keys storage s text fuel node_keys)
        retained ← reads (λ s. read_keys_to_retain storage s json)
        new_keys ← reads (λ s. read_new_keys storage s json)
        times ← reads (λ s. read_times storage s json)
        del_all (stale_keys reached times cut_off (to_set [] (retained ++ new_keys)))
        write_collected reached times now
