-- ===== src/Cas/Sweep.antt =====
-- The bookkeeping after a `gc` that succeeds, and when `putNode` succeeds.
use casfa.Base.{
  ℕ, ◌≡◌, refl, ◌∙◌, some, List, [], ◌∷◌, ◌++◌, Bytes, ok, err, Result-cases, Bool-cases, inl, inr,
  append-nil,
}
use casfa.Core.Text.{TextDecoder}
use casfa.Controller.{hash_to_key}
use casfa.Core.Node.{children_of}
use casfa.Storage.{Key, StorageProvider, same_key, same_key_self}
use casfa.Cas.{
  JsonCodec, Times, includes, Stream, bytes_from_stream, retained_blob, new_keys_blob, times_blob,
  meta_blob, Meta,
}
use casfa.Cas.Lookup.{
  read_keys_to_retain, read_new_keys, read_times, read_meta, read_last_gc_time, reachable_keys,
}
use casfa.Cas.Update.{
  track_node, append_new_key, set_time, write_times, retain_times, write_collected,
  write_keys_to_retain, clear_new_keys, write_last_gc_time, put_node, gc, del_all,
}
use casfa.Cas.Collect.{gc_stopped, gc_run, doomed}
use casfa.Cas.Closure.{IsComplete, check_children-HasChildren}
use casfa.Cas.Tracked.{
  read_new_keys-put, read_keys_to_retain-put, read_last_gc_time-put, read_new_keys-other,
  read_keys_to_retain-other, read_times-other,
}
use casfa.Cas.Keys.{
  IsReserved, reserved-same_key, same_key_comm, hash_to_key-valid, new_keys_blob-IsReserved,
  times_blob-IsReserved,
}

module _ (storage : StorageProvider) (json : JsonCodec) where
  -- What the meta blobs hold after a collection.
  pub record IsSwept (t : storage.State) (reached : List Key) (now : ℕ) : Type 0 where
    pub retained_read : read_keys_to_retain storage t json ≡ ok reached
    pub new_keys_read : read_new_keys storage t json ≡ ok []
    pub last_read : read_last_gc_time storage t json ≡ ok (some now)

  write_collected-IsSwept :
      (s : storage.State) (reached : List Key) (times : Times) (now : ℕ)
      → (write_collected storage json reached times now s).0 ≡ ok tt
      → IsSwept (write_collected storage json reached times now s).1 reached now
  unfolding write_collected write_keys_to_retain clear_new_keys write_times write_last_gc_time
      same_key
  write_collected-IsSwept s reached times now e =
      let kept = retain_times times reached [] in
      let s1 = storage.put s retained_blob (json.print_keys reached) in
      let s2 = storage.put s1 new_keys_blob (json.print_keys []) in
      let s3 = storage.put s2 times_blob (json.print_times kept) in
      let r : read_keys_to_retain storage s3 json ≡ ok reached =
        read_keys_to_retain-other storage json s2 times_blob (json.print_times kept) refl
        ∙ read_keys_to_retain-other storage json s1 new_keys_blob (json.print_keys []) refl
        ∙ read_keys_to_retain-put storage json s reached in
      let n : read_new_keys storage s3 json ≡ ok [] =
        read_new_keys-other storage json s2 times_blob (json.print_times kept) refl
        ∙ read_new_keys-put storage json s1 [] in
      elim (Result-cases (read_meta storage s3 json)) [
        | inr u ↦ absurd (
            let q : err (u.0) ≡ ok tt =
              rw
                (
                  append-nil (json.print_keys reached),
                  append-nil (json.print_keys []),
                  append-nil (json.print_times kept),
                  u.1,
                )
                at e in
            cc)
        | inl u ↦
            let m : Meta = record { last_gc_time = some now } in
            rw
              (
                append-nil (json.print_keys reached),
                append-nil (json.print_keys []),
                append-nil (json.print_times kept),
                u.1,
                append-nil (json.print_meta m),
              )
              (record {
                retained_read =
                    read_keys_to_retain-other storage json s3 meta_blob (json.print_meta m) refl
                    ∙ r;
                new_keys_read =
                    read_new_keys-other storage json s3 meta_blob (json.print_meta m) refl ∙ n;
                last_read = read_last_gc_time-put storage json s3 m;
              })
      ]

  module _ (text : TextDecoder) where
    -- After a `gc` that succeeds the retained keys are the reached ones, there are no new keys, and the
    -- time of the collection is recorded: what was not reached is tracked no more, deleted or not.
    pub gc-IsSwept :
        (s : storage.State) (fuel : ℕ) (node_keys : List Key) (cut_off now : ℕ)
        → (gc storage json text fuel node_keys cut_off now s).0 ≡ ok tt
        → (reached : List Key) × (reachable_keys storage s text fuel node_keys ≡ ok reached)
          × IsSwept (gc storage json text fuel node_keys cut_off now s).1 reached now
    gc-IsSwept s fuel node_keys cut_off now e =
        elim (gc_stopped storage json text s fuel node_keys cut_off now) [
          | inr u ↦ absurd (let q : err (u.0) ≡ ok tt = rw (u.1) at e in cc)
          | inl r ↦
              let run = gc_run storage json text s fuel node_keys cut_off now r in
              (
                r.reached,
                r.found,
                rw run (
                    write_collected-IsSwept
                      (del_all storage (doomed storage json text r cut_off) s).1 r.reached r.times
                      now (rw run at e)),
              )
        ]

    track_node-accepts :
        (s : storage.State) (key : Key) (now : ℕ) (keys : List Key) (times : Times)
        → read_new_keys storage s json ≡ ok keys
        → read_times storage s json ≡ ok times
        → (track_node storage json key now s).0 ≡ ok tt
    unfolding track_node append_new_key set_time write_times same_key
    track_node-accepts s key now keys times ek et = elim (Bool-cases (includes keys key)) [
      | inl i ↦ rw (ek, i, et) refl
      | inr i ↦
          let bytes = json.print_keys (keys ++ (key ∷ [])) in
          let et' : read_times storage (storage.put s new_keys_blob bytes) json ≡ ok times =
            read_times-other storage json s new_keys_blob bytes refl ∙ et in
          rw (ek, i, append-nil bytes, et') refl
    ]

    -- `putNode` succeeds for a node that decodes, whose children are stored and whose key is the key of
    -- its bytes, if the blobs of the new keys and of the times can be read.
    pub put_node-accepts :
        (compute_key : Bytes → Bytes) (s : storage.State) (body : Stream) (now : ℕ)
        (keys : List Key) (times : Times)
        → IsComplete storage text s (bytes_from_stream body)
        → read_new_keys storage s json ≡ ok keys
        → read_times storage s json ≡ ok times
        → (put_node storage json text compute_key
            (hash_to_key (compute_key (bytes_from_stream body)))
            body
            now
            s).0
          ≡ ok tt
    unfolding put_node
    put_node-accepts compute_key s body now keys times c ek et =
        let bytes = bytes_from_stream body in
        let key = hash_to_key (compute_key bytes) in
        let valid = hash_to_key-valid (compute_key bytes) in
        let apart = λ (blob : Key) (r : IsReserved blob).
          same_key_comm key blob ∙ reserved-same_key blob key r valid in
        let ek' : read_new_keys storage (storage.put s key bytes) json ≡ ok keys =
          read_new_keys-other storage json s key bytes
            (apart new_keys_blob new_keys_blob-IsReserved)
          ∙ ek in
        let et' : read_times storage (storage.put s key bytes) json ≡ ok times =
          read_times-other storage json s key bytes (apart times_blob times_blob-IsReserved) ∙ et in
        rw
          (
            c.decoded,
            check_children-HasChildren storage s (children_of c.node.children) c.children,
            same_key_self key,
            append-nil bytes,
          )
          (track_node-accepts (storage.put s key bytes) key now keys times ek' et')
