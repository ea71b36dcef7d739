-- ===== src/Cas/Outcome.antt =====
-- What holds after a `putNode` and after a `gc` that succeed.
use casfa.Base.{
  ℕ, ◌≡◌, refl, sym, ◌∙◌, true, some, List, [], ◌∷◌, ◌++◌, Bytes, arith, ok, err, Result-cases,
  Bool-cases, inl, inr, append-nil,
}
use casfa.Core.Text.{TextDecoder}
use casfa.Core.Node.{decode_node}
use casfa.Controller.{hash_to_key}
use casfa.Core.Node.{children_of}
use casfa.Encoding.Cb32.{is_valid_cb32}
use casfa.Storage.{Key, StorageProvider, same_key, same_key_iff, same_key_self}
use casfa.Cas.{
  from_core, JsonCodec, Times, time_of, assign_time, includes, Stream, bytes_from_stream,
  stream_from_bytes, new_keys_blob, times_blob,
}
use casfa.Cas.Lookup.{get_node, read_new_keys, read_times, check_children}
use casfa.Cas.Update.{append_new_key, set_time, write_times, track_node, put_node}
use casfa.Cas.Keys.{HasKey, includes-append, hash_to_key-valid}
use casfa.Cas.Blobs.{track_node-MetaOnly}
use casfa.Cas.Closure.{IsComplete, from_core-eq-ok, check_children-eq-ok}
use casfa.Cas.Tracked.{time_of-assign, read_new_keys-put, read_times-put, read_new_keys-other}

module _ (storage : StorageProvider) (json : JsonCodec) where
  -- The key is among the new ones, and its time is `now`.
  pub record IsTracked (t : storage.State) (key : Key) (now : ℕ) : Type 0 where
    pub new_keys : List Key
    pub times : Times
    pub new_keys_read : read_new_keys storage t json ≡ ok new_keys
    pub times_read : read_times storage t json ≡ ok times
    pub listed : HasKey new_keys key
    pub timed : time_of times key ≡ some now

  -- The second write, behind a state whose new keys are known to hold the key.
  set_time-IsTracked :
      (s : storage.State) (key : Key) (now : ℕ) (keys : List Key)
      → read_new_keys storage s json ≡ ok keys
      → HasKey keys key
      → (set_time storage json key now s).0 ≡ ok tt
      → IsTracked (set_time storage json key now s).1 key now
  unfolding set_time write_times same_key
  set_time-IsTracked s key now keys ek m e = elim (Result-cases (read_times storage s json)) [
    | inr u ↦ absurd (let q : err (u.0) ≡ ok tt = rw (u.1) at e in cc)
    | inl u ↦
        let times = assign_time (u.0) key now in
        rw (u.1) (
          rw (append-nil (json.print_times times)) (record {
            new_keys = keys;
            times = times;
            new_keys_read =
                read_new_keys-other storage json s times_blob (json.print_times times) refl ∙ ek;
            times_read = read_times-put storage json s times;
            listed = m;
            timed = time_of-assign (u.0) key now;
          }))
  ]

  track_node-IsTracked :
      (s : storage.State) (key : Key) (now : ℕ)
      → (track_node storage json key now s).0 ≡ ok tt
      → IsTracked (track_node storage json key now s).1 key now
  unfolding track_node append_new_key includes
  track_node-IsTracked s key now e = elim (Result-cases (read_new_keys storage s json)) [
    | inr u ↦ absurd (let q : err (u.0) ≡ ok tt = rw (u.1) at e in cc)
    | inl u ↦ elim (Bool-cases (includes (u.0) key)) [
      | inl i ↦
          let e' : (set_time storage json key now s).0 ≡ ok tt = rw (u.1, i) at e in
          rw (u.1, i) (set_time-IsTracked s key now (u.0) (u.1) i e')
      | inr i ↦
          let keys = (u.0) ++ (key ∷ []) in
          let t = storage.put s new_keys_blob (json.print_keys keys) in
          let e' : (set_time storage json key now t).0 ≡ ok tt =
            rw (u.1, i, append-nil (json.print_keys keys)) at e in
          let m : HasKey keys key =
            ground (arith, includes-append (u.0) (key ∷ []) key, same_key_self key) in
          rw (u.1, i, append-nil (json.print_keys keys))
            (set_time-IsTracked t key now keys (read_new_keys-put storage json s keys) m e')
    ]
  ]

  get_node-put :
      (s t : storage.State) (key : Key) (bytes : Bytes)
      → storage.get t key ≡ storage.get (storage.put s key bytes) key
      → get_node storage t key ≡ some (record { key = key; body = stream_from_bytes bytes })
  unfolding get_node
  get_node-put s t key bytes e =
      let g : storage.get t key ≡ some bytes =
        e ∙ storage.get-put s key key bytes ∙ rw (same_key_self key) refl in
      rw g refl

  module _ (text : TextDecoder) (compute_key : Bytes → Bytes) where
    -- What a successful `putNode` says of the state before it and of the state after it.
    pub record IsPut (s t : storage.State) (node_key : Key) (bytes : Bytes) (now : ℕ) : Type 0 where
      pub complete : IsComplete storage text s bytes
      pub key_eq : node_key ≡ hash_to_key (compute_key bytes)
      pub readable :
          get_node storage t node_key
          ≡ some (record { key = node_key; body = stream_from_bytes bytes })
      pub tracked : IsTracked t node_key now

    -- If `putNode` succeeds, the node decodes and all its children are stored, its key is the key of its
    -- bytes, and then it can be read under this key, is among the new keys and has the time of the call.
    pub put_node-eq-ok :
        (s : storage.State) (node_key : Key) (body : Stream) (now : ℕ)
        → (put_node storage json text compute_key node_key body now s).0 ≡ ok tt
        → IsPut s
            (put_node storage json text compute_key node_key body now s).1
            node_key
            (bytes_from_stream body)
            now
    unfolding put_node
    put_node-eq-ok s node_key body now e =
        let bytes = bytes_from_stream body in
        elim (Result-cases (from_core (decode_node text bytes))) [
          | inr u ↦ absurd (let q : err (u.0) ≡ ok tt = rw (u.1) at e in cc)
          | inl u ↦ elim (Result-cases (check_children storage s (children_of (u.0).children))) [
            | inr v ↦ absurd (let q : err (v.0) ≡ ok tt = rw (u.1, v.1) at e in cc)
            | inl v ↦ elim (Bool-cases (same_key (hash_to_key (compute_key bytes)) node_key)) [
              | inr i ↦ absurd (let q = rw (u.1, v.1, i) at e in cc)
              | inl i ↦
                  let p = storage.put s node_key bytes in
                  let same = (same_key_iff (hash_to_key (compute_key bytes)) node_key).0 i in
                  let valid : is_valid_cb32 node_key ≡ true =
                    rw (← same) (hash_to_key-valid (compute_key bytes)) in
                  let e' : (track_node storage json node_key now p).0 ≡ ok tt =
                    rw (u.1, v.1, i, append-nil bytes) at e in
                  rw (u.1, v.1, i, append-nil bytes)
                    (record {
                      complete = record {
                        node = u.0;
                        decoded = from_core-eq-ok (decode_node text bytes) (u.0) (u.1);
                        children =
                            check_children-eq-ok storage s (children_of (u.0).children) (v.1);
                      };
                      key_eq = sym same;
                      readable =
                          get_node-put s (track_node storage json node_key now p).1 node_key bytes
                            (track_node-MetaOnly storage json node_key now p node_key valid);
                      tracked = track_node-IsTracked p node_key now e';
                    })
            ]
          ]
        ]
