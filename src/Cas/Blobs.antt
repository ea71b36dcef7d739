-- ===== src/Cas/Blobs.antt =====
-- The bookkeeping of packages/cas/src/cas-meta.ts touches the meta blobs only, and what it writes is read
-- back.
use casfa.Base.{
  ◌≡◌, refl, ◌∙◌, ap, true, some, List, [], ◌∷◌, ◌++◌, Bytes, append-nil, if◌then◌else◌, Result, ok,
  err, Bool-cases, Option-cases, inl, inr, ℕ,
}
use casfa.Base.Exec.{pure, reads, continue, ◌>>=◌, ◌>>◌}
use casfa.Encoding.Cb32.{is_valid_cb32}
use casfa.Storage.{Key, StorageProvider}
use casfa.Cas.{
  CasError, JsonCodec, Times, assign_time, retained_blob, new_keys_blob, times_blob, meta_blob,
  includes,
}
use casfa.Cas.Lookup.{get_bytes, read_meta}
use casfa.Cas.Update.{
  Action, put_bytes, write_keys_to_retain, clear_new_keys, append_new_key, write_times, set_time,
  write_last_gc_time, track_node, retain_times, write_collected,
}
use casfa.Cas.Keys.{
  IsReserved, reserved-same_key, retained_blob-IsReserved, new_keys_blob-IsReserved,
  times_blob-IsReserved, meta_blob-IsReserved,
}

module _ (storage : StorageProvider) where
  pub get_bytes_lem : (s : storage.State) (key : Key) → get_bytes storage s key ≡ storage.get s key
  unfolding get_bytes
  get_bytes_lem s key = elim (Option-cases (storage.get s key)) [
    | inl e ↦ rw e refl
    | inr v ↦ rw (v.1) (ap some (append-nil v.0))
  ]

  pub put_bytes_lem :
      (s : storage.State) (key : Key) (bytes : Bytes)
      → put_bytes storage key bytes s ≡ (ok tt, storage.put s key bytes)
  unfolding put_bytes
  put_bytes_lem s key bytes = rw (append-nil bytes) refl

  -- A key reads the same before and after.
  abbrev pub Keeps {ℓ} :
      {A : Type ℓ} → Key → storage.State → Result CasError A × storage.State → Type 0
  Keeps k s r = storage.get r.1 k ≡ storage.get s k

  -- An action that changes no node: the keys of nodes read the same.
  abbrev pub MetaOnly : {A : Type 0} → Action storage A → Type 0
  MetaOnly m =
      (s : storage.State) (k : Key)
      → is_valid_cb32 k ≡ true
      → storage.get (m s).1 k ≡ storage.get s k

  continue-MetaOnly :
      {A B : Type 0} (f : A → Action storage B)
      → ((a : A) → MetaOnly (f a))
      → (r : Result CasError A) (s : storage.State) (k : Key) → is_valid_cb32 k ≡ true
      → storage.get (continue r f s).1 k ≡ storage.get s k
  continue-MetaOnly f h (ok a) s k v = h a s k v
  continue-MetaOnly f h (err e) s k v = refl

  pub bind-MetaOnly :
      {A B : Type 0} (m : Action storage A) (f : A → Action storage B)
      → MetaOnly m
      → ((a : A) → MetaOnly (f a))
      → MetaOnly (m >>= f)
  bind-MetaOnly m f hm hf s k v = continue-MetaOnly f hf (m s).0 (m s).1 k v ∙ hm s k v

  pub put_bytes-MetaOnly :
      (key : Key) (bytes : Bytes) → IsReserved key → MetaOnly (put_bytes storage key bytes)
  put_bytes-MetaOnly key bytes r s k v =
      rw (put_bytes_lem s key bytes)
        (storage.get-put s key k bytes ∙ rw (reserved-same_key key k r v) refl)

  module _ (json : JsonCodec) where
    pub append_new_key-MetaOnly : (key : Key) → MetaOnly (append_new_key storage json key)
    unfolding append_new_key
    append_new_key-MetaOnly key =
        bind-MetaOnly _
          (λ keys.
            if includes keys key
            then pure tt
            else put_bytes storage new_keys_blob (json.print_keys (keys ++ (key ∷ []))))
          (λ s k v. refl)
          (λ keys s k v. elim (Bool-cases (includes keys key)) [
            | inl e ↦ rw e refl
            | inr e ↦ rw e (
                put_bytes-MetaOnly new_keys_blob (json.print_keys (keys ++ (key ∷ [])))
                  new_keys_blob-IsReserved s k v)
          ])

    pub set_time-MetaOnly : (key : Key) (time : ℕ) → MetaOnly (set_time storage json key time)
    unfolding set_time write_times
    set_time-MetaOnly key time =
        bind-MetaOnly _ _ (λ s k v. refl)
          (λ times.
            put_bytes-MetaOnly times_blob (json.print_times (assign_time times key time))
              times_blob-IsReserved)

    pub track_node-MetaOnly : (key : Key) (now : ℕ) → MetaOnly (track_node storage json key now)
    unfolding track_node
    track_node-MetaOnly key now =
        bind-MetaOnly (append_new_key storage json key) (λ u. set_time storage json key now)
          (append_new_key-MetaOnly key) (λ u. set_time-MetaOnly key now)

    write_last_gc_time-MetaOnly : (now : ℕ) → MetaOnly (write_last_gc_time storage json now)
    unfolding write_last_gc_time
    write_last_gc_time-MetaOnly now =
        bind-MetaOnly (reads (λ s. read_meta storage s json))
          (λ obj.
            put_bytes storage meta_blob (json.print_meta (record obj { last_gc_time = some now })))
          (λ s k v. refl)
          (λ obj.
            put_bytes-MetaOnly meta_blob (json.print_meta (record obj { last_gc_time = some now }))
              meta_blob-IsReserved)

    pub write_collected-MetaOnly :
        (reached : List Key) (times : Times) (now : ℕ)
        → MetaOnly (write_collected storage json reached times now)
    unfolding write_collected write_keys_to_retain clear_new_keys write_times
    write_collected-MetaOnly reached times now =
        let kept = write_times storage json (retain_times times reached []) in
        let last = write_last_gc_time storage json now in
        let cleared = clear_new_keys storage json in
        bind-MetaOnly (write_keys_to_retain storage json reached) (λ u. cleared >> (kept >> last))
          (put_bytes-MetaOnly retained_blob (json.print_keys reached) retained_blob-IsReserved)
          (λ u.
            bind-MetaOnly cleared (λ v. kept >> last)
              (put_bytes-MetaOnly new_keys_blob (json.print_keys []) new_keys_blob-IsReserved)
              (λ v.
                bind-MetaOnly kept (λ w. last)
                  (put_bytes-MetaOnly times_blob (json.print_times (retain_times times reached []))
                    times_blob-IsReserved)
                  (λ w. write_last_gc_time-MetaOnly now)))
