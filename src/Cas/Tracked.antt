-- ===== src/Cas/Tracked.antt =====
-- What the bookkeeping holds after `putNode` and after `gc`.
use casfa.Base.{
  ℕ, ◌≡◌, ◌≢◌, refl, sym, ◌∙◌, false, Option, some, List, [], ◌∷◌, Bytes, arith, Result, ok,
}
use casfa.Storage.{Key, StorageProvider, same_key, same_key_self}
use casfa.Cas.{
  CasError, JsonCodec, Times, time_of, assign_time, Meta, retained_blob, new_keys_blob, times_blob,
  meta_blob,
}
use casfa.Cas.Lookup.{
  decode_json, get_bytes, read_keys_to_retain, read_new_keys, read_times, read_meta,
  read_last_gc_time,
}
use casfa.Cas.Blobs.{get_bytes_lem}

pub time_of-assign :
    (times : Times) (k : Key) (time : ℕ) → time_of (assign_time times k time) k ≡ some time
unfolding time_of assign_time
time_of-assign [] k time = rw (same_key_self k) refl
time_of-assign ((j, t) ∷ rest) k time = ground (arith, time_of-assign rest k time)

decode_json-some :
    {A : Type 0} (parse : Bytes → Result CasError (Option A)) (bytes : Bytes)
    → bytes ≢ []
    → decode_json parse (some bytes) ≡ parse bytes
decode_json-some parse [] h = absurd (h refl)
decode_json-some parse (b ∷ bs) h = refl

module _ (storage : StorageProvider) where
  get_bytes-put :
      (s : storage.State) (k : Key) (bytes : Bytes)
      → get_bytes storage (storage.put s k bytes) k ≡ some bytes
  get_bytes-put s k bytes =
      get_bytes_lem storage (storage.put s k bytes) k
      ∙ storage.get-put s k k bytes
      ∙ rw (same_key_self k) refl

  get_bytes-other :
      (s : storage.State) (j k : Key) (bytes : Bytes)
      → same_key j k ≡ false
      → get_bytes storage (storage.put s j bytes) k ≡ get_bytes storage s k
  get_bytes-other s j k bytes h =
      get_bytes_lem storage (storage.put s j bytes) k
      ∙ storage.get-put s j k bytes
      ∙ rw h (sym (get_bytes_lem storage s k))

  module _ (json : JsonCodec) where
    pub read_new_keys-put :
        (s : storage.State) (ks : List Key)
        → read_new_keys storage (storage.put s new_keys_blob (json.print_keys ks)) json ≡ ok ks
    unfolding read_new_keys
    read_new_keys-put s ks =
        rw
          (
            get_bytes-put s new_keys_blob (json.print_keys ks),
            decode_json-some json.parse_keys (json.print_keys ks) (json.keys_nonempty ks),
            json.parse-print_keys ks,
          )
          refl

    pub read_keys_to_retain-put :
        (s : storage.State) (ks : List Key)
        → read_keys_to_retain storage (storage.put s retained_blob (json.print_keys ks)) json
          ≡ ok ks
    unfolding read_keys_to_retain
    read_keys_to_retain-put s ks =
        rw
          (
            get_bytes-put s retained_blob (json.print_keys ks),
            decode_json-some json.parse_keys (json.print_keys ks) (json.keys_nonempty ks),
            json.parse-print_keys ks,
          )
          refl

    pub read_times-put :
        (s : storage.State) (ts : Times)
        → read_times storage (storage.put s times_blob (json.print_times ts)) json ≡ ok ts
    unfolding read_times
    read_times-put s ts =
        rw
          (
            get_bytes-put s times_blob (json.print_times ts),
            decode_json-some json.parse_times (json.print_times ts) (json.times_nonempty ts),
            json.parse-print_times ts,
          )
          refl

    pub read_last_gc_time-put :
        (s : storage.State) (m : Meta)
        → read_last_gc_time storage (storage.put s meta_blob (json.print_meta m)) json
          ≡ ok m.last_gc_time
    unfolding read_last_gc_time read_meta
    read_last_gc_time-put s m =
        rw
          (
            get_bytes-put s meta_blob (json.print_meta m),
            decode_json-some json.parse_meta (json.print_meta m) (json.meta_nonempty m),
            json.parse-print_meta m,
          )
          refl

    pub read_new_keys-other :
        (s : storage.State) (j : Key) (bytes : Bytes)
        → same_key j new_keys_blob ≡ false
        → read_new_keys storage (storage.put s j bytes) json ≡ read_new_keys storage s json
    unfolding read_new_keys
    read_new_keys-other s j bytes h = rw (get_bytes-other s j new_keys_blob bytes h) refl

    pub read_keys_to_retain-other :
        (s : storage.State) (j : Key) (bytes : Bytes)
        → same_key j retained_blob ≡ false
        → read_keys_to_retain storage (storage.put s j bytes) json
          ≡ read_keys_to_retain storage s json
    unfolding read_keys_to_retain
    read_keys_to_retain-other s j bytes h = rw (get_bytes-other s j retained_blob bytes h) refl

    pub read_times-other :
        (s : storage.State) (j : Key) (bytes : Bytes)
        → same_key j times_blob ≡ false
        → read_times storage (storage.put s j bytes) json ≡ read_times storage s json
    unfolding read_times
    read_times-other s j bytes h = rw (get_bytes-other s j times_blob bytes h) refl
