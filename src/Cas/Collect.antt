-- ===== src/Cas/Collect.antt =====
-- What `gc` of packages/cas/src/cas-service.ts deletes and what it keeps.
use casfa.Base.{
  ℕ, ◌≡◌, ◌⊎◌, refl, ◌∙◌, true, false, Bool, not, ◌&&◌, ◌||◌, none, List, [], ◌∷◌, ◌++◌, arith,
  if◌then◌else◌, ok, err, Result-cases, Bool-cases, inl, inr,
}
use casfa.Core.Text.{TextDecoder}
use casfa.Encoding.Cb32.{is_valid_cb32}
use casfa.Storage.{Key, StorageProvider, same_key, same_key_iff, same_key_self}
use casfa.Cas.{CasError, JsonCodec, Times, time_of, includes, to_set}
use casfa.Cas.Lookup.{read_keys_to_retain, read_new_keys, read_times, reachable_keys}
use casfa.Cas.Update.{is_old, stale_keys, del_all, write_collected, gc}
use casfa.Cas.Keys.{includes-append, includes-to_set}
use casfa.Cas.Blobs.{write_collected-MetaOnly}
use casfa.Cas.Reachable.{Reaches}
use casfa.Cas.Reached.{reachable_keys-eq-ok}

includes-stale_keys :
    (reached : List Key) (times : Times) (cut_off : ℕ) (ks : List Key) (k : Key)
    → includes (stale_keys reached times cut_off ks) k
      ≡ (includes ks k && (not (includes reached k) && is_old (time_of times k) cut_off))
unfolding stale_keys includes
includes-stale_keys reached times cut_off [] k = refl
includes-stale_keys reached times cut_off (j ∷ ks) k = elim (Bool-cases (same_key j k)) [
  | inl e ↦
      let same : j ≡ k = (same_key_iff j k).0 e in
      rw same (ground (arith, includes-stale_keys reached times cut_off ks k, same_key_self k))
  | inr e ↦ ground (arith, includes-stale_keys reached times cut_off ks k, e)
]

module _ (storage : StorageProvider) where
  pub del_all_lem :
      (s : storage.State) (ks : List Key) (k : Key)
      → ((del_all storage ks s).0 ≡ ok tt)
        × (storage.get (del_all storage ks s).1 k
            ≡ (if includes ks k then none else storage.get s k))
  unfolding del_all includes
  del_all_lem s [] k = (refl, refl)
  del_all_lem s (j ∷ ks) k =
      let rest = del_all_lem (storage.del s j) ks k in
      (rest.0, ground (arith, rest.1, storage.get-del s j k))

  module _ (json : JsonCodec) (text : TextDecoder) where
    -- What `gc` has read before it deletes anything.
    pub record HasRead (s : storage.State) (fuel : ℕ) (node_keys : List Key) : Type 0 where
      pub reached : List Key
      pub retained : List Key
      pub new_keys : List Key
      pub times : Times
      pub found : reachable_keys storage s text fuel node_keys ≡ ok reached
      pub retained_read : read_keys_to_retain storage s json ≡ ok retained
      pub new_keys_read : read_new_keys storage s json ≡ ok new_keys
      pub times_read : read_times storage s json ≡ ok times

    abbrev pub doomed :
        {s : storage.State} {fuel : ℕ} {node_keys : List Key}
        → HasRead s fuel node_keys
        → ℕ
        → List Key
    doomed r cut_off = stale_keys r.reached r.times cut_off (to_set [] (r.retained ++ r.new_keys))

    -- Behind its reads `gc` deletes, and writes the bookkeeping.
    pub gc_run :
        (s : storage.State) (fuel : ℕ) (node_keys : List Key) (cut_off now : ℕ)
        (r : HasRead s fuel node_keys)
        → gc storage json text fuel node_keys cut_off now s
          ≡ write_collected storage json r.reached r.times now
              (del_all storage (doomed r cut_off) s).1
    unfolding gc
    gc_run s fuel node_keys cut_off now r =
        rw (r.found, r.retained_read, r.new_keys_read, r.times_read)
          (rw ((del_all_lem s (doomed r cut_off) []).0) refl)

    -- The test of `gc` for a key that it deletes.
    abbrev pub is_stale :
        {s : storage.State} {fuel : ℕ} {node_keys : List Key}
        → HasRead s fuel node_keys
        → ℕ
        → Key
        → Bool
    is_stale r cut_off k =
        (includes r.retained k || includes r.new_keys k)
        && (not (includes r.reached k) && is_old (time_of r.times k) cut_off)

    -- Once its reads have succeeded, `gc` deletes what is stored under a key in the form of a node's key
    -- exactly if the key was tracked, is not reached and has a time before the cut-off.
    pub gc_lem :
        (s : storage.State) (fuel : ℕ) (node_keys : List Key) (cut_off now : ℕ)
        (r : HasRead s fuel node_keys) (k : Key)
        → is_valid_cb32 k ≡ true
        → storage.get (gc storage json text fuel node_keys cut_off now s).1 k
          ≡ (if is_stale r cut_off k then none else storage.get s k)
    unfolding includes
    gc_lem s fuel node_keys cut_off now r k v =
        let deleted = del_all_lem s (doomed r cut_off) k in
        let kept =
          write_collected-MetaOnly storage json r.reached r.times now
            (del_all storage (doomed r cut_off) s).1 k v in
        let same : includes (doomed r cut_off) k ≡ is_stale r cut_off k = ground (
          arith,
          includes-stale_keys r.reached r.times cut_off (to_set [] (r.retained ++ r.new_keys)) k,
          includes-to_set [] (r.retained ++ r.new_keys) k,
          includes-append r.retained r.new_keys k,
        ) in
        rw (gc_run s fuel node_keys cut_off now r) (kept ∙ deleted.1 ∙ rw same refl)

    -- A read that fails leaves everything as it was.
    pub gc_stopped :
        (s : storage.State) (fuel : ℕ) (node_keys : List Key) (cut_off now : ℕ)
        → HasRead s fuel node_keys
          ⊎ ((thrown : CasError) × (gc storage json text fuel node_keys cut_off now s
                ≡ (err thrown, s)))
    unfolding gc
    gc_stopped s fuel node_keys cut_off now =
        elim (Result-cases (reachable_keys storage s text fuel node_keys)) [
          | inr u ↦ inr (u.0, rw (u.1) refl)
          | inl a ↦ elim (Result-cases (read_keys_to_retain storage s json)) [
            | inr u ↦ inr (u.0, rw (a.1, u.1) refl)
            | inl b ↦ elim (Result-cases (read_new_keys storage s json)) [
              | inr u ↦ inr (u.0, rw (a.1, b.1, u.1) refl)
              | inl c ↦ elim (Result-cases (read_times storage s json)) [
                | inr u ↦ inr (u.0, rw (a.1, b.1, c.1, u.1) refl)
                | inl d ↦ inl (record {
                  reached = a.0;
                  retained = b.0;
                  new_keys = c.0;
                  times = d.0;
                  found = a.1;
                  retained_read = b.1;
                  new_keys_read = c.1;
                  times_read = d.1;
                })
              ]
            ]
          ]
        ]

    -- What is stored under a key in the form of a node's key, if the given keys reach it, is the same after
    -- `gc` as before, whatever `gc` reads and wherever it stops.
    pub gc-keeps :
        (s : storage.State) (fuel : ℕ) (node_keys : List Key) (cut_off now : ℕ) (k : Key)
        → is_valid_cb32 k ≡ true
        → Reaches storage text s node_keys k
        → storage.get (gc storage json text fuel node_keys cut_off now s).1 k ≡ storage.get s k
    gc-keeps s fuel node_keys cut_off now k v reach =
        elim (gc_stopped s fuel node_keys cut_off now) [
          | inr e ↦ rw (e.1) refl
          | inl r ↦
              let m : includes r.reached k ≡ true =
                (reachable_keys-eq-ok storage text s fuel node_keys r.reached r.found k).1 reach in
              let spared : is_stale r cut_off k ≡ false = ground (arith, m) in
              gc_lem s fuel node_keys cut_off now r k v ∙ rw spared refl
        ]
