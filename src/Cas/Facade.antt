-- ===== src/Cas/Facade.antt =====
-- The interface CasFacade of packages/cas/src/types.ts, as the services of the cells use it, and
-- `createCasFacade` as its implementation.
use casfa.Base.{
  ℕ, suc, ◌≡◌, ◌≢◌, refl, ◌∙◌, Bool, Option, some, Bytes, arith, ok, Result-cases, Bool-cases, inl,
  inr, append-nil,
}
use casfa.Base.Exec.{Exec}
use casfa.Core.Text.{TextDecoder}
use casfa.Core.Node.{decode_node, children_of}
use casfa.Controller.{hash_to_key}
use casfa.Storage.{Key, StorageProvider, same_key, same_key_iff}
use casfa.Cas.{CasError, JsonCodec, Stream, bytes_from_stream, stream_from_bytes, from_core}
use casfa.Cas.Lookup.{CasNodeResult, get_node, has_node, check_children}
use casfa.Cas.Update.{put_node}
use casfa.Cas.Keys.{hash_to_key-valid}
use casfa.Cas.Blobs.{track_node-MetaOnly}
use casfa.Cas.Outcome.{put_node-eq-ok}

-- The operations that the drive calls, with what it relies on: a `putNode` that succeeds was given the key
-- of its bytes and leaves them readable, and no `putNode` changes what another node's key reads.
pub record CasFacade (compute_key : Bytes → Bytes) : Type 1 where
  pub State : Type 0
  pub get_node : State → Key → Option CasNodeResult
  pub has_node : State → Key → Bool
  pub put_node : Key → Stream → Exec State CasError (Unit {0})
  pub key-put :
      (s : State) (key : Key) (body : Stream)
      → (put_node key body s).0 ≡ ok tt
      → key ≡ hash_to_key (compute_key (bytes_from_stream body))
  pub get-put :
      (s : State) (key : Key) (body : Stream)
      → (put_node key body s).0 ≡ ok tt
      → get_node (put_node key body s).1 key
        ≡ some (record { key = key; body = stream_from_bytes (bytes_from_stream body) })
  pub get-put_other :
      (s : State) (key : Key) (body : Stream) (hash : Bytes)
      → key ≢ hash_to_key hash
      → get_node (put_node key body s).1 (hash_to_key hash) ≡ get_node s (hash_to_key hash)

module _ (storage : StorageProvider) (json : JsonCodec) (text : TextDecoder)
    (compute_key : Bytes → Bytes) where
  pub get_node-same :
      (s t : storage.State) (key : Key)
      → storage.get t key ≡ storage.get s key
      → get_node storage t key ≡ get_node storage s key
  unfolding get_node
  get_node-same s t key e = rw e refl

  pub put_node-other :
      (s : storage.State) (key : Key) (body : Stream) (now : ℕ) (hash : Bytes)
      → key ≢ hash_to_key hash
      → storage.get (put_node storage json text compute_key key body now s).1 (hash_to_key hash)
        ≡ storage.get s (hash_to_key hash)
  unfolding put_node
  put_node-other s key body now hash apart =
      let bytes = bytes_from_stream body in
      elim (Result-cases (from_core (decode_node text bytes))) [
        | inr u ↦ rw (u.1) refl
        | inl u ↦ elim (Result-cases (check_children storage s (children_of (u.0).children))) [
          | inr v ↦ rw (u.1, v.1) refl
          | inl v ↦ elim (Bool-cases (same_key (hash_to_key (compute_key bytes)) key)) [
            | inr i ↦ rw (u.1, v.1, i) refl
            | inl i ↦
                let p = storage.put s key bytes in
                rw (u.1, v.1, i, append-nil bytes)
                  (track_node-MetaOnly storage json key now p (hash_to_key hash)
                      (hash_to_key-valid hash)
                    ∙ ground (
                      arith,
                      storage.get-put s key (hash_to_key hash) bytes,
                      same_key_iff key (hash_to_key hash),
                    ))
          ]
        ]
      ]

  -- `createCasFacade`. The state is the storage and the number of calls of `Date.now()` so far; `clock` is
  -- what these calls return.
  module _ (clock : ℕ → ℕ) where
    abbrev pub put_at : Key → Stream → Exec (storage.State × ℕ) CasError (Unit {0})
    put_at key body (s, tick) =
        let (r, t) = put_node storage json text compute_key key body (clock tick) s in
        (r, (t, suc tick))

    abbrev pub create_cas_facade : CasFacade compute_key
    create_cas_facade = record {
      State = storage.State × ℕ;
      get_node = λ s key. get_node storage s.0 key;
      has_node = λ s key. has_node storage s.0 key;
      put_node = put_at;
      key-put = λ s key body e.
          (put_node-eq-ok storage json text compute_key s.0 key body (clock s.1) e).key_eq;
      get-put = λ s key body e.
          (put_node-eq-ok storage json text compute_key s.0 key body (clock s.1) e).readable;
      get-put_other = λ s key body hash apart.
          get_node-same s.0 _ (hash_to_key hash)
            (put_node-other s.0 key body (clock s.1) hash apart);
    }
