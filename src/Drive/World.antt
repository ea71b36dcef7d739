-- ===== src/Drive/World.antt =====
-- What the services of the drive change, and the writing functions that they share; `ensureEmptyRoot` of
-- cells/drive/backend/services/root-resolver.ts.
use casfa.Base.{List, [], ◌∷◌, ◌++◌, if◌then◌else◌, Bytes, ok}
use casfa.Base.Exec.{Exec, pure, lift, reads, ◌>>=◌, ◌>>◌}
use casfa.Core.Text.{Text}
use casfa.Core.Node.{encode_dict_node}
use casfa.Controller.{hash_to_key}
use casfa.Storage.{Key}
use casfa.Cas.{Stream, stream_from_bytes}
use casfa.Cas.Facade.{CasFacade}
use casfa.Drive.{DriveError, from_core, from_cas}

module _ (compute_key : Bytes → Bytes) (cas : CasFacade compute_key) where
  -- What the services change: the CAS, and the keys that `onNodePut` and `recordNewKey` were called with, in
  -- their order.
  abbrev pub World : Type 0
  World = cas.State × List Key

  abbrev pub Action : Type 0 → Type 0
  Action A = Exec World DriveError A

  -- A call of the facade's `putNode`.
  unfoldable pub put_node : Key → Stream → Action (Unit {0})
  put_node key body (s, reported) =
      let (r, t) = cas.put_node key body s in (from_cas r, (t, reported))

  -- `onNodePut?.(key)`
  unfoldable pub report : Key → Action (Unit {0})
  report key (s, reported) = (ok tt, (s, reported ++ (key ∷ [])))

  -- `encodeDictNode`, `putNode` of its bytes under their key, and `onNodePut`.
  unfoldable pub put_dict : List Bytes → List Text → Action Key
  unfolding put_node report hash_to_key
  put_dict children names = do
    encoded ← lift (from_core (encode_dict_node compute_key children names))
    put_node (hash_to_key encoded.hash) (stream_from_bytes encoded.bytes)
    report (hash_to_key encoded.hash)
    pure (hash_to_key encoded.hash)

  unfoldable pub ensure_empty_root : Action Key
  unfolding put_node hash_to_key
  ensure_empty_root = do
    encoded ← lift (from_core (encode_dict_node compute_key [] []))
    let node_key = hash_to_key encoded.hash
    exists ← reads (λ w. ok (cas.has_node w.0 node_key))
    let create : Action Key = (do
      put_node node_key (stream_from_bytes encoded.bytes)
      pure node_key)
    if exists then pure node_key else create
