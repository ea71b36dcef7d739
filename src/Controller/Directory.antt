-- ===== src/Controller/Directory.antt =====
-- `makeDict` of packages/core/src/controller.ts, and reading its result.
mod Examples
use casfa.Base.{
  List, map, Bytes, ◌≡◌, refl, Option, none, some, [], ◌∷◌, All, IsByte, IsU32, length, Result, ok,
  err, true, Bool,
}
use casfa.Base.Exec.{lift, reads, pure, ◌>>=◌}
use casfa.Core.Text.{Text, TextDecoder}
use casfa.Core.Node.{
  encode_dict_node, EncodedNode, Entry, CasNode, NodeKind, present, decode_node, bare_node,
}
use casfa.Core.Node.Fields.{IsHash}
use casfa.Core.Node.Directory.{child_of, name_of, sort_entries, encode_entries, decode-encode_dict}
use casfa.Encoding.Cb32.RoundTrip.{decode-encode}
use casfa.Controller.{from_core, hash_to_key, key_to_hash_bytes}
use casfa.Controller.Write.{Action, store_node}
use casfa.Controller.Read.{get_node, resolve_entries}
use casfa.Storage.{Key, StorageProvider, same_key_self}

module _ (storage : StorageProvider) (compute_key : Bytes → Bytes) (text : TextDecoder) where
  unfoldable pub make_dict : List (Text × Key) → Action storage compute_key Key
  unfolding store_node
  make_dict entries = do
    children ← reads (λ s. resolve_entries storage text s entries)
    encoded ←
        lift (
          from_core (encode_dict_node compute_key children (map (λ (e : Text × Key). e.0) entries)))
    hash ← store_node storage compute_key encoded
    pure (hash_to_key hash)

key_to_hash_bytes_lem :
    (hash : Bytes) → IsHash hash → All IsByte hash → key_to_hash_bytes (hash_to_key hash) ≡ ok hash
unfolding key_to_hash_bytes hash_to_key
key_to_hash_bytes_lem hash h b = rw (decode-encode hash b) (rw h refl)

-- An entry of a directory that `makeDict` can take: its hash has 16 bytes, and is missing or a node.
pub record IsChild (storage : StorageProvider) (text : TextDecoder) (s : storage.State) (p : Entry)
    : Type 0 where
  pub size : IsHash p.1
  pub bytes : All IsByte p.1
  pub node : Option CasNode
  pub reads : get_node storage text s (hash_to_key p.1) ≡ ok node
  pub plain : text.is_plain p.0 ≡ true

abbrev pub keyed : Entry → Text × Key
keyed p = (p.0, hash_to_key p.1)

names-keyed :
    (entries : List Entry) → map (λ (e : Text × Key). e.0) (map keyed entries) ≡ map name_of entries
names-keyed [] = refl
names-keyed (p ∷ entries) = rw (names-keyed entries) refl

module _ (storage : StorageProvider) (compute_key : Bytes → Bytes) (text : TextDecoder)
    (s : storage.State) where
  resolve_entries_lem :
      (entries : List Entry)
      → All (IsChild storage text s) entries
      → resolve_entries storage text s (map keyed entries) ≡ ok (map child_of entries)
  unfolding resolve_entries
  resolve_entries_lem [] h = refl
  resolve_entries_lem (p ∷ entries) (c, h) =
      rw (key_to_hash_bytes_lem p.1 c.size c.bytes)
        (rw c.reads (rw (resolve_entries_lem entries h) refl))

  make_dict_lem :
      (entries : List Entry) (node : EncodedNode)
      → All (IsChild storage text s) entries
      → encode_entries compute_key entries ≡ ok node
      → make_dict storage compute_key text (map keyed entries) s
        ≡ (ok (hash_to_key node.hash), storage.put s (hash_to_key node.hash) node.bytes)
  unfolding make_dict store_node
  make_dict_lem entries node h e =
      rw (resolve_entries_lem entries h) (rw (names-keyed entries) (rw e refl))

  get_node_put :
      (key : Key) (bytes : Bytes) (node : CasNode)
      → decode_node text bytes ≡ ok node
      → get_node storage text (storage.put s key bytes) key ≡ ok (some node)
  unfolding get_node
  get_node_put key bytes node d =
      rw (storage.get-put s key key bytes) (rw (same_key_self key) (rw d refl))

  sizes :
      (entries : List Entry)
      → All (IsChild storage text s) entries
      → All (λ (p : Entry). IsHash p.1) entries
  sizes [] h = h
  sizes (p ∷ entries) (c, h) = (c.size, sizes entries h)

  plains :
      (entries : List Entry)
      → All (IsChild storage text s) entries
      → All (λ (p : Entry). text.is_plain p.0 ≡ true) entries
  plains [] h = tt
  plains (p ∷ entries) (c, h) = (c.plain, plains entries h)

  -- makeDict of entries that have 16-byte hashes, whose names are valid for the decoder and whose
  -- children are missing or decode, stores the encoded dict node under the key that it returns, if that
  -- node can be encoded and is shorter than 2 ^ 32 bytes; under that key getNode then finds a dict node
  -- with the names in the order of their bytes, each with its child.
  pub get_node-make_dict :
      (entries : List Entry) (node : EncodedNode)
      → All (IsChild storage text s) entries
      → IsU32 (length node.bytes)
      → encode_entries compute_key entries ≡ ok node
      → (found : CasNode) × ((make_dict storage compute_key text (map keyed entries) s).0
          ≡ ok (hash_to_key node.hash))
        × (get_node storage text
              (make_dict storage compute_key text (map keyed entries) s).1
              (hash_to_key node.hash)
            ≡ ok (some found))
        × (found.kind ≡ NodeKind.dict)
        × (found.children ≡ present (map child_of (sort_entries entries)))
        × (found.child_names ≡ some (map name_of (sort_entries entries)))
  get_node-make_dict entries node h hn e =
      let (names_bytes, en, d) =
        decode-encode_dict text compute_key entries node (sizes entries h) (plains entries h) hn
          e in
      let g = get_node_put (hash_to_key node.hash) node.bytes _ d in
      rw (make_dict_lem entries node h e) (_, refl, g, refl, refl, refl)
