-- ===== src/Drive/Mutations/Put.antt =====
-- What the writes of a dict leave behind: the dict under its key, the key reported, all other keys as
-- they were.
use casfa.Base.{
  ℕ, ◌≡◌, ◌≢◌, refl, sym, some, List, [], ◌∷◌, ◌++◌, map, arith, inl, inr, ok, err, Bytes, All,
  IsByte, IsU32, Result-cases, append-nil,
}
use casfa.Core.Text.{Text, TextDecoder}
use casfa.Core.Node.{CasNode, Entry, EncodedNode, decode_node}
use casfa.Core.Node.Fields.{IsHash}
use casfa.Core.Node.Directory.{child_of, name_of, sort_entries, encode_entries, encoded_names}
use casfa.Encoding.Cb32.RoundTrip.{decode-encode}
use casfa.Controller.{hash_to_key}
use casfa.Controller.RoundTrip.{IsKeyProvider}
use casfa.Storage.{Key}
use casfa.Cas.{stream_from_bytes}
use casfa.Cas.Facade.{CasFacade}
use casfa.Drive.{DriveError, core_error, cas_error}
use casfa.Drive.Entries.{
  IsEntry, IsDict, dict_size, child_at, with_child, decode-encode_entries, index_of-child_at,
  names-with_child, children-with_child, dict_size-with_child, All-with_child,
}
use casfa.Drive.Resolver.{get_node_decoded, resolve_segment, names_of}
use casfa.Drive.World.{World, put_dict}
use casfa.Drive.Mutations.{put_child, need_dict, resolve_segment as resolve_below}

-- Resolving a name in a dict gives the key of its child.
pub resolve_segment-IsDict :
    (text : TextDecoder) (node : CasNode) (entries : List Entry) (name : Text) (hash : Bytes)
    → IsDict text node entries
    → child_at entries name ≡ some hash
    → resolve_segment node name ≡ ok (some (hash_to_key hash))
unfolding resolve_segment child_at
resolve_segment-IsDict text node [] name hash d e = cc
resolve_segment-IsDict text node (p ∷ entries) name hash d e =
    let (i, found, h) = index_of-child_at (p ∷ entries) name hash e in
    rw (d.kind) (rw (d.names) (rw (d.children) (rw found (rw h refl))))

-- The same of `resolveSegment` in tree-mutations.ts.
pub resolve_below-IsDict :
    (text : TextDecoder) (node : CasNode) (entries : List Entry) (name : Text) (hash : Bytes)
    → IsDict text node entries
    → child_at entries name ≡ some hash
    → resolve_below node name ≡ ok (some (hash_to_key hash))
unfolding resolve_below child_at
resolve_below-IsDict text node [] name hash d e = cc
resolve_below-IsDict text node (p ∷ entries) name hash d e =
    let (i, found, h) = index_of-child_at (p ∷ entries) name hash e in
    rw (d.kind) (rw (d.names) (rw (d.children) (rw found (rw h refl))))

pub need_dict-IsDict :
    (text : TextDecoder) (node : CasNode) (entries : List Entry) (thrown : DriveError)
    → IsDict text node entries
    → need_dict (some node) thrown ≡ ok node
need_dict-IsDict text node entries thrown d = rw (d.kind) refl

pub names_of-IsDict :
    (text : TextDecoder) (node : CasNode) (entries : List Entry)
    → IsDict text node entries
    → names_of node.child_names ≡ map name_of entries
names_of-IsDict text node entries d = rw (d.names) refl

module _ (compute_key : Bytes → Bytes) (cas : CasFacade compute_key) (text : TextDecoder) where
  -- A state in which the key has a dict of these entries.
  pub record HasDict (s : cas.State) (key : Key) (entries : List Entry) : Type 0 where
    pub node : CasNode
    pub found : get_node_decoded compute_key cas text s key ≡ ok (some node)
    pub dict : IsDict text node entries

  -- The state behind a write: the key is reported, and other keys read what they read before.
  pub record IsWritten (w t : World compute_key cas) (key : Key) : Type 0 where
    pub hash : Bytes
    pub key_eq : key ≡ hash_to_key hash
    pub key_bytes : All IsByte hash
    pub key_size : IsHash hash
    pub reported : t.1 ≡ w.1 ++ (key ∷ [])
    pub kept :
        (other : Bytes)
        → key ≢ hash_to_key other
        → cas.get_node t.0 (hash_to_key other) ≡ cas.get_node w.0 (hash_to_key other)

  get_node_decoded-put :
      (s : cas.State) (key : Key) (bytes : Bytes) (node : CasNode)
      → (cas.put_node key (stream_from_bytes bytes) s).0 ≡ ok tt
      → decode_node text bytes ≡ ok node
      → get_node_decoded compute_key cas text (cas.put_node key (stream_from_bytes bytes) s).1 key
        ≡ ok (some node)
  unfolding get_node_decoded
  get_node_decoded-put s key bytes node e d =
      rw (cas.get-put s key (stream_from_bytes bytes) e)
        (rw (append-nil bytes, append-nil bytes) (rw d refl))

  put_entries_lem :
      (entries : List Entry) (encoded : EncodedNode) (w : World compute_key cas)
      → encode_entries compute_key entries ≡ ok encoded
      → (cas.put_node (hash_to_key encoded.hash) (stream_from_bytes encoded.bytes) w.0).0 ≡ ok tt
      → put_dict compute_key cas (map child_of entries) (map name_of entries) w ≡ (
        ok (hash_to_key encoded.hash),
        (
          (cas.put_node (hash_to_key encoded.hash) (stream_from_bytes encoded.bytes) w.0).1,
          w.1 ++ (hash_to_key encoded.hash ∷ []),
        ),
      )
  unfolding put_dict
  put_entries_lem entries encoded w e p = rw e (rw p refl)

  -- A write that succeeds was encoded and put.
  put_entries-eq-ok :
      (entries : List Entry) (w : World compute_key cas) (key : Key)
      → (put_dict compute_key cas (map child_of entries) (map name_of entries) w).0 ≡ ok key
      → (encoded : EncodedNode) × (encode_entries compute_key entries ≡ ok encoded)
        × (key ≡ hash_to_key encoded.hash)
        × ((cas.put_node (hash_to_key encoded.hash) (stream_from_bytes encoded.bytes) w.0).0
            ≡ ok tt)
  unfolding put_dict
  put_entries-eq-ok entries w key e = elim (Result-cases (encode_entries compute_key entries)) [
    | inr u ↦ absurd (let q : err (core_error u.0) ≡ ok key = rw (u.1) at e in cc)
    | inl u ↦
        elim (Result-cases
          (cas.put_node (hash_to_key (u.0).hash) (stream_from_bytes (u.0).bytes) w.0).0) [
            | inr v ↦ absurd (let q : err (cas_error v.0) ≡ ok key = rw (u.1, v.1) at e in cc)
            | inl v ↦
                let same : hash_to_key (u.0).hash ≡ key = ground (arith, rw (u.1, v.1) at e) in
                (u.0, u.1, sym same, v.1)
          ]
  ]

  module _ (provider : IsKeyProvider compute_key) where
    -- A dict that was written can be read under its key, in the order of its names.
    pub put_entries :
        (entries : List Entry) (w : World compute_key cas) (key : Key)
        → All (IsEntry text) entries
        → IsU32 (dict_size entries)
        → (put_dict compute_key cas (map child_of entries) (map name_of entries) w).0 ≡ ok key
        → HasDict
            (put_dict compute_key cas (map child_of entries) (map name_of entries) w).1.0
            key
            (sort_entries entries)
          × IsWritten w
              (put_dict compute_key cas (map child_of entries) (map name_of entries) w).1
              key
    put_entries entries w key h small e =
        let (encoded, en, same, p) = put_entries-eq-ok entries w key e in
        let (node, d, dict) = decode-encode_entries text compute_key entries encoded h small en in
        let (names_bytes, eb, made) = encoded_names compute_key entries encoded en in
        let hashed : encoded.hash ≡ compute_key encoded.bytes = cc (made) in
        rw (put_entries_lem entries encoded w en p, same)
          (
            record {
              node = node;
              found = get_node_decoded-put w.0 (hash_to_key encoded.hash) encoded.bytes node p d;
              dict = dict;
            },
            record {
              hash = encoded.hash;
              key_eq = refl;
              key_bytes = rw hashed (provider.bytes encoded.bytes);
              key_size = rw hashed (provider.size encoded.bytes);
              reported = refl;
              kept = λ other apart.
                  cas.get-put_other w.0 (hash_to_key encoded.hash) (stream_from_bytes encoded.bytes)
                    other apart;
            },
          )

    put_child_lem :
        (node : CasNode) (entries : List Entry) (i : ℕ) (hash : Bytes) (w : World compute_key cas)
        → IsDict text node entries
        → All IsByte hash
        → put_child compute_key cas node i (hash_to_key hash) w
          ≡ put_dict compute_key cas
              (map child_of (with_child entries i hash))
              (map name_of (with_child entries i hash))
              w
    unfolding put_child hash_to_key
    put_child_lem node entries i hash w d bytes = rw (decode-encode hash bytes) (
        rw (d.children) (
          rw (d.names)
            (rw (children-with_child entries i hash, names-with_child entries i hash) refl)))

    -- The same for `put_child`: the dict of the entries with another child.
    pub put_child-eq-ok :
        (node : CasNode) (entries : List Entry) (i : ℕ) (hash : Bytes) (w : World compute_key cas)
        (key : Key)
        → IsDict text node entries
        → IsHash hash
        → All IsByte hash
        → (put_child compute_key cas node i (hash_to_key hash) w).0 ≡ ok key
        → HasDict
            (put_child compute_key cas node i (hash_to_key hash) w).1.0
            key
            (sort_entries (with_child entries i hash))
          × IsWritten w (put_child compute_key cas node i (hash_to_key hash) w).1 key
    put_child-eq-ok node entries i hash w key d size bytes e =
        let same = put_child_lem node entries i hash w d bytes in
        rw same (
          put_entries (with_child entries i hash) w key
            (All-with_child text entries i hash size d.valid)
            (rw (dict_size-with_child entries i hash) d.small) (rw same at e))
