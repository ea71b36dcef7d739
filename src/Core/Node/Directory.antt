-- ===== src/Core/Node/Directory.antt =====
-- What `decodeNode` makes of the output of `encodeDictNode`.
use casfa.Base.{
  ◌+◌, ◌*◌, ◌≡◌, refl, sym, ◌∙◌, ap, Bool, true, some, List, [], ◌∷◌, ◌++◌, arith, length, map,
  concat, All, Bytes, IsU32, Result, ok, ◌>>=◌, length-append, append-nil, sort, length-map,
  All-map, ==_self, length-sort, All-sort, >>=-eq-ok,
}
use casfa.Core.Errors.{CoreError}
use casfa.Core.Text.{Text, TextDecoder}
use casfa.Core.ByteOrder.{le_bytes}
use casfa.Core.Pascal.{encode_pascal_strings}
use casfa.Core.Header.{create_header, encode_header, get_node_type}
use casfa.Core.Header.RoundTrip.{length-encode_header}
use casfa.Core.Node.{
  NodeKind, EncodedNode, finish, bare_node, decode_node, decode_payload, encode_dict_node,
  sort_children_by_name, Entry,
}
use casfa.Core.Node.Fields.{IsHash, length-concat}
use casfa.Core.Node.RoundTrip.{decode_node-sections, payload_at}
use casfa.Core.Pascal.RoundTrip.{IsText, decode-strings_at}
use mathlib.Core.List.{zip, zip_with}

abbrev pub child_of : Entry → Bytes
child_of p = p.1

abbrev pub name_of : Entry → Text
name_of p = p.0

-- The order of the entries of a dict node.
abbrev pub le_name : Entry → Entry → Bool
le_name a b = le_bytes a.0 b.0

abbrev pub sort_entries : List Entry → List Entry
sort_entries entries = sort le_name entries

zip-maps : (entries : List Entry) → zip (map name_of entries) (map child_of entries) ≡ entries
unfolding zip zip_with
zip-maps [] = refl
zip-maps (p ∷ ps) = ap (λ t. p ∷ t) (zip-maps ps)

zip-entries :
    (entries : List Entry)
    → sort_children_by_name (map name_of entries) (map child_of entries) ≡ sort_entries entries
unfolding sort_children_by_name
zip-entries entries = rw (zip-maps entries)

abbrev pub dict_node_bytes : List Entry → Bytes → Bytes
dict_node_bytes sorted names_bytes =
    encode_header (create_header 1 (length names_bytes) (length sorted))
    ++ (concat (map child_of sorted) ++ names_bytes)

pub length-dict_node_bytes :
    (sorted : List Entry) (names_bytes : Bytes)
    → All IsHash (map child_of sorted)
    → length (dict_node_bytes sorted names_bytes) ≡ 16 + length sorted * 16 + length names_bytes
length-dict_node_bytes sorted names_bytes hs =
    let h = create_header 1 (length names_bytes) (length sorted) in
    let children = map child_of sorted in
    omega (
      arith,
      length-append (encode_header h) (concat children ++ names_bytes),
      length-append (concat children) names_bytes,
      length-concat children hs,
      length-encode_header h,
      length-map sorted child_of,
    )

module _ (compute_key : Bytes → Bytes) where
  -- The arguments of `encodeDictNode` as one list of names with their children.
  abbrev pub encode_entries : List Entry → Result CoreError EncodedNode
  encode_entries entries = encode_dict_node compute_key (map child_of entries) (map name_of entries)

  -- The encoder of dict nodes fails only on a name that is too long.
  pub encode_entries_lem :
      (entries : List Entry)
      → encode_entries entries ≡ (do
        names_bytes ← encode_pascal_strings (map name_of (sort_entries entries))
        ok (finish compute_key (dict_node_bytes (sort_entries entries) names_bytes)))
  unfolding encode_dict_node
  encode_entries_lem entries =
      let n : length (map child_of entries) ≡ length (map name_of entries) =
        length-map entries child_of ∙ sym (length-map entries name_of) in
      let m : length (map child_of entries) ≡ length (sort_entries entries) =
        length-map entries child_of ∙ sym (length-sort le_name entries) in
      rw (zip-entries entries) (rw (n, ==_self (length (map name_of entries))) (rw (← n, m) refl))

  pub encoded_names :
      (entries : List Entry) (node : EncodedNode)
      → encode_entries entries ≡ ok node
      → (names_bytes : Bytes) × (encode_pascal_strings (map name_of (sort_entries entries))
          ≡ ok names_bytes)
        × (node ≡ finish compute_key (dict_node_bytes (sort_entries entries) names_bytes))
  encoded_names entries node e =
      let (b, eb, r) =
        >>=-eq-ok (encode_pascal_strings (map name_of (sort_entries entries))) _
          (sym (encode_entries_lem entries) ∙ e) in
      (b, eb, cc)

module _ (text : TextDecoder) where
  decode-dict_node_bytes :
      (sorted : List Entry) (names_bytes : Bytes)
      → All IsHash (map child_of sorted)
      → All (IsText text) (map name_of sorted)
      → IsU32 (length sorted)
      → IsU32 (length names_bytes)
      → encode_pascal_strings (map name_of sorted) ≡ ok names_bytes
      → decode_node text (dict_node_bytes sorted names_bytes)
        ≡ ok (record (bare_node NodeKind.dict (length names_bytes) (map child_of sorted)) {
          child_names = some (map name_of sorted);
        })
  unfolding get_node_type decode_payload
  decode-dict_node_bytes sorted names_bytes hashes texts hs hn en =
      let children = map child_of sorted in
      let n : length children ≡ length sorted = length-map sorted child_of in
      let m : length (map name_of sorted) ≡ length children = length-map sorted name_of ∙ sym n in
      let h = create_header 1 (length names_bytes) (length children) in
      let buffer = encode_header h ++ (concat children ++ names_bytes) in
      let offset = 16 + length children * 16 in
      let names =
        decode-strings_at text buffer offset (map name_of sorted) names_bytes [] texts en
          (payload_at text h children names_bytes hashes ∙ sym (append-nil names_bytes)) in
      let sections =
        decode_node-sections text 1 (length names_bytes) children names_bytes (omega arith) hn
          (rw n hs) hashes in
      rw (← n) (rw sections (rw (rw m at names) refl))

  module _ (compute_key : Bytes → Bytes) where
    -- A dict node that was encoded, of children with 16-byte hashes and names valid for the decoder, is
    -- read back as its names in the order of their bytes, each with its child, if it is shorter than
    -- 2 ^ 32 bytes.
    pub decode-encode_dict :
        (entries : List Entry) (node : EncodedNode)
        → All (λ (p : Entry). IsHash p.1) entries
        → All (λ (p : Entry). text.is_plain p.0 ≡ true) entries
        → IsU32 (length node.bytes)
        → encode_entries compute_key entries ≡ ok node
        → (names_bytes : Bytes) × (encode_pascal_strings (map name_of (sort_entries entries))
            ≡ ok names_bytes)
          × (decode_node text node.bytes
              ≡ ok
                  (record (bare_node NodeKind.dict
                    (length names_bytes)
                    (map child_of (sort_entries entries))) {
                      child_names = some (map name_of (sort_entries entries));
                    }))
    unfolding get_node_type decode_payload
    decode-encode_dict entries node hc ht hn e =
        let sorted = sort_entries entries in
        let (names_bytes, en, r) = encoded_names compute_key entries node e in
        let hashes : All IsHash (map child_of sorted) =
          All-map IsHash child_of sorted (All-sort le_name (λ p. IsHash p.1) entries hc) in
        let texts : All (IsText text) (map name_of sorted) =
          All-map (IsText text) name_of sorted
            (All-sort le_name (λ p. IsText text p.0) entries ht) in
        let size : length node.bytes ≡ 16 + length sorted * 16 + length names_bytes =
          rw r (length-dict_node_bytes sorted names_bytes hashes) in
        let back =
          decode-dict_node_bytes sorted names_bytes hashes texts (omega arith) (omega arith) en in
        (names_bytes, en, rw r back)
