-- ===== src/Core/Validation/Dicts.antt =====
-- An encoded dict node without equal names is valid.
use casfa.Base.{
  ℕ, ◌+◌, ◌-◌, ◌*◌, ◌<◌, ◌≡◌, refl, sym, ◌∙◌, ap, true, false, List, [], ◌∷◌, ◌++◌, map, length,
  take, drop, concat, All, All-map, Bytes, IsU32, ok, arith, length-drop, take-append, drop-drop,
  append-nil, le→ltb, append_assoc, is_ordered, sort-ordered, length-map, All-sort,
}
use casfa.Core.Words.{u16_bytes, get_uint16}
use casfa.Core.Text.{Text, TextDecoder}
use casfa.Core.ByteOrder.{le_bytes}
use casfa.Core.ByteOrder.Laws.{le_bytes-IsOrder}
use casfa.Core.Pascal.{slice, encode_pascal_strings}
use casfa.Core.Pascal.RoundTrip.{
  IsText, get_uint16_at, encode-strings-eq-ok, drop-encoding, length-encoding_at,
}
use casfa.Core.Header.{create_header, encode_header, get_node_type}
use casfa.Core.Node.{NodeKind, EncodedNode, Entry, has_duplicate}
use casfa.Core.Node.Fields.{IsHash}
use casfa.Core.Node.RoundTrip.{payload_at}
use casfa.Core.Node.Directory.{
  name_of, child_of, le_name, sort_entries, length-dict_node_bytes, encode_entries, encoded_names,
}
use casfa.Core.Validation.{
  Invalid, check_kind, check_dict, validate_pascal_string, validate_pascal_strings_with_names,
  validate_node_structure,
}
use casfa.Core.Validation.Complete.{validate-encoded, check_sorted-ordered}
use casfa.Encoding.Cb32.{encode_cb32}

ordered-names :
    (entries : List Entry)
    → is_ordered le_name entries ≡ true
    → is_ordered le_bytes (map name_of entries) ≡ true
unfolding is_ordered
ordered-names [] h = refl
ordered-names (a ∷ []) h = refl
ordered-names (a ∷ b ∷ rest) h = ground (arith, ordered-names (b ∷ rest))

module _ (text : TextDecoder) where
  record IsNameAt (buffer : Bytes) (offset : ℕ) (str : Text) : Type 0 where
    consumed : validate_pascal_string text buffer offset ≡ ok (2 + length str)
    size_read : get_uint16 buffer offset ≡ ok (length str)
    decoded : text.decode (slice buffer (offset + 2) (length str)) ≡ str

  validate-string_at :
      (buffer : Bytes) (offset : ℕ) (str rest : Bytes)
      → text.is_plain str ≡ true
      → length str < 65536
      → drop offset buffer ≡ u16_bytes (length str) ++ (str ++ rest)
      → IsNameAt buffer offset str
  unfolding validate_pascal_string
  validate-string_at buffer offset str rest hv hl h =
      let size : length buffer - offset ≡ 2 + length str + length rest =
        rw (← length-drop offset buffer) (ap length h ∙ length-encoding_at str rest) in
      let head : get_uint16 buffer offset ≡ ok (length str) =
        get_uint16_at buffer offset (length str) (str ++ rest) hl h in
      let body : take (length str) (drop (offset + 2) buffer) ≡ str =
        rw (← drop-drop offset 2 buffer, h) (unfold u16_bytes in take-append str rest) in
      record {
        consumed =
            rw
              (
                le→ltb (length buffer) (offset + 2) (omega arith),
                head,
                le→ltb (length buffer) (offset + 2 + length str) (omega arith),
                body,
                text.utf8-plain str hv,
              )
              refl;
        size_read = head;
        decoded = rw body (text.decode-plain str hv);
      }

  validate-strings_at :
      (buffer : Bytes) (pos : ℕ) (strings : List Text) (bytes rest : Bytes)
      → All (IsText text) strings
      → encode_pascal_strings strings ≡ ok bytes
      → drop pos buffer ≡ bytes ++ rest
      → validate_pascal_strings_with_names text buffer pos (length strings) ≡ ok strings
  unfolding validate_pascal_strings_with_names
  validate-strings_at buffer pos [] bytes rest hv he h = refl
  validate-strings_at buffer pos (str ∷ strings) bytes rest hv he h =
      let (tail, et, small, e) = encode-strings-eq-ok str strings bytes he in
      let here : drop pos buffer ≡ u16_bytes (length str) ++ (str ++ (tail ++ rest)) =
        h ∙ rw e (simp append_assoc) in
      let next : drop (pos + (2 + length str)) buffer ≡ tail ++ rest =
        rw (← drop-drop pos (2 + length str) buffer, here) (drop-encoding str (tail ++ rest)) in
      let name = validate-string_at buffer pos str (tail ++ rest) hv.0 small here in
      rw
        (
          name.consumed,
          name.size_read,
          name.decoded,
          validate-strings_at buffer (pos + (2 + length str)) strings tail rest hv.1 et next,
        )
        refl

  module _ (compute_key : Bytes → Bytes) where
    -- A dict node that was encoded, of children with 16-byte hashes and plain names of which no two
    -- neighbours in the order of their bytes are equal, is valid, with its children in that order, if it
    -- is shorter than 2 ^ 32 bytes.
    pub validate-dict :
        (entries : List Entry) (node : EncodedNode)
        → All (λ (p : Entry). IsHash p.1) entries
        → All (λ (p : Entry). text.is_plain p.0 ≡ true) entries
        → has_duplicate (map name_of (sort_entries entries)) ≡ false
        → IsU32 (length node.bytes)
        → encode_entries compute_key entries ≡ ok node
        → (names_bytes : Bytes) × (encode_pascal_strings (map name_of (sort_entries entries))
            ≡ ok names_bytes)
          × (validate_node_structure text node.bytes
              ≡ ok (record {
                kind = NodeKind.dict;
                size = length names_bytes;
                child_keys = map encode_cb32 (map child_of (sort_entries entries));
              }))
    unfolding get_node_type check_dict
    validate-dict entries node hc ht apart hn e =
        let sorted = sort_entries entries in
        let children = map child_of sorted in
        let names = map name_of sorted in
        let (names_bytes, en, r) = encoded_names compute_key entries node e in
        let hashes : All IsHash children =
          All-map IsHash child_of sorted (All-sort le_name (λ p. IsHash p.1) entries hc) in
        let texts : All (IsText text) names =
          All-map (IsText text) name_of sorted
            (All-sort le_name (λ p. IsText text p.0) entries ht) in
        let size : length node.bytes ≡ 16 + length sorted * 16 + length names_bytes =
          rw r (length-dict_node_bytes sorted names_bytes hashes) in
        let n : length children ≡ length sorted = length-map sorted child_of in
        let m : length names ≡ length children = length-map sorted name_of ∙ sym n in
        let h = create_header 1 (length names_bytes) (length children) in
        let buffer = encode_header h ++ (concat children ++ names_bytes) in
        let read =
          validate-strings_at buffer (16 + length children * 16) names names_bytes [] texts en
            (payload_at text h children names_bytes hashes ∙ sym (append-nil names_bytes)) in
        let in_order =
          check_sorted-ordered Invalid.duplicate_name Invalid.unsorted_names names
            (ordered-names sorted
              (sort-ordered le_name (λ a b. le_bytes-IsOrder.total a.0 b.0) entries))
            apart in
        let checked : check_kind text NodeKind.dict buffer h children (16 + length children * 16)
            ≡ ok tt =
          rw (rw m at read) in_order in
        let valid =
          validate-encoded 1 (length names_bytes) children names_bytes (omega arith) (omega arith)
            (omega arith) hashes refl text NodeKind.dict refl checked in
        (names_bytes, en, rw (r, ← n) valid)
