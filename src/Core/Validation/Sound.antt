-- ===== src/Core/Validation/Sound.antt =====
-- A node that validates is decoded, to the kind, the size and the children that the validation reports.
use casfa.Base.{
  ℕ, zero, suc, ◌+◌, ◌*◌, ◌≤◌, ◌≡◌, inl, inr, refl, ◌∙◌, ap, some, List, [], ◌∷◌, map, length, drop,
  Bytes, ok, >>=-eq-ok, Result-cases, arith,
}
use casfa.Core.Words.{get_uint16}
use casfa.Core.Text.{Text, TextDecoder}
use casfa.Core.Pascal.{slice, decode_pascal_string, decode_pascal_strings}
use casfa.Core.Header.{CasHeader, decode_header, get_node_type}
use casfa.Core.Node.{
  NodeKind, CasNode, bare_node, present, kind_of_type, read_children, decode_node, decode_payload,
}
use casfa.Core.Validation.{
  Validated, check_header, check_kind, check_file, check_dict, validate_pascal_string,
  validate_pascal_strings_with_names, validate_node_structure,
}
use casfa.Core.Node.{children_of}
use casfa.Core.Node.Fields.{decode_file_info-total}
use casfa.Encoding.Cb32.{encode_cb32}

-- What the header check establishes.
record IsChecked (bytes : Bytes) (h : CasHeader) (kind : NodeKind) : Type 0 where
  decoded : decode_header bytes ≡ ok h
  known : kind_of_type (get_node_type h.flags) ≡ some kind
  whole : length bytes ≡ 16 + h.count * 16 + h.size

check_header-eq-ok :
    (bytes : Bytes) (h : CasHeader) (kind : NodeKind)
    → check_header bytes ≡ ok (h, kind)
    → IsChecked bytes h kind
unfolding check_header
check_header-eq-ok bytes h kind e = elim (Result-cases (decode_header bytes)) [
  | inr u ↦ absurd (let e' = rw (u.1) at e in ground (arith, e'))
  | inl u ↦
      let e' = rw (u.1) at e in
      let same : u.0 ≡ h = ground (arith, e') in
      record {
        decoded = u.1 ∙ ap ok same;
        known = rw (← same) (ground (arith, e'));
        whole = rw (← same) (ground (arith, e'));
      }
]

children_of-present : (hashes : List Bytes) → children_of (present hashes) ≡ hashes
children_of-present [] = refl
children_of-present (c ∷ cs) = refl

file-room :
    (bytes : Bytes) (h : CasHeader) (children_end : ℕ)
    → check_file bytes h children_end ≡ ok tt
    → 64 ≤ h.size
unfolding check_file
file-room bytes h children_end e = ground (arith, e)

module _ (text : TextDecoder) where
  string-decodes :
      (buffer : Bytes) (offset consumed : ℕ)
      → validate_pascal_string text buffer offset ≡ ok consumed
      → (size : ℕ) × (get_uint16 buffer offset ≡ ok size)
        × (decode_pascal_string text buffer offset
            ≡ ok (text.decode (slice buffer (offset + 2) size), consumed))
  unfolding validate_pascal_string decode_pascal_string
  string-decodes buffer offset consumed e = elim (Result-cases (get_uint16 buffer offset)) [
    | inr u ↦ absurd (let e' = rw (u.1) at e in ground (arith, e'))
    | inl u ↦ let e' = rw (u.1) at e in (u.0, u.1, rw (u.1) (ground (arith, e')))
  ]

  strings-decode :
      (buffer : Bytes) (offset count : ℕ) (names : List Text)
      → validate_pascal_strings_with_names text buffer offset count ≡ ok names
      → decode_pascal_strings text buffer offset count ≡ ok names
  unfolding validate_pascal_strings_with_names decode_pascal_strings
  strings-decode buffer offset zero names e = ground (arith, e)
  strings-decode buffer offset (suc count) names e =
      let (consumed, ec, e1) = >>=-eq-ok (validate_pascal_string text buffer offset) _ e in
      let (size, es, ed) = string-decodes buffer offset consumed ec in
      let (rest, er, e2) =
        >>=-eq-ok (validate_pascal_strings_with_names text buffer (offset + consumed) count) _
          (rw es at e1) in
      let same : text.decode (slice buffer (offset + 2) size) ∷ rest ≡ names = ground (arith, e2) in
      rw ed (rw (strings-decode buffer (offset + consumed) count rest er) (ap ok same))

  -- What `decodeNode` gives for a node of which the validation reports `found`.
  pub record Decodes (bytes : Bytes) (found : Validated) : Type 0 where
    pub node : CasNode
    pub decoded : decode_node text bytes ≡ ok node
    pub kind_eq : node.kind ≡ found.kind
    pub size_eq : node.size ≡ found.size
    pub keys_eq : map encode_cb32 (children_of node.children) ≡ found.child_keys

  decodes_as :
      (bytes : Bytes) (h : CasHeader) (node : CasNode)
      → decode_header bytes ≡ ok h
      → decode_payload text bytes h
          (get_node_type h.flags)
          (read_children bytes 16 h.count)
          (16 + h.count * 16)
        ≡ ok node
      → decode_node text bytes ≡ ok node
  unfolding decode_node
  decodes_as bytes h node eh ep = rw eh ep

  -- The payload of each kind is decoded once the check for the kind has passed.
  payload-decodes :
      (bytes : Bytes) (h : CasHeader) (kind : NodeKind) (children : List Bytes)
      → IsChecked bytes h kind
      → check_kind text kind bytes h children (16 + h.count * 16) ≡ ok tt
      → (node : CasNode) × (decode_payload text bytes h
            (get_node_type h.flags)
            children
            (16 + h.count * 16)
          ≡ ok node)
        × (node.kind ≡ kind)
        × (node.size ≡ h.size)
        × (node.children ≡ present children)
  unfolding decode_payload check_dict
  payload-decodes bytes h NodeKind.set children c e =
      let type : get_node_type h.flags ≡ 0 = ground (arith, c.known) in
      (bare_node NodeKind.set h.size children, rw type refl, refl, refl, refl)
  payload-decodes bytes h NodeKind.dict children c e =
      let type : get_node_type h.flags ≡ 1 = ground (arith, c.known) in
      let (names, en, es) =
        >>=-eq-ok (validate_pascal_strings_with_names text bytes (16 + h.count * 16) h.count) _ e in
      let read = strings-decode bytes (16 + h.count * 16) h.count names en in
      (
        record (bare_node NodeKind.dict h.size children) { child_names = some names },
        rw type (rw read refl),
        refl,
        refl,
        refl,
      )
  payload-decodes bytes h NodeKind.successor children c e =
      let type : get_node_type h.flags ≡ 2 = ground (arith, c.known) in
      (
        record (bare_node NodeKind.successor h.size children) {
          content = some (drop (16 + h.count * 16) bytes);
        },
        rw type refl,
        refl,
        refl,
        refl,
      )
  payload-decodes bytes h NodeKind.file children c e =
      let type : get_node_type h.flags ≡ 3 = ground (arith, c.known) in
      let room : 64 ≤ h.size = file-room bytes h (16 + h.count * 16) e in
      let info = decode_file_info-total text bytes (16 + h.count * 16) (omega (arith, c.whole)) in
      (
        record (bare_node NodeKind.file h.size children) {
          file_info = some info.0;
          content = some (drop (16 + h.count * 16 + 64) bytes);
        },
        rw type (rw info.1 refl),
        refl,
        refl,
        refl,
      )

  -- A node that validates is decoded, to a node of the kind, the size and the child keys that the
  -- validation reports.
  pub validate-Decodes :
      (bytes : Bytes) (found : Validated)
      → validate_node_structure text bytes ≡ ok found
      → Decodes bytes found
  unfolding validate_node_structure
  validate-Decodes bytes found e =
      let (hk, eh, e1) = >>=-eq-ok (check_header bytes) _ e in
      let h = hk.0 in
      let children = read_children bytes 16 h.count in
      let (u, ek, e2) =
        >>=-eq-ok (check_kind text hk.1 bytes h children (16 + h.count * 16)) _ e1 in
      let c = check_header-eq-ok bytes h hk.1 eh in
      let (node, ep, kind, size, below) = payload-decodes bytes h hk.1 children c ek in
      let same : record { kind = hk.1; size = h.size; child_keys = map encode_cb32 children }
          ≡ found =
        ground (arith, e2) in
      record {
        node = node;
        decoded = decodes_as bytes h node c.decoded ep;
        kind_eq = kind ∙ ap (λ (v : Validated). v.kind) same;
        size_eq = size ∙ ap (λ (v : Validated). v.size) same;
        keys_eq =
            rw below
              (rw (children_of-present children) (ap (λ (v : Validated). v.child_keys) same));
      }
