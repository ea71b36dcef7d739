-- ===== src/Drive/Entries.antt =====
-- Dict nodes as lists of entries: what a name stands for, and what sorting and changing entries do to it.
use casfa.Base.{
  ℕ, zero, suc, ◌+◌, ◌*◌, ◌≡◌, refl, ◌∙◌, true, Option, none, some, List, [], ◌∷◌, length, map,
  arith, if◌then◌else◌, inl, inr, Bool-cases, Option-cases, ok, Bytes, All, IsU32, insert, sort,
  All-map, All-sort,
}
use casfa.Core.ByteOrder.{le_bytes}
use casfa.Core.Pascal.{encode_pascal_strings}
use casfa.Core.Pascal.RoundTrip.{encode-strings-eq-ok, length-encoding_at}
use casfa.Core.Text.{Text, TextDecoder}
use casfa.Core.ByteOrder.Laws.{le_bytes-IsOrder}
use casfa.Core.Node.{CasNode, NodeKind, Entry, EncodedNode, present, children_of, decode_node}
use casfa.Core.Node.Fields.{IsHash}
use casfa.Core.Node.Directory.{
  child_of, name_of, le_name, sort_entries, encode_entries, encoded_names, length-dict_node_bytes,
  decode-encode_dict,
}
use casfa.Storage.{same_key, same_key_iff}
use casfa.Drive.{get_elem?, set, index_of}

-- The child of the first entry with the name.
unfoldable pub child_at : List Entry → Text → Option Bytes
unfolding same_key
child_at [] name = none
child_at (p ∷ entries) name = if same_key p.0 name then some p.1 else child_at entries name

-- The entries with another child at the index.
unfoldable pub with_child : List Entry → ℕ → Bytes → List Entry
with_child [] i hash = []
with_child (p ∷ entries) zero hash = (p.0, hash) ∷ entries
with_child (p ∷ entries) (suc i) hash = p ∷ with_child entries i hash

-- The size of a dict node.
abbrev pub dict_size : List Entry → ℕ
dict_size [] = 16
dict_size (p ∷ entries) = 18 + length p.0 + dict_size entries

le_bytes_self : (a : Bytes) → le_bytes a a ≡ true
le_bytes_self a = elim (Bool-cases (le_bytes a a)) [
  | inl e ↦ e
  | inr e ↦ le_bytes-IsOrder.total a a e
]

child_at-insert :
    (x : Entry) (ys : List Entry) (name : Text)
    → child_at (insert le_name x ys) name ≡ child_at (x ∷ ys) name
unfolding child_at insert
child_at-insert x [] name = refl
child_at-insert x (y ∷ ys) name = elim (Bool-cases (le_bytes x.0 y.0)) [
  | inl e ↦ rw e refl
  | inr e ↦ rw e (
      rw (child_at-insert x ys name)
        (ground (arith, same_key_iff x.0 name, same_key_iff y.0 name, le_bytes_self name, e)))
]

-- Sorting the entries does not change what a name stands for.
pub child_at-sort :
    (entries : List Entry) (name : Text)
    → child_at (sort_entries entries) name ≡ child_at entries name
unfolding child_at sort
child_at-sort [] name = refl
child_at-sort (x ∷ xs) name =
    child_at-insert x (sort le_name xs) name ∙ unfold child_at in rw (child_at-sort xs name) refl

-- What a name stands for, where its entry is found.
pub child_at-index :
    (entries : List Entry) (name : Text) (i : ℕ)
    → index_of (map name_of entries) name ≡ some i
    → get_elem? (map child_of entries) i ≡ child_at entries name
unfolding child_at index_of
child_at-index [] name i e = cc
child_at-index (p ∷ entries) name i e = elim (Bool-cases (same_key p.0 name)) [
  | inl same ↦ let z : 0 ≡ i = ground (arith, e, same) in rw (← z, same) refl
  | inr apart ↦ elim (Option-cases (index_of (map name_of entries) name)) [
    | inl gone ↦ absurd (ground (arith, e, apart, gone))
    | inr (j, found) ↦
        let next : suc j ≡ i = ground (arith, e, apart, found) in
        rw (← next, apart) (child_at-index entries name j found)
  ]
]

-- An entry is found exactly if the name stands for something.
pub index_of-child_at :
    (entries : List Entry) (name : Text) (hash : Bytes)
    → child_at entries name ≡ some hash
    → (i : ℕ) × (index_of (map name_of entries) name ≡ some i)
      × (get_elem? (map child_of entries) i ≡ some hash)
unfolding child_at index_of
index_of-child_at [] name hash e = cc
index_of-child_at (p ∷ entries) name hash e = elim (Bool-cases (same_key p.0 name)) [
  | inl same ↦ (0, rw same refl, ground (arith, e, same))
  | inr apart ↦
      let (i, found, h) = index_of-child_at entries name hash (rw apart at e) in
      (suc i, rw apart (rw found refl), h)
]

pub child_at-with_child :
    (entries : List Entry) (name : Text) (i : ℕ) (hash : Bytes) (other : Text)
    → index_of (map name_of entries) name ≡ some i
    → child_at (with_child entries i hash) other
      ≡ (if same_key name other then some hash else child_at entries other)
unfolding child_at index_of with_child
child_at-with_child [] name i hash other e = cc
child_at-with_child (p ∷ entries) name i hash other e = elim (Bool-cases (same_key p.0 name)) [
  | inl same ↦
      let z : 0 ≡ i = ground (arith, e, same) in
      rw (← z) (ground (arith, same, same_key_iff p.0 name))
  | inr apart ↦ elim (Option-cases (index_of (map name_of entries) name)) [
    | inl gone ↦ absurd (ground (arith, e, apart, gone))
    | inr (j, found) ↦
        let next : suc j ≡ i = ground (arith, e, apart, found) in
        rw (← next) (
          rw (child_at-with_child entries name j hash other found) (
            ground (
              arith,
              apart,
              same_key_iff p.0 name,
              same_key_iff p.0 other,
              same_key_iff name other,
            )))
  ]
]

pub names-with_child :
    (entries : List Entry) (i : ℕ) (hash : Bytes)
    → map name_of (with_child entries i hash) ≡ map name_of entries
unfolding with_child
names-with_child [] i hash = refl
names-with_child (p ∷ entries) zero hash = refl
names-with_child (p ∷ entries) (suc i) hash = rw (names-with_child entries i hash) refl

pub children-with_child :
    (entries : List Entry) (i : ℕ) (hash : Bytes)
    → map child_of (with_child entries i hash) ≡ set (map child_of entries) i hash
unfolding with_child
children-with_child [] i hash = refl
children-with_child (p ∷ entries) zero hash = refl
children-with_child (p ∷ entries) (suc i) hash = rw (children-with_child entries i hash) refl

pub dict_size-with_child :
    (entries : List Entry) (i : ℕ) (hash : Bytes)
    → dict_size (with_child entries i hash) ≡ dict_size entries
unfolding with_child
dict_size-with_child [] i hash = refl
dict_size-with_child (p ∷ entries) zero hash = refl
dict_size-with_child (p ∷ entries) (suc i) hash = omega (arith, dict_size-with_child entries i hash)

-- Entries that a dict node can have: 16-byte hashes, and names that the decoder leaves as they are.
pub record IsEntry (text : TextDecoder) (p : Entry) : Type 0 where
  pub hash : IsHash p.1
  pub plain : text.is_plain p.0 ≡ true

pub All-with_child :
    (text : TextDecoder) (entries : List Entry) (i : ℕ) (hash : Bytes)
    → IsHash hash
    → All (IsEntry text) entries
    → All (IsEntry text) (with_child entries i hash)
unfolding with_child
All-with_child text [] i hash v h = tt
All-with_child text (p ∷ entries) zero hash v h = (record { hash = v; plain = h.0.plain }, h.1)
All-with_child text (p ∷ entries) (suc i) hash v h = (h.0, All-with_child text entries i hash v h.1)

dict_size-insert :
    (x : Entry) (ys : List Entry) → dict_size (insert le_name x ys) ≡ 18 + length x.0 + dict_size ys
unfolding insert
dict_size-insert x [] = refl
dict_size-insert x (y ∷ ys) = ground (arith, dict_size-insert x ys)

dict_size-sort : (entries : List Entry) → dict_size (sort_entries entries) ≡ dict_size entries
unfolding sort
dict_size-sort [] = refl
dict_size-sort (x ∷ xs) = omega (arith, dict_size-insert x (sort le_name xs), dict_size-sort xs)

length-strings :
    (entries : List Entry) (bytes : Bytes)
    → encode_pascal_strings (map name_of entries) ≡ ok bytes
    → 16 + length entries * 16 + length bytes ≡ dict_size entries
unfolding encode_pascal_strings
length-strings [] bytes e = let same : [] ≡ bytes = cc in rw (← same) refl
length-strings (p ∷ entries) bytes e =
    let (tail, et, hl, same) = encode-strings-eq-ok p.0 (map name_of entries) bytes e in
    rw same (omega (arith, length-strings entries tail et, length-encoding_at p.0 tail))

child_hashes :
    (text : TextDecoder) (entries : List Entry)
    → All (IsEntry text) entries
    → All (λ (p : Entry). IsHash p.1) entries
child_hashes text [] h = tt
child_hashes text (p ∷ entries) h = (h.0.hash, child_hashes text entries h.1)

plain_names :
    (text : TextDecoder) (entries : List Entry)
    → All (IsEntry text) entries
    → All (λ (p : Entry). text.is_plain p.0 ≡ true) entries
plain_names text [] h = tt
plain_names text (p ∷ entries) h = (h.0.plain, plain_names text entries h.1)

-- A decoded node that is a dict of these entries.
pub record IsDict (text : TextDecoder) (node : CasNode) (entries : List Entry) : Type 0 where
  pub kind : node.kind ≡ NodeKind.dict
  pub names : node.child_names ≡ some (map name_of entries)
  pub children : children_of node.children ≡ map child_of entries
  pub valid : All (IsEntry text) entries
  pub small : IsU32 (dict_size entries)

children_of-present : (hashes : List Bytes) → children_of (present hashes) ≡ hashes
children_of-present [] = refl
children_of-present (h ∷ hs) = refl

-- The encoded dict of entries is read back as the dict of these entries in the order of their names.
pub decode-encode_entries :
    (text : TextDecoder) (compute_key : Bytes → Bytes) (entries : List Entry)
    (encoded : EncodedNode)
    → All (IsEntry text) entries
    → IsU32 (dict_size entries)
    → encode_entries compute_key entries ≡ ok encoded
    → (node : CasNode) × (decode_node text encoded.bytes ≡ ok node)
      × IsDict text node (sort_entries entries)
decode-encode_entries text compute_key entries encoded h small e =
    let sorted = sort_entries entries in
    let hashes = child_hashes text entries h in
    let (names_bytes, en, same) = encoded_names compute_key entries encoded e in
    let sorted_hashes =
      All-map IsHash child_of sorted
        (All-sort le_name (λ (p : Entry). IsHash p.1) entries hashes) in
    let size : length encoded.bytes ≡ dict_size entries = rw same (
      omega (
        arith,
        length-dict_node_bytes sorted names_bytes sorted_hashes,
        length-strings sorted names_bytes en,
        dict_size-sort entries,
      )) in
    let (b, eb, d) =
      decode-encode_dict text compute_key entries encoded hashes (plain_names text entries h)
        (rw size small) e in
    (
      _,
      d,
      record {
        kind = refl;
        names = refl;
        children = children_of-present (map child_of sorted);
        valid = All-sort le_name (IsEntry text) entries h;
        small = rw (dict_size-sort entries) small;
      },
    )
