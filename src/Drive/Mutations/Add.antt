-- ===== src/Drive/Mutations/Add.antt =====
-- What `addOrReplaceInDict` makes of a dict.
use casfa.Base.{
  ℕ, ◌+◌, ◌≡◌, ◌≢◌, refl, ◌∙◌, true, false, Bool, none, some, List, [], ◌∷◌, ◌++◌, length, map,
  arith, inl, inr, ◌⊎◌, if◌then◌else◌, is_ordered, sort, insert, ok, Bytes, All, IsByte, IsU32,
  Option-cases,
}
use casfa.Core.Text.{Text, TextDecoder}
use casfa.Core.Node.{CasNode, Entry}
use casfa.Core.Node.Fields.{IsHash}
use casfa.Core.Node.Directory.{child_of, name_of, sort_entries}
use casfa.Encoding.Cb32.RoundTrip.{decode-encode}
use casfa.Controller.{hash_to_key}
use casfa.Controller.RoundTrip.{IsKeyProvider}
use casfa.Storage.{Key, same_key, same_key_self}
use casfa.Cas.Facade.{CasFacade}
use casfa.Drive.{not_a_dict, index_of}
use casfa.Drive.Entries.{
  IsDict, IsEntry, dict_size, child_at, with_child, child_at-sort, child_at-with_child,
  names-with_child, children-with_child, dict_size-with_child, All-with_child,
}
use casfa.Drive.Resolver.{get_node_decoded}
use casfa.Drive.World.{World, put_dict}
use casfa.Drive.Mutations.{add_or_replace_in_dict, insert_at}
use casfa.Drive.Mutations.Put.{HasDict, IsWritten, put_entries, need_dict-IsDict, names_of-IsDict}
use casfa.Drive.Mutations.Placed.{
  name-placed, map-insert_at, child_at-insert_at, All-insert_at, dict_size-insert_at,
}

module _ (compute_key : Bytes → Bytes) (cas : CasFacade compute_key) (text : TextDecoder)
    (le_locale : Text → Text → Bool) where
  module _ (w : World compute_key cas) (dict_key : Key) (node : CasNode) (entries : List Entry)
      (found : get_node_decoded compute_key cas text w.0 dict_key ≡ ok (some node))
      (dict : IsDict text node entries) (name : Text) (hash : Bytes) (bytes : All IsByte hash) where
    -- An entry of the name is there: its child is replaced.
    replace_entry_lem :
        (i : ℕ)
        → index_of (map name_of entries) name ≡ some i
        → add_or_replace_in_dict compute_key cas text le_locale dict_key name (hash_to_key hash) w
          ≡ put_dict compute_key cas
              (map child_of (with_child entries i hash))
              (map name_of (with_child entries i hash))
              w
    unfolding add_or_replace_in_dict hash_to_key
    replace_entry_lem i e = rw found (
        rw (need_dict-IsDict text node entries not_a_dict dict) (
          rw (names_of-IsDict text node entries dict) (
            rw (decode-encode hash bytes) (
              rw e (
                rw (dict.children) (
                  rw (children-with_child entries i hash, names-with_child entries i hash)
                    refl))))))

    -- No entry of the name is there: it goes where the collation has it.
    new_entry_lem :
        (j : ℕ)
        → index_of (map name_of entries) name ≡ none
        → sort le_locale (map name_of entries ++ (name ∷ []))
          ≡ insert_at j name (map name_of entries)
        → index_of (sort le_locale (map name_of entries ++ (name ∷ []))) name ≡ some j
        → add_or_replace_in_dict compute_key cas text le_locale dict_key name (hash_to_key hash) w
          ≡ put_dict compute_key cas
              (map child_of (insert_at j (name, hash) entries))
              (map name_of (insert_at j (name, hash) entries))
              w
    unfolding add_or_replace_in_dict hash_to_key
    new_entry_lem j e placed at_j = rw found (
        rw (need_dict-IsDict text node entries not_a_dict dict) (
          rw (names_of-IsDict text node entries dict) (
            rw (decode-encode hash bytes) (
              rw e (
                rw at_j (
                  rw placed (
                    rw (dict.children) (
                      rw
                        (
                          map-insert_at child_of j (name, hash) entries,
                          map-insert_at name_of j (name, hash) entries,
                        )
                        refl))))))))

  -- The state behind an addition: the key has a dict in which the name stands for the child, and every
  -- other name for what it stood for.
  pub record IsAdded (w t : World compute_key cas) (key : Key) (entries : List Entry) (name : Text)
      (hash : Bytes) : Type 0 where
    pub after : List Entry
    pub has : HasDict compute_key cas text t.0 key after
    pub child :
        (other : Text)
        → child_at after other ≡ (if same_key name other then some hash else child_at entries other)
    pub written : IsWritten compute_key cas text w t key

  -- The name is there already, or the names are in the order of the collation.
  abbrev pub IsPlaceable : List Entry → Text → Type 0
  IsPlaceable entries name =
      (index_of (map name_of entries) name ≢ none)
      ⊎ (is_ordered le_locale (map name_of entries) ≡ true)

  module _ (provider : IsKeyProvider compute_key) (w : World compute_key cas) (dict_key key : Key)
      (entries : List Entry) (name : Text) (hash : Bytes) where
    -- Adding to a dict, where the name is there already or the names are in the order of the collation, the
    -- name is valid for the decoder and the dict stays below 2 ^ 32 bytes: if it succeeds, then under the
    -- new key is a dict in which the name stands for the new child and every other name for what it stood
    -- for before.
    pub add_or_replace_in_dict-IsAdded :
        HasDict compute_key cas text w.0 dict_key entries
        → IsHash hash
        → All IsByte hash
        → text.is_plain name ≡ true
        → IsU32 (18 + length name + dict_size entries)
        → IsPlaceable entries name
        → (add_or_replace_in_dict compute_key cas text le_locale dict_key name
            (hash_to_key hash)
            w).0
          ≡ ok key
        → IsAdded w
            (add_or_replace_in_dict compute_key cas text le_locale dict_key name
              (hash_to_key hash)
              w).1
            key
            entries
            name
            hash
    add_or_replace_in_dict-IsAdded h size bytes plain small placeable e =
        elim (Option-cases (index_of (map name_of entries) name)) [
          | inr (i, there) ↦
              let same =
                replace_entry_lem w dict_key h.node entries h.found h.dict name hash bytes i
                  there in
              let (has, written) =
                put_entries compute_key cas text provider (with_child entries i hash) w key
                  (All-with_child text entries i hash size h.dict.valid)
                  (rw (dict_size-with_child entries i hash) h.dict.small) (rw same at e) in
              rw same (record {
                after = sort_entries (with_child entries i hash);
                has = has;
                child = λ other.
                    child_at-sort (with_child entries i hash) other
                    ∙ child_at-with_child entries name i hash other there;
                written = written;
              })
          | inl gone ↦
              let ordered : is_ordered le_locale (map name_of entries) ≡ true = elim placeable [
                | inl there ↦ absurd (there gone)
                | inr o ↦ o
              ] in
              let (j, placed, at_j) =
                name-placed le_locale (map name_of entries) name ordered gone in
              let same =
                new_entry_lem w dict_key h.node entries h.found h.dict name hash bytes j gone placed
                  at_j in
              let added = insert_at j (name, hash) entries in
              let valid : IsEntry text (name, hash) = record { hash = size; plain = plain } in
              let (has, written) =
                put_entries compute_key cas text provider added w key
                  (All-insert_at text j (name, hash) entries valid h.dict.valid)
                  (rw (dict_size-insert_at j (name, hash) entries) small) (rw same at e) in
              rw same (record {
                after = sort_entries added;
                has = has;
                child = λ other.
                    child_at-sort added other ∙ child_at-insert_at j name hash entries other gone;
                written = written;
              })
        ]

  module _ (provider : IsKeyProvider compute_key) (w : World compute_key cas) (dict_key key : Key)
      (a b : Entry) (name : Text) (hash : Bytes) where
    swapped : List Entry
    swapped = (b.0, a.1) ∷ (a.0, b.1) ∷ (name, hash) ∷ []

    swapped_lem :
        HasDict compute_key cas text w.0 dict_key (a ∷ b ∷ [])
        → All IsByte hash
        → index_of (a.0 ∷ b.0 ∷ []) name ≡ none
        → le_locale a.0 b.0 ≡ false
        → le_locale a.0 name ≡ true
        → le_locale b.0 name ≡ true
        → add_or_replace_in_dict compute_key cas text le_locale dict_key name (hash_to_key hash) w
          ≡ put_dict compute_key cas (map child_of swapped) (map name_of swapped) w
    unfolding add_or_replace_in_dict hash_to_key swapped sort insert index_of
    swapped_lem h bytes gone apart a_first b_first =
        let not_a : same_key a.0 name ≡ false = ground (arith, gone) in
        let not_b : same_key b.0 name ≡ false = ground (arith, gone) in
        rw (h.found) (
          rw (need_dict-IsDict text h.node (a ∷ b ∷ []) not_a_dict h.dict) (
            rw (names_of-IsDict text h.node (a ∷ b ∷ []) h.dict) (
              rw (decode-encode hash bytes) (
                rw (not_a, not_b)
                  (rw b_first (
                    rw apart (
                      rw a_first
                        (rw (not_a, not_b, same_key_self name) (rw (h.dict.children) refl)))))))))

    -- Where the collation has the two entries of a dict of two the other way round than the dict has them,
    -- adding a third name that it has behind both, if that succeeds, exchanges the children of the two: the
    -- name of each stands for the child of the other afterwards, and the new name for the new child.
    pub add_or_replace_in_dict-swaps :
        HasDict compute_key cas text w.0 dict_key (a ∷ b ∷ [])
        → IsHash hash
        → All IsByte hash
        → text.is_plain name ≡ true
        → IsU32 (18 + length name + dict_size (a ∷ b ∷ []))
        → index_of (a.0 ∷ b.0 ∷ []) name ≡ none
        → same_key b.0 a.0 ≡ false
        → le_locale a.0 b.0 ≡ false
        → le_locale a.0 name ≡ true
        → le_locale b.0 name ≡ true
        → (add_or_replace_in_dict compute_key cas text le_locale dict_key name
            (hash_to_key hash)
            w).0
          ≡ ok key
        → (after : List Entry) × HasDict compute_key cas text
            (add_or_replace_in_dict compute_key cas text le_locale dict_key name
              (hash_to_key hash)
              w).1.0
            key
            after
          × (child_at after b.0 ≡ some a.1)
          × (child_at after a.0 ≡ some b.1)
          × (child_at after name ≡ some hash)
    unfolding child_at swapped index_of
    add_or_replace_in_dict-swaps h size bytes plain small gone differ apart a_first b_first e =
        let same = swapped_lem h bytes gone apart a_first b_first in
        let (va, (vb, rest)) = h.dict.valid in
        let not_a : same_key a.0 name ≡ false = ground (arith, gone) in
        let not_b : same_key b.0 name ≡ false = ground (arith, gone) in
        let (has, written) =
          put_entries compute_key cas text provider swapped w key
            (
              record { hash = va.hash; plain = vb.plain },
              (
                record { hash = vb.hash; plain = va.plain },
                (record { hash = size; plain = plain }, tt),
              ),
            )
            (omega arith) (rw same at e) in
        (
          sort_entries swapped,
          rw same has,
          child_at-sort swapped b.0 ∙ rw (same_key_self b.0) refl,
          child_at-sort swapped a.0 ∙ rw differ (rw (same_key_self a.0) refl),
          child_at-sort swapped name ∙ rw not_b (rw not_a (rw (same_key_self name) refl)),
        )
