-- ===== src/Drive/Mutations/Remove.antt =====
-- What the removal of an entry makes of a dict.
use casfa.Base.{
  ℕ, zero, suc, ◌≤◌, ◌≡◌, refl, ap, ◌∙◌, none, some, List, [], ◌∷◌, map, arith, inl, inr,
  if◌then◌else◌, ok, Bytes, All, Bool-cases, Option-cases,
}
use casfa.Core.Text.{Text, TextDecoder}
use casfa.Core.Node.{CasNode, Entry}
use casfa.Core.Node.Directory.{child_of, name_of, sort_entries}
use casfa.Controller.RoundTrip.{IsKeyProvider}
use casfa.Storage.{Key, same_key, same_key_iff}
use casfa.Cas.Facade.{CasFacade}
use casfa.Drive.{index_of}
use casfa.Drive.Entries.{IsDict, IsEntry, dict_size, child_at, child_at-sort}
use casfa.Drive.World.{World, put_dict}
use casfa.Drive.Mutations.{put_without, remove_at}
use casfa.Drive.Mutations.Put.{HasDict, put_entries, names_of-IsDict}

-- No name stands twice.
abbrev pub HasDistinctNames : List Entry → Type 0
HasDistinctNames [] = Unit {0}
HasDistinctNames (p ∷ entries) =
    (index_of (map name_of entries) p.0 ≡ none) × HasDistinctNames entries

map-remove_at :
    (f : Entry → Text) (i : ℕ) (entries : List Entry)
    → map f (remove_at i entries) ≡ remove_at i (map f entries)
map-remove_at f i [] = refl
map-remove_at f zero (p ∷ entries) = refl
map-remove_at f (suc i) (p ∷ entries) = ap (λ t. f p ∷ t) (map-remove_at f i entries)

All-remove_at :
    (text : TextDecoder) (i : ℕ) (entries : List Entry)
    → All (IsEntry text) entries
    → All (IsEntry text) (remove_at i entries)
All-remove_at text i [] h = tt
All-remove_at text zero (p ∷ entries) h = h.1
All-remove_at text (suc i) (p ∷ entries) h = (h.0, All-remove_at text i entries h.1)

dict_size-remove_at :
    (i : ℕ) (entries : List Entry) → dict_size (remove_at i entries) ≤ dict_size entries
dict_size-remove_at i [] = omega arith
dict_size-remove_at zero (p ∷ entries) = omega arith
dict_size-remove_at (suc i) (p ∷ entries) = omega (arith, dict_size-remove_at i entries)

child_at-gone :
    (entries : List Entry) (name : Text)
    → index_of (map name_of entries) name ≡ none
    → child_at entries name ≡ none
unfolding child_at index_of
child_at-gone [] name e = refl
child_at-gone (p ∷ entries) name e = elim (Bool-cases (same_key p.0 name)) [
  | inl same ↦ absurd (ground (arith, e, same))
  | inr apart ↦ elim (Option-cases (index_of (map name_of entries) name)) [
    | inl gone ↦ rw apart (child_at-gone entries name gone)
    | inr (i, found) ↦ absurd (ground (arith, e, apart, found))
  ]
]

child_at-remove_at :
    (entries : List Entry) (name : Text) (i : ℕ) (other : Text)
    → HasDistinctNames entries
    → index_of (map name_of entries) name ≡ some i
    → child_at (remove_at i entries) other
      ≡ (if same_key name other then none else child_at entries other)
unfolding child_at index_of
child_at-remove_at [] name i other h e = cc
child_at-remove_at (p ∷ entries) name i other (once, h) e = elim (Bool-cases (same_key p.0 name)) [
  | inl same ↦
      let z : 0 ≡ i = ground (arith, e, same) in
      let named : p.0 ≡ name = (same_key_iff p.0 name).0 same in
      let gone : child_at entries name ≡ none = child_at-gone entries name (rw named at once) in
      rw (← z) (
        rw named (elim (Bool-cases (same_key name other)) [
          | inl q ↦ rw q (rw (← (same_key_iff name other).0 q) gone)
          | inr q ↦ rw q refl
        ]))
  | inr apart ↦ elim (Option-cases (index_of (map name_of entries) name)) [
    | inl gone ↦ absurd (ground (arith, e, apart, gone))
    | inr (j, found) ↦
        let next : suc j ≡ i = ground (arith, e, apart, found) in
        rw (← next) (
          rw (child_at-remove_at entries name j other h found) (
            ground (
              arith,
              apart,
              same_key_iff p.0 name,
              same_key_iff p.0 other,
              same_key_iff name other,
            )))
  ]
]

module _ (compute_key : Bytes → Bytes) (cas : CasFacade compute_key) (text : TextDecoder)
    (provider : IsKeyProvider compute_key) (w : World compute_key cas) (dict_key key : Key)
    (entries : List Entry) (name : Text) (i : ℕ) where
  put_without_lem :
      (node : CasNode)
      → IsDict text node entries
      → put_without compute_key cas node i w
        ≡ put_dict compute_key cas
            (map child_of (remove_at i entries))
            (map name_of (remove_at i entries))
            w
  unfolding put_without
  put_without_lem node d = rw (names_of-IsDict text node entries d) (
      rw (d.children) (rw (map-remove_at child_of i entries, map-remove_at name_of i entries) refl))

  -- Removing the entry of a name from a dict of distinct names, if it succeeds: under the new key is a dict
  -- in which the name stands for nothing and every other name for what it stood for before.
  pub put_without-removes :
      (node : CasNode)
      → IsDict text node entries
      → HasDistinctNames entries
      → index_of (map name_of entries) name ≡ some i
      → (put_without compute_key cas node i w).0 ≡ ok key
      → (after : List Entry) × HasDict compute_key cas text
          (put_without compute_key cas node i w).1.0
          key
          after
        × ((other : Text)
            → child_at after other ≡ (if same_key name other then none else child_at entries other))
  put_without-removes node d distinct found e =
      let same = put_without_lem node d in
      let (has, written) =
        put_entries compute_key cas text provider (remove_at i entries) w key
          (All-remove_at text i entries d.valid)
          (omega (arith, d.small, dict_size-remove_at i entries)) (rw same at e) in
      (
        sort_entries (remove_at i entries),
        rw same has,
        λ other.
            child_at-sort (remove_at i entries) other
            ∙ child_at-remove_at entries name i other distinct found,
      )
