-- ===== src/Core/Node/Canonical.antt =====
-- The bytes of set and dict nodes do not depend on the order in which the children are given.
use casfa.Base.{
  ◌≡◌, ◌≢◌, refl, sym, ◌∙◌, ap, List, [], ◌∷◌, Bytes, length, sort, length-sort, IsOrder, Separates,
  sort-Perm, Separates-Pairwise,
}
use mathlib.Core.List.{Perm, Pairwise}
use casfa.Core.ByteOrder.{le_bytes}
use casfa.Core.ByteOrder.Laws.{le_bytes-IsOrder, le_bytes_antisymm}
use casfa.Core.Node.{Entry, encode_set_node}
use casfa.Core.Node.Directory.{le_name, sort_entries, encode_entries, encode_entries_lem}

bytes_set : IsSet Bytes
bytes_set = hlevel

entry_set : IsSet Entry
entry_set = hlevel

sort-Perm_bytes : {xs ys : List Bytes} → Perm xs ys → sort le_bytes xs ≡ sort le_bytes ys
sort-Perm_bytes {xs} p =
    sort-Perm le_bytes le_bytes-IsOrder bytes_set p
      (Separates-Pairwise le_bytes le_bytes_antisymm xs)

length-Perm : {xs ys : List Bytes} → Perm xs ys → length xs ≡ length ys
length-Perm {xs} {ys} p =
    sym (length-sort le_bytes xs) ∙ ap length (sort-Perm_bytes p) ∙ length-sort le_bytes ys

le_name-IsOrder : IsOrder le_name
le_name-IsOrder = record {
  total = λ a b. le_bytes-IsOrder.total a.0 b.0;
  trans = λ a b c. le_bytes-IsOrder.trans a.0 b.0 c.0;
}

apart : (l : List Entry) → Pairwise (λ (a b : Entry). a.0 ≢ b.0) l → Pairwise (Separates le_name) l
apart [] h = Pairwise.nil
apart (x ∷ xs) (Pairwise.cons h t) =
    Pairwise.cons (λ y m u v. absurd (h y m (le_bytes_antisymm x.0 y.0 u v))) (apart xs t)

module _ (compute_key : Bytes → Bytes) where
  -- Set nodes over the same hashes are the same node, or fail alike, in whatever order the hashes come.
  pub encode_set-Perm :
      (xs ys : List Bytes)
      → Perm xs ys
      → encode_set_node compute_key xs ≡ encode_set_node compute_key ys
  unfolding encode_set_node
  encode_set-Perm xs ys p = rw (length-Perm p, sort-Perm_bytes p) refl

  -- Dict nodes over the same entries with different names are the same node, or fail alike, in
  -- whatever order the entries come.
  pub encode_entries-Perm :
      (xs ys : List Entry)
      → Pairwise (λ (a b : Entry). a.0 ≢ b.0) xs
      → Perm xs ys
      → encode_entries compute_key xs ≡ encode_entries compute_key ys
  encode_entries-Perm xs ys h p =
      let sorted : sort_entries xs ≡ sort_entries ys =
        sort-Perm le_name le_name-IsOrder entry_set p (apart xs h) in
      encode_entries_lem compute_key xs ∙ rw sorted (sym (encode_entries_lem compute_key ys))
