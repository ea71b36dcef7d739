-- ===== src/Storage/Memory/Laws.antt =====
-- The map of storage-memory is a storage provider.
use casfa.Base.{
  ◌≡◌, refl, [], ◌∷◌, Bytes, false, none, some, arith, if◌then◌else◌, All, Bool-cases, inl, inr,
}
use casfa.Storage.{Key, same_key, same_key_iff, StorageProvider}
use casfa.Storage.Memory.{Table, get, put, del}

-- No key stands twice in the table.
abbrev Absent : Key → Table → Type 0
Absent k t = All (λ (e : Key × Bytes). same_key e.0 k ≡ false) t

abbrev pub IsTable : Table → Type 0
IsTable [] = Unit {0}
IsTable ((k, v) ∷ rest) = Absent k rest × IsTable rest

module _ (k : Key) where
  Absent-put :
      (j : Key) (v : Bytes) (t : Table) → same_key j k ≡ false → Absent k t → Absent k (put t j v)
  unfolding put
  Absent-put j v [] h a = (h, tt)
  Absent-put j v ((i, w) ∷ rest) h a = elim (Bool-cases (same_key i j)) [
    | inl e ↦ rw e a
    | inr e ↦ rw e (a.0, Absent-put j v rest h a.1)
  ]

  Absent-del : (j : Key) (t : Table) → Absent k t → Absent k (del t j)
  unfolding del
  Absent-del j [] a = tt
  Absent-del j ((i, w) ∷ rest) a = elim (Bool-cases (same_key i j)) [
    | inl e ↦ rw e (Absent-del j rest a.1)
    | inr e ↦ rw e (a.0, Absent-del j rest a.1)
  ]

different : (a b : Key) → same_key a b ≡ false → same_key b a ≡ false
different a b h = ground (arith, same_key_iff a b, same_key_iff b a)

-- In a table that has every key at most once, `put` keeps it so.
pub put-IsTable : (t : Table) (k : Key) (v : Bytes) → IsTable t → IsTable (put t k v)
unfolding put
put-IsTable [] k v h = (tt, tt)
put-IsTable ((j, w) ∷ rest) k v h = elim (Bool-cases (same_key j k)) [
  | inl e ↦ rw e h
  | inr e ↦ rw e (Absent-put j k v rest (different j k e) h.0, put-IsTable rest k v h.1)
]

-- In a table that has every key at most once, `del` keeps it so.
pub del-IsTable : (t : Table) (k : Key) → IsTable t → IsTable (del t k)
unfolding del
del-IsTable [] k h = tt
del-IsTable ((j, w) ∷ rest) k h = elim (Bool-cases (same_key j k)) [
  | inl e ↦ rw e (del-IsTable rest k h.1)
  | inr e ↦ rw e (Absent-del j k rest h.0, del-IsTable rest k h.1)
]

-- A read after `put` gives the value that was put for an equal key, and what was there before for any other.
pub get-put :
    (t : Table) (k j : Key) (v : Bytes)
    → get (put t k v) j ≡ (if same_key k j then some v else get t j)
unfolding get put
get-put [] k j v = refl
get-put ((i, w) ∷ rest) k j v =
    ground (arith, get-put rest k j v, same_key_iff k j, same_key_iff i k, same_key_iff i j)

-- A read after `del` finds nothing for an equal key, and what was there before for any other.
pub get-del : (t : Table) (k j : Key) → get (del t k) j ≡ (if same_key k j then none else get t j)
unfolding get del
get-del [] k j = ground arith
get-del ((i, w) ∷ rest) k j =
    ground (arith, get-del rest k j, same_key_iff k j, same_key_iff i k, same_key_iff i j)

abbrev pub memory_storage : StorageProvider
memory_storage = record {
  State = Table;
  get = get;
  put = put;
  del = del;
  get-put = get-put;
  get-del = get-del;
}
