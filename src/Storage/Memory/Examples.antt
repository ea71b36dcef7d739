-- ===== src/Storage/Memory/Examples.antt =====
-- A concrete table with two entries.
use casfa.Base.{refl, [], ◌∷◌}
use casfa.Storage.Memory.{Table}
use casfa.Storage.Memory.Laws.{IsTable}

abbrev two_entries : Table
two_entries = (1 ∷ [], 10 ∷ []) ∷ (2 ∷ [], 20 ∷ []) ∷ []

two_entries-IsTable : IsTable two_entries
unfolding casfa.Storage.same_key
two_entries-IsTable = ((refl, tt), (tt, tt))
