-- ===== src/Storage/Memory.antt =====
-- packages/storage-memory/src/memory-storage.ts: a `Map` as the list of its entries in the order of
-- insertion, each key at most once.
pub mod Laws
mod Examples
use casfa.Base.{
  ℕ, List, [], ◌∷◌, Bytes, Bool, true, false, Option, none, some, if◌then◌else◌, length, map,
}
use casfa.Storage.{Key, same_key}

abbrev pub Table : Type 0
Table = List (Key × Bytes)

-- data.get(key) ?? null
unfoldable pub get : Table → Key → Option Bytes
get [] k = none
get ((j, v) ∷ rest) k = if same_key j k then some v else get rest k

-- data.set(key, value): a key that is there keeps its place.
unfoldable pub put : Table → Key → Bytes → Table
put [] k v = (k, v) ∷ []
put ((j, w) ∷ rest) k v = if same_key j k then (j, v) ∷ rest else (j, w) ∷ put rest k v

-- data.delete(key): what has the key goes, which is one entry at most.
unfoldable pub del : Table → Key → Table
del [] k = []
del ((j, w) ∷ rest) k = let others = del rest k in if same_key j k then others else (j, w) ∷ others

-- The inspection methods.
abbrev pub clear : Table → Table
clear t = []

abbrev pub size : Table → ℕ
size t = length t

abbrev pub keys : Table → List Key
keys t = map (λ (e : Key × Bytes). e.0) t
