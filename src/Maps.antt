-- ===== src/Maps.antt =====
-- A JavaScript `Map` from strings, as the list of its entries in the order of insertion, each key at most
-- once; the stores of packages/cell-delegates-server and of cells/drive keep such maps.
pub mod Laws
use casfa.Base.{ℕ, List, [], ◌∷◌, Bool, Option, none, some, if◌then◌else◌, map, ◌≡◌}
use casfa.Core.Text.{Text}
use casfa.Storage.{same_key}

module _ {ℓ} {A : Type ℓ} where
  -- map.get(key), none for undefined
  unfoldable pub map_get : List (Text × A) → Text → Option A
  map_get [] k = none
  map_get ((j, v) ∷ m) k = if same_key j k then some v else map_get m k

  -- map.set(key, value): a key that is there keeps its place.
  unfoldable pub map_set : List (Text × A) → Text → A → List (Text × A)
  map_set [] k v = (k, v) ∷ []
  map_set ((j, w) ∷ m) k v = if same_key j k then (j, v) ∷ m else (j, w) ∷ map_set m k v

  -- map.delete(key): what has the key goes, which is one entry at most.
  unfoldable pub map_delete : List (Text × A) → Text → List (Text × A)
  map_delete [] k = []
  map_delete ((j, w) ∷ m) k =
      let others = map_delete m k in if same_key j k then others else (j, w) ∷ others

  -- No key stands twice.
  abbrev pub IsMap : List (Text × A) → Type ℓ
  IsMap [] = Unit {ℓ}
  IsMap ((k, v) ∷ m) = (map_get m k ≡ none) × IsMap m

  -- Array.from(map.values())
  abbrev pub map_values : List (Text × A) → List A
  map_values m = map (λ (e : Text × A). e.1) m

-- array.filter(test)
unfoldable pub filter {ℓ} : {A : Type ℓ} → (A → Bool) → List A → List A
filter test [] = []
filter test (x ∷ xs) = let rest = filter test xs in if test x then x ∷ rest else rest
