-- ===== src/Drive/Transfer/Spec.antt =====
-- The types of cells/drive/backend/types/transfer.ts, and `validateTransferSpec` of
-- services/transfer-paths.ts.
use casfa.Base.{
  ℕ, Bool, true, false, ◌&&◌, ◌||◌, not, Option, none, some, List, [], ◌∷◌, ◌++◌, if◌then◌else◌,
  leb, ltb, ◌==◌, Result, ok, err, ◌>>=◌, ◌>>◌, guard, sort,
}
use casfa.Core.Text.{Text}
use casfa.Encoding.Cb32.{codes}
use casfa.Storage.{same_key}
use casfa.Maps.{map_set}
use casfa.Drive.{
  DriveError, from_path, source_required, target_required, mapping_empty, targets_not_unique,
  targets_nested, decimal_index,
}
use casfa.Drive.Paths.{slash, is_empty, trim, normalize_strict}

pub data TransferMode : Type 0 where
  replace fail_if_exists merge_dir : TransferMode

-- `mapping` is what `Object.entries(spec.mapping ?? {})` gives.
pub record TransferSpec : Type 0 where
  pub source : Option Text
  pub target : Option Text
  pub mapping : List (Text × Text)
  pub mode : Option TransferMode

pub record NormalizedSpec : Type 0 where
  pub source : Text
  pub target : Text
  pub mapping : List (Text × Text)
  pub mode : TransferMode

-- `normalized[from] = to`: a property that is there keeps its place, and `__proto__` makes none.
abbrev pub object_set : List (Text × Text) → Text → Text → List (Text × Text)
object_set o from to = if same_key from (codes "__proto__") then o else map_set o from to

-- An array index, which is below 2 ^ 32 - 1.
abbrev small_index : Option ℕ → Option ℕ
small_index none = none
small_index (some n) = if ltb n 4294967295 then some n else none

abbrev le_index : Option ℕ → Option ℕ → Bool
le_index none b = true
le_index (some a) none = true
le_index (some a) (some b) = leb a b

abbrev is_some : Option ℕ → Bool
is_some none = false
is_some (some n) = true

unfoldable pub index_properties : List (Text × Text) → List (Text × Text)
unfolding decimal_index
index_properties [] = []
index_properties (p ∷ o) =
    let rest = index_properties o in
    if is_some (small_index (decimal_index p.0)) then p ∷ rest else rest

unfoldable pub named_properties : List (Text × Text) → List (Text × Text)
unfolding decimal_index
named_properties [] = []
named_properties (p ∷ o) =
    let rest = named_properties o in
    if is_some (small_index (decimal_index p.0)) then rest else p ∷ rest

-- `Object.entries`: the array indices in ascending order, then the other properties as they were made.
unfoldable pub object_entries : List (Text × Text) → List (Text × Text)
unfolding index_properties named_properties sort decimal_index
object_entries o =
    sort (λ p q. le_index (decimal_index p.0) (decimal_index q.0)) (index_properties o)
    ++ named_properties o

-- The order of UTF-16 code units on UTF-8: the characters from U+E000 to U+FFFF, which begin with the bytes
-- EE and EF, come behind those of four bytes.
abbrev rank : ℕ → ℕ
rank b = if b == 0xee then 0xf5 else if b == 0xef then 0xf6 else b

unfoldable pub le_utf16 : Text → Text → Bool
le_utf16 [] t = true
le_utf16 (a ∷ s) [] = false
le_utf16 (a ∷ s) (b ∷ t) = ltb (rank a) (rank b) || (a == b && le_utf16 s t)

-- next.startsWith(prefix)
unfoldable pub starts_with : Text → Text → Bool
starts_with s [] = true
starts_with [] (p ∷ prefix) = false
starts_with (c ∷ s) (p ∷ prefix) = c == p && starts_with s prefix

abbrev pub is_below : Text → Text → Bool
is_below next current = starts_with next (current ++ (slash ∷ []))

unfoldable pub has_nested_neighbours : List Text → Bool
unfolding starts_with
has_nested_neighbours [] = false
has_nested_neighbours (current ∷ []) = false
has_nested_neighbours (current ∷ next ∷ sorted) =
    is_below next current || has_nested_neighbours (next ∷ sorted)

unfoldable pub has_ancestor_or_descendant_conflict : List Text → Bool
unfolding has_nested_neighbours sort le_utf16
has_ancestor_or_descendant_conflict paths = has_nested_neighbours (sort le_utf16 paths)

-- targets.has(to)
unfoldable pub has_target : List Text → Text → Bool
unfolding same_key
has_target [] to = false
has_target (t ∷ targets) to = same_key t to || has_target targets to

-- The loop: the normalized mapping and the set of the targets.
unfoldable pub normalize_mapping :
    List (Text × Text)
    → List (Text × Text)
    → List Text
    → Result DriveError (List (Text × Text) × List Text)
unfolding normalize_strict map_set same_key has_target
normalize_mapping [] normalized targets = ok (normalized, targets)
normalize_mapping ((from_path_, to_path) ∷ entries) normalized targets = do
  from ← from_path (normalize_strict from_path_)
  to ← from_path (normalize_strict to_path)
  guard (not (has_target targets to)) targets_not_unique
  normalize_mapping entries (object_set normalized from to) (targets ++ (to ∷ []))

-- `!spec.source?.trim()`
abbrev trimmed : Option Text → DriveError → Result DriveError Text
trimmed none thrown = err thrown
trimmed (some s) thrown = if is_empty (trim s) then err thrown else ok (trim s)

abbrev mode_or_default : Option TransferMode → TransferMode
mode_or_default none = fail_if_exists
mode_or_default (some mode) = mode

unfoldable pub validate_transfer_spec : TransferSpec → Result DriveError NormalizedSpec
unfolding trim normalize_mapping has_ancestor_or_descendant_conflict
validate_transfer_spec spec = do
  source ← trimmed spec.source source_required
  target ← trimmed spec.target target_required
  guard (not (is_empty spec.mapping)) mapping_empty
  checked ← normalize_mapping spec.mapping [] []
  guard (not (has_ancestor_or_descendant_conflict checked.1)) targets_nested
  ok (record {
    source = source;
    target = target;
    mapping = checked.0;
    mode = mode_or_default spec.mode;
  })
