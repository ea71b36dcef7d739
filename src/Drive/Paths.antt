-- ===== src/Drive/Paths.antt =====
-- The path functions of cells/drive/backend: `normalizePath` of services/root-resolver.ts, the stricter
-- ones of services/transfer-paths.ts and services/fs-patterns.ts, and what they use of strings. A string
-- is the list of its UTF-8 bytes; no byte of a character that is not ASCII is an ASCII character.
pub mod Laws
use casfa.Base.{
  ℕ, zero, suc, ◌+◌, ◌*◌, ◌-◌, Bool, true, false, ◌&&◌, ◌||◌, Option, none, some, List, [], ◌∷◌,
  ◌++◌, leb, ◌==◌, if◌then◌else◌, Result, ok, err,
}
use mathlib.Core.List.{reverse}
use casfa.Core.Text.{Text}
use casfa.Storage.{same_key}

abbrev pub slash : ℕ
slash = b'/'

abbrev pub is_empty {ℓ} : {A : Type ℓ} → List A → Bool
is_empty [] = true
is_empty (x ∷ xs) = false

-- replace(/^\/+/, "") and replace(/\/+$/, "")
unfoldable pub skip_slashes : Text → Text
skip_slashes [] = []
skip_slashes (c ∷ s) = let rest = skip_slashes s in if c == slash then rest else c ∷ s

unfoldable pub drop_end_slashes : Text → Text
drop_end_slashes [] = []
drop_end_slashes (c ∷ s) =
    let rest = drop_end_slashes s in if c == slash && is_empty rest then [] else c ∷ rest

-- replace(/^\/+|\/+$/g, "")
unfoldable pub trim_slashes : Text → Text
unfolding skip_slashes drop_end_slashes
trim_slashes s = drop_end_slashes (skip_slashes s)

-- A character in front of the first part.
abbrev pub onto_first : ℕ → List Text → List Text
onto_first c [] = (c ∷ []) ∷ []
onto_first c (p ∷ ps) = (c ∷ p) ∷ ps

-- split("/")
unfoldable pub split_slash : Text → List Text
split_slash [] = [] ∷ []
split_slash (c ∷ s) =
    let rest = split_slash s in if c == slash then [] ∷ rest else onto_first c rest

-- join("/")
unfoldable pub join_slash : List Text → Text
join_slash [] = []
join_slash (p ∷ []) = p
join_slash (p ∷ q ∷ ps) = p ++ (slash ∷ join_slash (q ∷ ps))

-- filter((s) => s.length > 0)
unfoldable pub non_empty_parts : List Text → List Text
non_empty_parts [] = []
non_empty_parts (p ∷ ps) = let rest = non_empty_parts ps in if is_empty p then rest else p ∷ rest

abbrev pub one_dot : Text
one_dot = b'.' ∷ []

abbrev pub two_dots : Text
two_dots = b'.' ∷ b'.' ∷ []

abbrev pub is_dots : Text → Bool
is_dots s = same_key s two_dots || same_key s one_dot

-- segments.some((s) => s === ".." || s === ".")
unfoldable pub some_dots : List Text → Bool
unfolding same_key
some_dots [] = false
some_dots (p ∷ ps) = is_dots p || some_dots ps

pub data PathError : Type 0 where
  dots_in_path empty_path invalid_segment : PathError

-- `normalizePath` of root-resolver.ts.
unfoldable pub normalize_path : Text → Result PathError (List Text)
unfolding trim_slashes split_slash non_empty_parts some_dots
normalize_path path_str =
    let trimmed = trim_slashes path_str in
    let segments = non_empty_parts (split_slash trimmed) in
    if is_empty trimmed then ok [] else if some_dots segments then err dots_in_path else ok segments

-- The white space of `trim`: one byte, two or three.
abbrev is_space : ℕ → Bool
is_space a = leb 9 a && leb a 13 || a == 32

abbrev is_space2 : ℕ → ℕ → Bool
is_space2 a b = a == 0xc2 && b == 0xa0

abbrev is_space3 : ℕ → ℕ → ℕ → Bool
is_space3 a b c =
    (a == 0xe1 && (b == 0x9a && c == 0x80))
    || (a == 0xe2
        && (b == 0x80 && (leb 0x80 c && leb c 0x8a || leb 0xa8 c && leb c 0xa9 || c == 0xaf)))
    || (a == 0xe2 && (b == 0x81 && c == 0x9f))
    || (a == 0xe3 && (b == 0x80 && c == 0x80))
    || (a == 0xef && (b == 0xbb && c == 0xbf))

-- How many bytes the white space has that the string begins with, or 0; and the same of a string that
-- is read from its end.
unfoldable pub front_space : Text → ℕ
front_space [] = 0
front_space (a ∷ []) = if is_space a then 1 else 0
front_space (a ∷ b ∷ []) = if is_space a then 1 else if is_space2 a b then 2 else 0
front_space (a ∷ b ∷ c ∷ s) =
    if is_space a then 1 else if is_space2 a b then 2 else if is_space3 a b c then 3 else 0

back_space : Text → ℕ
back_space [] = 0
back_space (a ∷ []) = if is_space a then 1 else 0
back_space (a ∷ b ∷ []) = if is_space a then 1 else if is_space2 b a then 2 else 0
back_space (a ∷ b ∷ c ∷ s) =
    if is_space a then 1 else if is_space2 b a then 2 else if is_space3 c b a then 3 else 0

-- Skips the white space in front; the number counts the bytes of the present character still to skip.
skip_space : (Text → ℕ) → ℕ → Text → Text
skip_space width n [] = []
skip_space width (suc n) (a ∷ s) = skip_space width n s
skip_space width zero (a ∷ s) = elim (width (a ∷ s)) [ zero ↦ a ∷ s | suc n ↦ skip_space width n s ]

unfoldable pub trim : Text → Text
unfolding skip_space front_space back_space
trim s = reverse (skip_space back_space 0 (reverse (skip_space front_space 0 s)))

-- A segment that the strict functions refuse: empty, "." or "..".
abbrev pub is_bad_segment : Text → Bool
is_bad_segment s = is_empty s || is_dots s

unfoldable pub some_bad : List Text → Bool
unfolding same_key
some_bad [] = false
some_bad (p ∷ ps) = is_bad_segment p || some_bad ps

-- `normalizePath` of transfer-paths.ts and `normalizeRelativePath` of fs-patterns.ts, which differ in the
-- texts of their errors only.
unfoldable pub normalize_strict : Text → Result PathError Text
unfolding trim trim_slashes split_slash join_slash some_bad
normalize_strict path_value =
    let trimmed = trim_slashes (trim path_value) in
    let segments = split_slash trimmed in
    if is_empty trimmed
    then err empty_path
    else if some_bad segments
    then err invalid_segment
    else ok (join_slash segments)
