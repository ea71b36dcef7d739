-- ===== src/Drive.antt =====
-- cells/drive/backend: the drive over the CAS facade. This file has what its services share.
pub mod Paths
pub mod Resolver
pub mod World
pub mod Entries
pub mod Branches
pub mod Mutations
pub mod Transfer
pub mod BranchApi
pub mod BranchUrl
pub mod CurrentRoot
mod Sample
mod Examples
use casfa.Base.{
  ℕ, zero, suc, ◌+◌, ◌*◌, ◌-◌, Bool, true, false, ◌&&◌, Option, none, some, List, [], ◌∷◌, ltb, leb,
  ◌==◌, if◌then◌else◌, Bytes, Result, ok, err,
}
use casfa.Encoding.Cb32.{Cb32Error}
use casfa.Core.Errors.{CoreError}
use casfa.Core.Text.{Text}
use casfa.Controller.{key_to_hash}
use casfa.Storage.{Key, same_key}
use casfa.Cas.{CasError}
use Paths.{PathError}

-- What the services throw: their own `throw new Error(...)`, with what the text names, and the errors of
-- what they call. `type_error` is the TypeError of a read that gives `undefined`.
pub data DriveError : Type 0 where
  path_error : PathError → DriveError
  cas_error : CasError → DriveError
  core_error : CoreError → DriveError
  bad_key : Cb32Error → DriveError
  type_error : DriveError
  path_empty : DriveError
  not_a_dict : DriveError
  entry_not_found : Text → DriveError
  segment_not_found : Text → DriveError
  parent_path_not_found : DriveError
  parent_not_a_dict : DriveError
  realm_root_not_found realm_not_initialized : DriveError
  source_required target_required mapping_empty targets_not_unique targets_nested : DriveError
  merge_dir_not_implemented source_branch_not_found target_branch_not_found realms_differ :
      DriveError
  source_has_no_root : DriveError
  source_path_not_found target_path_exists : Text → DriveError

module _ {ℓ} {A : Type ℓ} where
  abbrev pub from_path : Result PathError A → Result DriveError A
  from_path (ok a) = ok a
  from_path (err e) = err (path_error e)

  abbrev pub from_cas : Result CasError A → Result DriveError A
  from_cas (ok a) = ok a
  from_cas (err e) = err (cas_error e)

  abbrev pub from_core : Result CoreError A → Result DriveError A
  from_core (ok a) = ok a
  from_core (err e) = err (core_error e)

  abbrev pub from_key : Result Cb32Error A → Result DriveError A
  from_key (ok a) = ok a
  from_key (err e) = err (bad_key e)

  -- `a!` where a method of `a` is called next.
  abbrev pub defined : Option A → Result DriveError A
  defined none = err type_error
  defined (some a) = ok a

  -- `a[i]`
  abbrev pub get_elem? : List A → ℕ → Option A
  get_elem? [] i = none
  get_elem? (x ∷ xs) zero = some x
  get_elem? (x ∷ xs) (suc i) = get_elem? xs i

  -- `a[i] = v` where i is an index of the array.
  abbrev pub set : List A → ℕ → A → List A
  set [] i v = []
  set (x ∷ xs) zero v = v ∷ xs
  set (x ∷ xs) (suc i) v = x ∷ set xs i v

abbrev pub next_index : Option ℕ → Option ℕ
next_index none = none
next_index (some i) = some (suc i)

-- `names.indexOf(name)`, none for -1.
unfoldable pub index_of : List Text → Text → Option ℕ
unfolding same_key
index_of [] name = none
index_of (n ∷ names) name =
    let rest = next_index (index_of names name) in if same_key n name then some 0 else rest

-- `parseInt(segment, 10)` where `String(num) === segment` and `num >= 0` hold, which is where the segment
-- is a decimal number with no zero in front.
decimal_digits : ℕ → Text → Option ℕ
decimal_digits n [] = some n
decimal_digits n (c ∷ s) =
    let rest = decimal_digits (n * 10 + (c - b'0')) s in
    if leb b'0' c && leb c b'9' then rest else none

unfoldable pub decimal_index : Text → Option ℕ
unfolding decimal_digits
decimal_index [] = none
decimal_index (c ∷ []) = decimal_digits 0 (c ∷ [])
decimal_index (c ∷ d ∷ s) = if c == b'0' then none else decimal_digits 0 (c ∷ d ∷ s)
