-- ===== src/Cas.antt =====
-- packages/cas: the store with its bookkeeping for garbage collection. What only reads the storage is in
-- Cas/Lookup, what changes it in Cas/Update.
pub mod Lookup
pub mod Update
pub mod Keys
pub mod Blobs
pub mod Closure
pub mod Reachable
pub mod Reached
pub mod Collect
pub mod Tracked
pub mod Outcome
pub mod Sweep
pub mod Facade
pub mod ToyJson
mod Examples
use casfa.Base.{
  ℕ, Bool, true, false, ◌≡◌, ◌≢◌, ◌||◌, Option, none, some, List, [], ◌∷◌, ◌++◌, if◌then◌else◌,
  concat, Bytes, Result, ok, err,
}
use casfa.Core.Errors.{CoreError}
use casfa.Encoding.Cb32.{codes}
use casfa.Storage.{Key, same_key}

-- The two codes of `CasError`, and what the called code throws: `decodeNode`, and `JSON.parse` on a blob
-- that is no JSON. `out_of_fuel` is no error of the program.
pub data CasError : Type 0 where
  child_missing : Key → CasError
  key_mismatch : Key → Key → CasError
  core : CoreError → CasError
  bad_json : CasError
  out_of_fuel : CasError

abbrev pub from_core {ℓ} : {A : Type ℓ} → Result CoreError A → Result CasError A
from_core (ok a) = ok a
from_core (err e) = err (core e)

-- stream-util.ts: a stream is the list of the chunks that it will deliver.
abbrev pub Stream : Type 0
Stream = List Bytes

abbrev pub stream_from_bytes : Bytes → Stream
stream_from_bytes bytes = bytes ∷ []

abbrev pub bytes_from_stream : Stream → Bytes
bytes_from_stream chunks = concat chunks

-- The names of the meta blobs, BLOB_KEYS of cas-meta.ts.
abbrev pub retained_blob : Key
retained_blob = codes "__cas_retained__"

abbrev pub new_keys_blob : Key
new_keys_blob = codes "__cas_new_keys__"

abbrev pub times_blob : Key
times_blob = codes "__cas_times__"

abbrev pub meta_blob : Key
meta_blob = codes "__cas_meta__"

-- An object from keys to timestamps, as the list of its properties.
abbrev pub Times : Type 0
Times = List (Key × ℕ)

-- times[key]
unfoldable pub time_of : Times → Key → Option ℕ
time_of [] k = none
time_of ((j, t) ∷ rest) k = if same_key j k then some t else time_of rest k

-- times[key] = time
unfoldable pub assign_time : Times → Key → ℕ → Times
assign_time [] k time = (k, time) ∷ []
assign_time ((j, t) ∷ rest) k time =
    if same_key j k then (j, time) ∷ rest else (j, t) ∷ assign_time rest k time

-- The object of the meta blob, with the one property that the code uses.
pub record Meta : Type 0 where
  pub last_gc_time : Option ℕ

-- `JSON.stringify` and `JSON.parse` at the three types that the blobs have. A parse is none where the
-- value is null or of another type. Reading back what was printed is all that is assumed.
pub record JsonCodec : Type 0 where
  pub print_keys : List Key → Bytes
  pub parse_keys : Bytes → Result CasError (Option (List Key))
  pub print_times : Times → Bytes
  pub parse_times : Bytes → Result CasError (Option Times)
  pub print_meta : Meta → Bytes
  pub parse_meta : Bytes → Result CasError (Option Meta)
  pub keys_nonempty : (ks : List Key) → print_keys ks ≢ []
  pub times_nonempty : (ts : Times) → print_times ts ≢ []
  pub meta_nonempty : (m : Meta) → print_meta m ≢ []
  pub parse-print_keys : (ks : List Key) → parse_keys (print_keys ks) ≡ ok (some ks)
  pub parse-print_times : (ts : Times) → parse_times (print_times ts) ≡ ok (some ts)
  pub parse-print_meta : (m : Meta) → parse_meta (print_meta m) ≡ ok (some m)

-- `includes` of an array and `has` of a set.
unfoldable pub includes : List Key → Key → Bool
includes [] k = false
includes (j ∷ js) k = same_key j k || includes js k

-- `add` of a set, which iterates in the order of insertion, and `new Set` of an array.
unfoldable pub add_key : List Key → Key → List Key
unfolding includes
add_key seen k = if includes seen k then seen else seen ++ (k ∷ [])

unfoldable pub to_set : List Key → List Key → List Key
unfolding add_key
to_set seen [] = seen
to_set seen (k ∷ ks) = to_set (add_key seen k) ks
