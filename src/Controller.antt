-- ===== src/Controller.antt =====
-- packages/core/src/controller.ts over a storage provider and a key provider.
pub mod Write
pub mod Read
pub mod Tree
pub mod RoundTrip
pub mod ReadBack
pub mod Files
pub mod Stream
pub mod Directory
pub mod GetTree
mod Examples
use casfa.Base.{ℕ, List, Bytes, Result, ok, err, length, ◌==◌, if◌then◌else◌}
use casfa.Core.Errors.{CoreError}
use casfa.Core.Topology.{LayoutError}
use casfa.Encoding.Cb32.{Cb32Error, encode_cb32, decode_cb32}
use casfa.Storage.{Key}

-- `out_of_fuel` is no error of the program: a traversal of the model ran out of its fuel.
pub data ControllerError : Type 0 where
  core : CoreError → ControllerError
  split : LayoutError → ControllerError
  bad_key : Cb32Error → ControllerError
  bad_key_length : ControllerError
  out_of_fuel : ControllerError

-- An error of a called function passes through.
abbrev pub from_core {ℓ} : {A : Type ℓ} → Result CoreError A → Result ControllerError A
from_core (ok a) = ok a
from_core (err e) = err (core e)

abbrev pub from_split {ℓ} : {A : Type ℓ} → Result LayoutError A → Result ControllerError A
from_split (ok a) = ok a
from_split (err e) = err (split e)

-- The canonical storage key of a hash.
unfoldable pub hash_to_key : Bytes → Key
unfolding encode_cb32
hash_to_key hash = encode_cb32 hash

unfoldable pub key_to_hash : Key → Result Cb32Error Bytes
unfolding decode_cb32
key_to_hash key = decode_cb32 key

abbrev from_bad_key : Result Cb32Error Bytes → Result ControllerError Bytes
from_bad_key (ok hash) = if length hash == 16 then ok hash else err bad_key_length
from_bad_key (err e) = err (bad_key e)

-- keyToHashBytes
unfoldable pub key_to_hash_bytes : Key → Result ControllerError Bytes
unfolding key_to_hash
key_to_hash_bytes key = from_bad_key (key_to_hash key)
