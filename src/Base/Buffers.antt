-- ===== src/Base/Buffers.antt =====
-- A `Uint8Array` is the list of its elements, each below 256.
use Prim.Native.Nat.{ℕ, ◌<◌}
use mathlib.Core.List.{List}

abbrev pub Bytes : Type 0
Bytes = List ℕ

abbrev pub IsByte : ℕ → Type 0
IsByte b = b < 256

abbrev pub IsU32 : ℕ → Type 0
IsU32 n = n < 4294967296
