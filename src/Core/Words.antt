-- ===== src/Core/Words.antt =====
-- `DataView` over a `Uint8Array` that owns its buffer: little-endian 16-bit and 32-bit words.
use casfa.Base.{
  ℕ, ◌+◌, ◌*◌, ◌/◌, ◌%◌, ◌<◌, ◌≤◌, ◌≡◌, refl, [], ◌∷◌, ◌++◌, arith, length, length-drop, drop,
  Bytes, IsByte, IsU32, All, Result, ok, err,
}
use casfa.Core.Errors.{CoreError, out_of_range}

-- setUint16(offset, n, true) and setUint32(offset, n, true): the bytes that are written.
unfoldable pub u16_bytes : ℕ → Bytes
u16_bytes n = n % 256 ∷ n / 256 % 256 ∷ []

unfoldable pub u32_bytes : ℕ → Bytes
u32_bytes n = n % 256 ∷ n / 256 % 256 ∷ n / 65536 % 256 ∷ n / 16777216 % 256 ∷ []

abbrev read_u16 : Bytes → Result CoreError ℕ
read_u16 (a ∷ b ∷ rest) = ok (a + b * 256)
read_u16 _ = err out_of_range

abbrev read_u32 : Bytes → Result CoreError ℕ
read_u32 (a ∷ b ∷ c ∷ d ∷ rest) = ok (a + b * 256 + c * 65536 + d * 16777216)
read_u32 _ = err out_of_range

-- getUint16(offset, true) and getUint32(offset, true).
unfoldable pub get_uint16 : Bytes → ℕ → Result CoreError ℕ
get_uint16 buffer offset = read_u16 (drop offset buffer)

unfoldable pub get_uint32 : Bytes → ℕ → Result CoreError ℕ
get_uint32 buffer offset = read_u32 (drop offset buffer)

pub length-u32_bytes : (n : ℕ) → length (u32_bytes n) ≡ 4
unfolding u32_bytes
length-u32_bytes n = refl

pub u32_bytes-IsByte : (n : ℕ) → All IsByte (u32_bytes n)
unfolding u32_bytes
u32_bytes-IsByte n = omega arith

pub u16_bytes-IsByte : (n : ℕ) → All IsByte (u16_bytes n)
unfolding u16_bytes
u16_bytes-IsByte n = omega arith

pub get_uint32-u32_bytes :
    (n : ℕ) (rest : Bytes) → IsU32 n → get_uint32 (u32_bytes n ++ rest) 0 ≡ ok n
unfolding get_uint32 u32_bytes
get_uint32-u32_bytes n rest h = ground arith

pub get_uint16-u16_bytes :
    (n : ℕ) (rest : Bytes) → n < 65536 → get_uint16 (u16_bytes n ++ rest) 0 ≡ ok n
unfolding get_uint16 u16_bytes
get_uint16-u16_bytes n rest h = ground arith

-- A read within the buffer succeeds.
read_u32-total : (b : Bytes) → 4 ≤ length b → (n : ℕ) × (read_u32 b ≡ ok n)
read_u32-total (a ∷ b ∷ c ∷ d ∷ rest) h = (a + b * 256 + c * 65536 + d * 16777216, refl)
read_u32-total [] h = absurd (omega arith)
read_u32-total (a ∷ []) h = absurd (omega arith)
read_u32-total (a ∷ b ∷ []) h = absurd (omega arith)
read_u32-total (a ∷ b ∷ c ∷ []) h = absurd (omega arith)

pub get_uint32-total : (b : Bytes) (o : ℕ) → o + 4 ≤ length b → (n : ℕ) × (get_uint32 b o ≡ ok n)
unfolding get_uint32
get_uint32-total b o h = read_u32-total (drop o b) (omega (arith, length-drop o b))
