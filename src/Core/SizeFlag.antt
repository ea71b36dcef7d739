-- ===== src/Core/SizeFlag.antt =====
-- The size flag byte, `computeSizeFlagByte` and `decodeSizeFlagByte` of packages/core/src/utils.ts.
-- Sizes are whole numbers below 2 ^ 53, where the divisions by powers of 16 and the ceiling are exact.
pub mod Bounds
mod Examples
use casfa.Base.{ℕ, zero, suc, ◌+◌, ◌*◌, ◌/◌, ◌%◌, ◌^◌, leb, ◌==◌, if◌then◌else◌, ceil_div}

-- The loop `for (let H = 0; H <= 15; H++)` with the rounds that are left, `H` and `power`.
find_flag : ℕ → ℕ → ℕ → ℕ → ℕ
find_flag zero high power size = 0xff
find_flag (suc rounds) high power size =
    let low = ceil_div size power in
    let next = find_flag rounds (high + 1) (power * 16) size in
    if leb low 15 then high * 16 + low else next

unfoldable pub compute_size_flag_byte : ℕ → ℕ
unfolding find_flag
compute_size_flag_byte size = if leb size 0 then 0 else find_flag 16 0 1 size

unfoldable pub decode_size_flag_byte : ℕ → ℕ
decode_size_flag_byte flag =
    let high = flag / 16 % 16 in let low = flag % 16 in if low == 0 then 0 else low * 16 ^ high
