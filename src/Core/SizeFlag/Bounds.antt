-- ===== src/Core/SizeFlag/Bounds.antt =====
-- The flag byte is the least one whose bound covers the size.
use casfa.Base.{
  ℕ, zero, suc, ◌+◌, ◌*◌, ◌/◌, ◌%◌, ◌^◌, ◌≤◌, ◌<◌, ◌≡◌, refl, arith, leb, ◌==◌, ceil_div,
  le-ceil_div-mul, ceil_div-le, Bool-cases, inl, inr, leb→le, lt→leb, le→leb, ltb, ltb→lt, ==_iff,
  every_below, every_below-at, true,
}
use casfa.Core.SizeFlag.{find_flag, compute_size_flag_byte, decode_size_flag_byte}
use native.Mathlib.Nat.{pow-suc, mul-le-mul_right}
use native.Mathlib.Numerals.{add-one}

decode_parts :
    (high low : ℕ)
    → high < 16
    → low < 16
    → decode_size_flag_byte (high * 16 + low) ≡ low * 16 ^ high
unfolding decode_size_flag_byte
decode_parts high low hh hl =
    let e : (high * 16 + low) / 16 % 16 ≡ high = omega arith in
    let f : (high * 16 + low) % 16 ≡ low = omega arith in rw (e, f) (ground arith)

-- What the search from round `high` on finds: the first round whose quotient fits a nibble.
record Found (high size flag : ℕ) : Type 0 where
  exponent : ℕ
  low : ℕ
  flag_eq : flag ≡ exponent * 16 + low
  from : high ≤ exponent
  exponent_lt : exponent < 16
  low_le : low ≤ 15
  low_eq : low ≡ ceil_div size (16 ^ exponent)
  passed : (j : ℕ) → high ≤ j → j < exponent → 15 * 16 ^ j < size

pow_pos : (n : ℕ) → 0 < 16 ^ n
pow_pos zero = omega arith
pow_pos (suc n) = rw pow-suc (omega (arith, pow_pos n))

pow_step : (n : ℕ) → 16 ^ n * 16 ≡ 16 ^ (n + 1)
pow_step n = rw (add-one, pow-suc) (omega arith)

Found-here :
    (high size : ℕ)
    → high < 16
    → ceil_div size (16 ^ high) ≤ 15
    → Found high size (high * 16 + ceil_div size (16 ^ high))
Found-here high size hh hl = record {
  exponent = high;
  low = ceil_div size (16 ^ high);
  flag_eq = refl;
  from = omega arith;
  exponent_lt = hh;
  low_le = hl;
  low_eq = refl;
  passed = λ j p q. absurd (omega arith);
}

-- The quotient of a round is too large exactly if 15 units do not cover the size.
too_large : (high size : ℕ) → 15 < ceil_div size (16 ^ high) → 15 * 16 ^ high < size
too_large high size h = elim (Bool-cases (leb size (15 * 16 ^ high))) [
  | inl e ↦ absurd (omega (arith, ceil_div-le size (16 ^ high) 15 (pow_pos high) (leb→le _ _ e)))
  | inr e ↦ ground arith
]

Found-later :
    (high size flag : ℕ) → 15 * 16 ^ high < size → Found (high + 1) size flag → Found high size flag
Found-later high size flag h f = record {
  exponent = f.exponent;
  low = f.low;
  flag_eq = f.flag_eq;
  exponent_lt = f.exponent_lt;
  low_le = f.low_le;
  low_eq = f.low_eq;
  from = omega (arith, f.from);
  passed = λ j p q. elim (Bool-cases (j == high)) [
    | inl e ↦ let r : j ≡ high = ground arith in rw r h
    | inr e ↦ f.passed j (ground arith) q
  ];
}

find_flag-Found :
    (rounds high power size : ℕ)
    → power ≡ 16 ^ high
    → high + rounds ≡ 15
    → size ≤ 15 * 16 ^ 15
    → Found high size (find_flag (suc rounds) high power size)
unfolding find_flag
find_flag-Found zero high power size hp hr hs =
    let e : high ≡ 15 = omega arith in
    let fits : ceil_div size (16 ^ high) ≤ 15 =
      rw e (ceil_div-le size (16 ^ 15) 15 (omega arith) hs) in
    rw (hp, le→leb _ _ fits) (Found-here high size (omega arith) fits)
find_flag-Found (suc rounds) high power size hp hr hs =
    let next : Found (high + 1) size (find_flag (suc rounds) (high + 1) (power * 16) size) =
      find_flag-Found rounds (high + 1) (power * 16) size (rw hp (pow_step high)) (omega arith)
        hs in
    elim (Bool-cases (leb (ceil_div size power) 15)) [
      | inl e ↦ rw e (rw hp (Found-here high size (omega arith) (rw hp at (leb→le _ _ e))))
      | inr e ↦
          let large : 15 < ceil_div size power = ground arith in
          rw e (Found-later high size _ (too_large high size (rw hp at large)) next)
    ]

compute-Found :
    (size : ℕ) → 0 < size → size ≤ 15 * 16 ^ 15 → Found 0 size (compute_size_flag_byte size)
unfolding compute_size_flag_byte
compute-Found size pos hs =
    rw (lt→leb size 0 pos) (find_flag-Found 15 0 1 size refl (omega arith) hs)

-- For sizes up to 15 * 16 ^ 15, the bound that the flag byte stands for covers the size.
pub compute-covers :
    (size : ℕ) → size ≤ 15 * 16 ^ 15 → size ≤ decode_size_flag_byte (compute_size_flag_byte size)
compute-covers zero hs = omega arith
compute-covers (suc n) hs =
    let f = compute-Found (suc n) (omega arith) hs in
    rw (f.flag_eq, decode_parts f.exponent f.low f.exponent_lt (omega (arith, f.low_le)), f.low_eq)
      (le-ceil_div-mul (suc n) (16 ^ f.exponent) (pow_pos f.exponent))

decode-le-parts :
    (flag : ℕ) → flag < 256 → decode_size_flag_byte flag ≤ flag % 16 * 16 ^ (flag / 16)
unfolding decode_size_flag_byte
decode-le-parts flag h = let e : flag / 16 % 16 ≡ flag / 16 = omega arith in rw e (ground arith)

Found-le :
    (size flag other : ℕ)
    → Found 0 size flag
    → other < 256
    → size ≤ decode_size_flag_byte other
    → flag ≤ other
Found-le size flag other f ho hc =
    let h = other / 16 in
    let l = other % 16 in
    let covered : size ≤ l * 16 ^ h = omega (arith, decode-le-parts other ho) in
    elim (Bool-cases (ltb h f.exponent)) [
      | inl e ↦
          let small : 15 * 16 ^ h < size = f.passed h (omega arith) (ltb→lt _ _ e) in
          let capped : l * 16 ^ h ≤ 15 * 16 ^ h = mul-le-mul_right (16 ^ h) (omega arith) in
          absurd (omega arith)
      | inr e ↦ elim (Bool-cases (h == f.exponent)) [
        | inl same ↦
            let r : h ≡ f.exponent = (==_iff _ _).0 same in
            let low : f.low ≤ l =
              rw f.low_eq
                (ceil_div-le size (16 ^ f.exponent) l (pow_pos f.exponent) (rw r at covered)) in
            omega (arith, f.flag_eq)
        | inr apart ↦
            let above : f.exponent < h = ground arith in omega (arith, f.flag_eq, f.low_le)
      ]
    ]

bounds_table : every_below (λ f. leb (decode_size_flag_byte f) (15 * 16 ^ 15)) 256 ≡ true
unfolding every_below decode_size_flag_byte
bounds_table = refl

decode-le-max : (flag : ℕ) → flag < 256 → decode_size_flag_byte flag ≤ 15 * 16 ^ 15
decode-le-max flag h = leb→le _ _ (every_below-at _ 256 flag h bounds_table)

-- A byte that stands for a bound that covers the size is never below the flag byte of the size.
pub compute-least :
    (size flag : ℕ)
    → flag < 256
    → size ≤ decode_size_flag_byte flag
    → compute_size_flag_byte size ≤ flag
compute-least zero flag hf hc = unfold compute_size_flag_byte in omega arith
compute-least (suc n) flag hf hc =
    Found-le (suc n) _ flag
      (compute-Found (suc n) (omega arith) (omega (arith, decode-le-max flag hf))) hf hc
