-- ===== src/Core/Topology/Depth.antt =====
-- The depth that is chosen for files of at most two levels, for a node limit of 16 + 16 k bytes.
use casfa.Base.{
  ℕ, suc, if◌then◌else◌, err, ◌+◌, ◌*◌, ◌≤◌, ◌<◌, ◌≡◌, refl, ap, arith, ltb, false, ok, lt→leb,
  le→ltb, lt→ltb,
}
use casfa.Core.Topology.{
  LayoutError, Capacity, whole, clamp, max_safe_size, compute_usable_space, compute_capacity,
  depth_loop, compute_depth,
}

abbrev pub node_limit_of : ℕ → ℕ
node_limit_of k = 16 + 16 * k

pub usable_space : (k : ℕ) → compute_usable_space (node_limit_of k) ≡ 16 * k
unfolding compute_usable_space
usable_space k = omega arith

-- The cut at 2 ^ 53 - 1 is not seen by a size below it.
ltb-clamp : (c : Capacity) (n : ℕ) → n ≤ c.floor → n ≤ max_safe_size → ltb (clamp c).floor n ≡ false
unfolding clamp
ltb-clamp c n h hm = ground arith

module _ (exp_log : ℕ → ℕ → Capacity) (k : ℕ) where
  pub capacity-one : compute_capacity exp_log 1 (node_limit_of k) ≡ ok (whole (16 * k))
  unfolding compute_capacity
  capacity-one = ap (λ n. ok (whole n)) (usable_space k)

  capacity-two : compute_capacity exp_log 2 (node_limit_of k) ≡ ok (clamp (exp_log 2 (16 * k)))
  unfolding compute_capacity
  capacity-two = ap (λ n. ok (clamp (exp_log 2 n))) (usable_space k)

  -- One round compares the size with the capacity of its depth.
  depth_loop_step :
      (rounds depth file_size : ℕ) (c : Capacity)
      → compute_capacity exp_log depth (node_limit_of k) ≡ ok c
      → depth_loop exp_log (suc rounds) depth file_size (node_limit_of k) ≡ (
          if ltb c.floor file_size
          then (if ltb 10 (depth + 1)
              then err LayoutError.too_deep
              else depth_loop exp_log rounds (depth + 1) file_size (node_limit_of k))
          else ok depth)
  unfolding depth_loop
  depth_loop_step rounds depth n c h = rw h refl

  depth_loop-two :
      (rounds n : ℕ)
      → n ≤ (exp_log 2 (16 * k)).floor
      → n ≤ max_safe_size
      → depth_loop exp_log (suc rounds) 2 n (node_limit_of k) ≡ ok 2
  depth_loop-two rounds n h hm =
      rw (depth_loop_step rounds 2 n _ capacity-two)
        (rw (ltb-clamp (exp_log 2 (16 * k)) n h hm) refl)

  -- A file that one node holds gets depth 1.
  pub compute_depth-one :
      (n : ℕ) → 0 < n → n ≤ 16 * k → compute_depth exp_log n (node_limit_of k) ≡ ok 1
  unfolding compute_depth
  compute_depth-one n pos h =
      rw (lt→leb n 0 pos) (rw (depth_loop_step 9 1 n _ capacity-one) (rw (le→ltb _ _ h) refl))

  -- A file that is larger and within the capacity at depth 2 gets depth 2.
  pub compute_depth-two :
      (n : ℕ)
      → 16 * k < n
      → n ≤ (exp_log 2 (16 * k)).floor
      → n ≤ max_safe_size
      → compute_depth exp_log n (node_limit_of k) ≡ ok 2
  unfolding compute_depth
  compute_depth-two n low h hm =
      rw (lt→leb n 0 (omega arith))
        (rw (depth_loop_step 9 1 n _ capacity-one) (rw (lt→ltb _ _ low) (depth_loop-two 8 n h hm)))
