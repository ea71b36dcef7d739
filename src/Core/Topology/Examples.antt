-- ===== src/Core/Topology/Examples.antt =====
-- Concrete layouts, and the theorems about the splitting of files at them.
use casfa.Base.{ℕ, ◌≡◌, refl, arith, ◌*◌, ◌/◌, ◌^◌, ok}
use casfa.Core.Topology.{
  Capacity, whole, layout, nil, cons, compute_layout, compute_depth, compute_layout_at_depth,
}
use casfa.Core.Topology.Layout.{Holds, compute_layout-Holds}

abbrev exact_exp_log : ℕ → ℕ → Capacity
exact_exp_log depth space = whole (16 * (space / 16) ^ depth)

-- 100 bytes under a node limit of 80, so with 4 hashes to a node.
layout_of_100 : compute_layout exact_exp_log 100 80 ≡ ok (layout 2 48 (cons (layout 1 52 nil) nil))
unfolding compute_layout compute_depth compute_layout_at_depth
layout_of_100 = refl

compute_layout-Holds_example : Holds 64 100 2 (compute_layout exact_exp_log 100 80)
compute_layout-Holds_example =
    compute_layout-Holds exact_exp_log 4 (omega arith) 100 (omega arith) (omega arith) (omega arith)
