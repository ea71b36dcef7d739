-- ===== src/Core/Topology.antt =====
-- packages/core/src/topology.ts: how a file is split into a tree of nodes.
-- A node limit is at least 16. `exp_log depth space` stands for the floating-point number
-- `Math.exp(depth * Math.log(L) - (depth - 1) * Math.log(HASH_SIZE))`, which need not be whole.
-- Where a tree is laid out over children whose capacity is not whole, the code goes on with sizes that
-- are not whole numbers of bytes; that is not modelled, and `fractional` stands for whatever it does.
pub mod Depth
pub mod Layout
mod Examples
use casfa.Base.{
  ℕ, zero, suc, ◌+◌, ◌-◌, ◌*◌, ◌/◌, ◌^◌, min, ltb, leb, ◌==◌, not, true, if◌then◌else◌, ceil_div,
  Bool, Result, ok, err, guard, ◌>>=◌, ◌>>◌, List, [], ◌∷◌,
}

pub data LayoutError : Type 0 where
  depth_below_one too_deep no_child_capacity negative_data fractional : LayoutError

-- A number from 0 on as `Math.exp` returns it: its whole part, and whether that is all of it.
pub record Capacity : Type 0 where
  pub floor : ℕ
  pub is_whole : Bool

-- `children` of a node are a list of nodes: the two types stand in one block.
mutual
  pub data LayoutNode : Type 0 where
    layout : ℕ → ℕ → Layouts → LayoutNode

  pub data Layouts : Type 0 where
    nil : Layouts
    cons : LayoutNode → Layouts → Layouts

abbrev pub max_safe_size : ℕ
max_safe_size = 9007199254740991

unfoldable pub compute_usable_space : ℕ → ℕ
compute_usable_space node_limit = node_limit - 16

abbrev pub whole : ℕ → Capacity
whole n = record { floor = n; is_whole = true }

-- `Math.min(capacity, Number.MAX_SAFE_INTEGER)`
unfoldable pub clamp : Capacity → Capacity
clamp c = if ltb c.floor max_safe_size then c else whole max_safe_size

module _ (exp_log : ℕ → ℕ → Capacity) where
  unfoldable pub compute_capacity : ℕ → ℕ → Result LayoutError Capacity
  unfolding compute_usable_space clamp
  compute_capacity depth node_limit = do
    guard (not (ltb depth 1)) depth_below_one
    let space = compute_usable_space node_limit
    if depth == 1 then ok (whole space) else ok (clamp (exp_log depth space))

  -- The `while` loop from `depth` on. It throws once the depth passes 10, so `11 - depth` rounds are
  -- enough, and the case of no round left is the throw itself. `capacity < fileSize` holds of a number
  -- exactly if it holds of its whole part, since the size is whole.
  depth_loop : ℕ → ℕ → ℕ → ℕ → Result LayoutError ℕ
  depth_loop zero depth file_size node_limit = err too_deep
  depth_loop (suc rounds) depth file_size node_limit = do
    let next = depth_loop rounds (depth + 1) file_size node_limit
    capacity ← compute_capacity depth node_limit
    if ltb capacity.floor file_size
        then (if ltb 10 (depth + 1) then err too_deep else next)
        else ok depth

  unfoldable pub compute_depth : ℕ → ℕ → Result LayoutError ℕ
  unfolding depth_loop compute_capacity
  compute_depth file_size node_limit =
      if leb file_size 0 then ok 1 else depth_loop 10 1 file_size node_limit

-- The loop over the children: each takes what is left, up to its capacity. `at_depth` lays out a child.
unfoldable pub layout_children :
    (ℕ → Result LayoutError LayoutNode) → ℕ → ℕ → ℕ → Result LayoutError Layouts
layout_children at_depth zero leftover child_capacity = ok nil
layout_children at_depth (suc count) leftover child_capacity = do
  let child_size = min leftover child_capacity
  child ← at_depth child_size
  rest ← layout_children at_depth count (leftover - child_size) child_capacity
  ok (cons child rest)

module _ (exp_log : ℕ → ℕ → Capacity) where
  -- The body of `computeLayoutAtDepth` for an inner node, whose children lie at `depth - 1`.
  inner_layout : (ℕ → Result LayoutError LayoutNode) → ℕ → ℕ → ℕ → Result LayoutError LayoutNode
  unfolding compute_usable_space layout_children
  inner_layout at_depth remaining_size depth node_limit = do
    let space = compute_usable_space node_limit
    capacity ← compute_capacity exp_log (depth - 1) node_limit
    if leb remaining_size space then ok (layout depth remaining_size nil) else do
      guard capacity.is_whole fractional
      let child_capacity = capacity.floor
      guard (ltb 16 child_capacity) no_child_capacity
      let child_count = ceil_div (remaining_size - space) (child_capacity - 16)
      guard (not (ltb space (child_count * 16))) negative_data
      let my_data_size = space - child_count * 16
      children ← layout_children at_depth child_count (remaining_size - my_data_size) child_capacity
      ok (layout depth my_data_size children)

  -- The depth is the argument of the recursion; the code calls it with depths from 1 on.
  unfoldable pub compute_layout_at_depth : ℕ → ℕ → ℕ → Result LayoutError LayoutNode
  unfolding inner_layout compute_capacity
  compute_layout_at_depth remaining_size zero node_limit = err depth_below_one
  compute_layout_at_depth remaining_size (suc zero) node_limit =
      ok (layout 1 (min remaining_size (compute_usable_space node_limit)) nil)
  compute_layout_at_depth remaining_size (suc (suc depth)) node_limit =
      inner_layout (λ size. compute_layout_at_depth size (suc depth) node_limit) remaining_size
        (suc (suc depth)) node_limit

  unfoldable pub compute_layout : ℕ → ℕ → Result LayoutError LayoutNode
  unfolding compute_layout_at_depth
  compute_layout file_size node_limit = if leb file_size 0 then ok (layout 1 0 nil) else do
    depth ← compute_depth exp_log file_size node_limit
    compute_layout_at_depth file_size depth node_limit

unfoldable mutual
  pub compute_layout_size : LayoutNode → ℕ
  compute_layout_size (layout depth data_size children) = data_size + layouts_size children

  pub layouts_size : Layouts → ℕ
  layouts_size nil = 0
  layouts_size (cons child rest) = compute_layout_size child + layouts_size rest

unfoldable mutual
  pub count_layout_nodes : LayoutNode → ℕ
  count_layout_nodes (layout depth data_size children) = 1 + count_layouts children

  pub count_layouts : Layouts → ℕ
  count_layouts nil = 0
  count_layouts (cons child rest) = count_layout_nodes child + count_layouts rest

unfoldable pub validate_layout : LayoutNode → ℕ → Bool
unfolding compute_layout_size
validate_layout l expected_size = compute_layout_size l == expected_size
