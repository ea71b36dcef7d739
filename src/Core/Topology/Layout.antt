-- ===== src/Core/Topology/Layout.antt =====
-- The layout of a file holds exactly its bytes, and each of its nodes fits the node limit.
use casfa.Base.{
  ℕ, zero, suc, ◌+◌, ◌-◌, ◌*◌, ◌≤◌, ◌<◌, ◌≡◌, inl, inr, refl, ◌∙◌, ap, min, arith, leb, Bool-cases,
  Result, ok, lt→leb, lt→ltb, le→ltb, leb→le, ceil_div, le-ceil_div-mul, ceil_div-le,
}
use casfa.Core.Topology.{
  LayoutError, LayoutNode, Layouts, layout, nil, cons, max_safe_size, Capacity, whole,
  compute_usable_space, compute_capacity, layout_children, inner_layout, compute_layout_at_depth,
  compute_layout, compute_layout_size, layouts_size,
}
use casfa.Core.Topology.Depth.{
  node_limit_of, usable_space, capacity-one, compute_depth-one, compute_depth-two,
}
use Prim.Native.Nat.{max}

abbrev pub layouts_count : Layouts → ℕ
layouts_count nil = 0
layouts_count (cons child rest) = suc (layouts_count rest)

-- Every node has room for its bytes and 16 bytes for each child, and no child below depth 1.
abbrev mutual
  pub Fits : ℕ → LayoutNode → Type 0
  Fits space (layout depth data_size children) =
      (data_size + layouts_count children * 16 ≤ space) × AllFit space children

  pub AllFit : ℕ → Layouts → Type 0
  AllFit space nil = Unit {0}
  AllFit space (cons child rest) = Fits space child × AllFit space rest

-- How deep the nodes of a layout are nested.
abbrev mutual
  pub height : LayoutNode → ℕ
  height (layout depth data_size children) = suc (heights children)

  pub heights : Layouts → ℕ
  heights nil = 0
  heights (cons child rest) = max (height child) (heights rest)

-- What a layout of `size` bytes has to satisfy.
pub record Holds (space size depth : ℕ) (r : Result LayoutError LayoutNode) : Type 0 where
  pub node : LayoutNode
  pub found : r ≡ ok node
  pub exact_size : compute_layout_size node ≡ size
  pub fits : Fits space node
  pub shallow : height node ≤ depth

Holds-deeper :
    {space size : ℕ} {r : Result LayoutError LayoutNode}
    → Holds space size 1 r
    → Holds space size 2 r
Holds-deeper v = record {
  node = v.node;
  found = v.found;
  exact_size = v.exact_size;
  fits = v.fits;
  shallow = omega (arith, v.shallow);
}

record HoldsAll (space size count depth : ℕ) (r : Result LayoutError Layouts) : Type 0 where
  nodes : Layouts
  found : r ≡ ok nodes
  exact_size : layouts_size nodes ≡ size
  number : layouts_count nodes ≡ count
  fits : AllFit space nodes
  shallow : heights nodes ≤ depth

-- The children take what is left, if their capacities together cover it.
layout_children-HoldsAll :
    (at_depth : ℕ → Result LayoutError LayoutNode) (space count leftover capacity depth : ℕ)
    → ((size : ℕ) → size ≤ capacity → Holds space size depth (at_depth size))
    → leftover ≤ count * capacity
    → HoldsAll space leftover count depth (layout_children at_depth count leftover capacity)
unfolding layout_children layouts_size
layout_children-HoldsAll at_depth space zero leftover capacity depth h le = record {
  nodes = nil;
  found = refl;
  exact_size = omega arith;
  number = refl;
  fits = tt;
  shallow = omega arith;
}
layout_children-HoldsAll at_depth space (suc count) leftover capacity depth h le =
    let size = min leftover capacity in
    let here = h size (omega arith) in
    let later =
      layout_children-HoldsAll at_depth space count (leftover - size) capacity depth h
        (omega arith) in
    record {
      nodes = cons here.node later.nodes;
      found = rw (here.found, later.found) refl;
      exact_size = omega (arith, here.exact_size, later.exact_size);
      number = ap suc later.number;
      fits = (here.fits, later.fits);
      shallow = omega (arith, here.shallow, later.shallow);
    }

-- The number of children is at most k, and together they cover what the node itself does not hold.
-- Here 16 (q + 1) is the capacity of a child.
count_bound :
    (n k q : ℕ) → 0 < q → n ≤ 16 * ((q + 1) * k) → ceil_div (n - 16 * k) (16 * (q + 1) - 16) ≤ k
count_bound n k q pos h =
    let e : 16 * (q + 1) - 16 ≡ 16 * q = omega arith in
    rw e (ceil_div-le (n - 16 * k) (16 * q) k (omega arith) (omega arith))

cover :
    (n k q c : ℕ)
    → 0 < q
    → c ≡ ceil_div (n - 16 * k) (16 * (q + 1) - 16)
    → c ≤ k
    → 16 * k < n
    → n - (16 * k - c * 16) ≤ c * (16 * (q + 1))
cover n k q c pos hc le lt =
    let e : 16 * (q + 1) - 16 ≡ 16 * q = omega arith in
    let d : n - 16 * k ≤ c * (16 * q) =
      rw (hc, e) (le-ceil_div-mul (n - 16 * k) (16 * q) (omega arith)) in
    omega (arith, d)

module _ (exp_log : ℕ → ℕ → Capacity) (k : ℕ) (wide : 2 ≤ k) where
  inner-Holds :
      (at_depth : ℕ → Result LayoutError LayoutNode) (depth n q : ℕ)
      → compute_capacity exp_log (depth - 1) (node_limit_of k) ≡ ok (whole (16 * (q + 1)))
      → 0 < q
      → n ≤ 16 * ((q + 1) * k)
      → 1 ≤ depth
      → ((size : ℕ) → size ≤ 16 * (q + 1) → Holds (16 * k) size (depth - 1) (at_depth size))
      → Holds (16 * k) n depth (inner_layout exp_log at_depth n depth (node_limit_of k))
  unfolding inner_layout compute_layout_size
  inner-Holds at_depth depth n q hc pos hn hd h = elim (Bool-cases (leb n (16 * k))) [
    | inl e ↦
        rw (usable_space k, hc)
          (rw e (record {
            node = layout depth n nil;
            found = refl;
            exact_size = omega arith;
            fits = (omega (arith, leb→le _ _ e), tt);
            shallow = omega arith;
          }))
    | inr e ↦
        let c = ceil_div (n - 16 * k) (16 * (q + 1) - 16) in
        let few : c ≤ k = count_bound n k q pos hn in
        let over : 16 * k < n = ground arith in
        let rest =
          layout_children-HoldsAll at_depth (16 * k) c (n - (16 * k - c * 16)) (16 * (q + 1))
            (depth - 1) h (cover n k q c pos refl few over) in
        rw (usable_space k, hc)
          (rw (e, lt→ltb 16 (16 * (q + 1)) (omega arith), le→ltb (16 * k) (c * 16) (omega arith))
            (record {
              node = layout depth (16 * k - c * 16) rest.nodes;
              found = rw rest.found refl;
              exact_size = omega (arith, rest.exact_size);
              fits = (omega (arith, rest.number), rest.fits);
              shallow = omega (arith, rest.shallow);
            }))
  ]

  -- One node, and the tree of depth 2, whose children hold L = 16 k bytes each.
  layout_at_one-Holds :
      (n : ℕ)
      → n ≤ 16 * k
      → Holds (16 * k) n 1 (compute_layout_at_depth exp_log n 1 (node_limit_of k))
  unfolding compute_layout_at_depth compute_layout_size
  layout_at_one-Holds n hn = record {
    node = layout 1 (min n (compute_usable_space (node_limit_of k))) nil;
    found = refl;
    exact_size = omega (arith, usable_space k);
    fits = (omega (arith, usable_space k), tt);
    shallow = omega arith;
  }

  layout_at_two-Holds :
      (n : ℕ)
      → n ≤ 16 * (k * k)
      → Holds (16 * k) n 2 (compute_layout_at_depth exp_log n 2 (node_limit_of k))
  unfolding compute_layout_at_depth
  layout_at_two-Holds n hn =
      let q = k - 1 in
      let p : k ≡ q + 1 = omega arith in
      inner-Holds (λ size. compute_layout_at_depth exp_log size 1 (node_limit_of k)) 2 n q
        (capacity-one exp_log k ∙ ap (λ t. ok (whole (16 * t))) p) (omega arith) (rw (← p) hn)
        (omega arith) (λ size hs. layout_at_one-Holds size (rw (← p) at hs))

  -- The layout of a file holds the bytes of the file, no more and no fewer, every node in it has room for
  -- its own bytes and the hashes of its children within the node limit, and it nests 2 deep at most: if
  -- the node limit is 16 + 16 k with 2 ≤ k, and the size is at most 2 ^ 53 - 1, at most 16 k ^ 2 and at
  -- most the capacity that the code computes for depth 2. Nothing is assumed of how that is rounded.
  pub compute_layout-Holds :
      (file_size : ℕ)
      → file_size ≤ max_safe_size
      → file_size ≤ 16 * (k * k)
      → file_size ≤ (exp_log 2 (16 * k)).floor
      → Holds (16 * k) file_size 2 (compute_layout exp_log file_size (node_limit_of k))
  unfolding compute_layout compute_layout_size
  compute_layout-Holds zero hm ht hc = record {
    node = layout 1 0 nil;
    found = refl;
    exact_size = omega arith;
    fits = (omega arith, tt);
    shallow = omega arith;
  }
  compute_layout-Holds (suc n) hm ht hc = elim (Bool-cases (leb (suc n) (16 * k))) [
    | inl e ↦
        let h = layout_at_one-Holds (suc n) (leb→le _ _ e) in
        rw (lt→leb (suc n) 0 (omega arith))
          (rw (compute_depth-one exp_log k (suc n) (omega arith) (leb→le _ _ e)) (Holds-deeper h))
    | inr e ↦ rw (lt→leb (suc n) 0 (omega arith)) (
        rw (compute_depth-two exp_log k (suc n) (ground arith) hc hm)
          (layout_at_two-Holds (suc n) ht))
  ]
