-- ===== src/Controller/GetTree/Ends.antt =====
-- `getTree` ends: a bound on the rounds of its loop.
use casfa.Base.{
  ℕ, zero, suc, ◌+◌, ◌*◌, ◌≤◌, ◌<◌, ◌≡◌, ◌≢◌, some, List, [], ◌∷◌, ◌++◌, length, map, arith, inl,
  inr, Bool-cases, Option-cases, ok, err, Result-cases, ltb, ltb→lt, refl, length-append,
  length-map,
}
use casfa.Core.Text.{TextDecoder}
use casfa.Core.Node.{CasNode, children_of, decode_node}
use casfa.Storage.{Key, StorageProvider}
use casfa.Controller.{out_of_fuel, hash_to_key}
use casfa.Controller.Read.{get_node}
use casfa.Controller.GetTree.{
  Nodes, node_at, is_some, new_keys, tree_node_info, tree_visit, tree_loop, get_tree,
}
use casfa.Controller.GetTree.Listed.{length-new_keys}

module _ (storage : StorageProvider) (text : TextDecoder) (s : storage.State) where
  get_node-no_fuel : (key : Key) → get_node storage text s key ≢ err out_of_fuel
  unfolding get_node
  get_node-no_fuel key e = elim (Option-cases (storage.get s key)) [
    | inl o ↦ cc
    | inr (bytes, o) ↦ elim (Result-cases (decode_node text bytes)) [
      | inl (node, r) ↦ absurd (ground (arith, e, o, r))
      | inr (thrown, r) ↦ absurd (ground (arith, e, o, r))
    ]
  ]

  -- No node of the storage has more children than the bound.
  abbrev pub HasFewChildren : ℕ → Type 0
  HasFewChildren bound =
      (key : Key) (node : CasNode)
      → get_node storage text s key ≡ ok (some node)
      → length (children_of node.children) ≤ bound

  module _ (limit bound : ℕ) (few : HasFewChildren bound) where
    one_left : (n m room : ℕ) → m ≤ n + room → n < m → (left : ℕ) × (room ≡ suc left)
    one_left n m zero l h = absurd (omega arith)
    one_left n m (suc left) l h = (left, refl)

    pushed-le :
        (queue : List Key) (nodes : Nodes) (node : CasNode) (key : Key) (left fuel : ℕ)
        → get_node storage text s key ≡ ok (some node)
        → suc (length queue) + suc left * bound ≤ suc fuel
        → length (queue ++ new_keys nodes (map hash_to_key (children_of node.children)))
            + left * bound
          ≤ fuel
    pushed-le queue nodes node key left fuel g h =
        let children = map hash_to_key (children_of node.children) in
        omega (
          arith,
          length-append queue (new_keys nodes children),
          length-new_keys nodes children,
          length-map (children_of node.children) hash_to_key,
          few key node g,
        )

    loop-ends :
        (fuel : ℕ) (queue : List Key) (nodes : Nodes) (room : ℕ)
        → limit ≤ length nodes + room
        → length queue + room * bound ≤ fuel
        → tree_loop storage text s limit fuel queue nodes ≢ err out_of_fuel
    unfolding tree_loop tree_visit
    loop-ends zero [] nodes room l h e = cc
    loop-ends zero (key ∷ queue) nodes room l h e = absurd (omega arith)
    loop-ends (suc fuel) [] nodes room l h e = cc
    loop-ends (suc fuel) (key ∷ queue) nodes room l h e =
        elim (Bool-cases (ltb (length nodes) limit)) [
          | inr full ↦ absurd (ground (arith, e, full))
          | inl less ↦ elim (Bool-cases (is_some (node_at nodes key))) [
            | inl i ↦ loop-ends fuel queue nodes room l (omega arith) (rw (less, i) at e)
            | inr i ↦ elim (Result-cases (get_node storage text s key)) [
              | inr (thrown, g) ↦ get_node-no_fuel key (ground (arith, e, less, i, g))
              | inl (found, g) ↦ elim (Option-cases found) [
                | inl o ↦ loop-ends fuel queue nodes room l (omega arith) (rw (less, i, g, o) at e)
                | inr (node, o) ↦
                    let (left, more) = one_left (length nodes) limit room l (ltb→lt _ _ less) in
                    loop-ends fuel _ (nodes ++ ((key, tree_node_info node) ∷ [])) left
                      (omega (arith, length-append nodes ((key, tree_node_info node) ∷ [])))
                      (pushed-le queue (nodes ++ ((key, tree_node_info node) ∷ [])) node key left
                        fuel (rw o at g) (rw more at h))
                      (rw (less, i, g, o) at e)
              ]
            ]
          ]
        ]

  -- getTree ends: if no node of the storage has more than `bound` children, then 1 + limit * bound rounds
  -- are enough, so the model returns the nodes or the error of a node that does not decode.
  pub get_tree-ends :
      (limit bound : ℕ)
      → HasFewChildren bound
      → (fuel : ℕ) (root_key : Key) → 1 + limit * bound ≤ fuel
      → get_tree storage text s limit fuel root_key ≢ err out_of_fuel
  unfolding get_tree
  get_tree-ends limit bound few fuel root_key h =
      loop-ends limit bound few fuel (root_key ∷ []) [] limit (omega arith) (omega arith)
