-- ===== src/Controller/GetTree/Complete.antt =====
-- The result of `getTree`: what it lists is there, and below the limit nothing is left out.
use casfa.Base.{
  ℕ, zero, suc, ◌≤◌, ◌≡◌, ◌⊎◌, true, none, some, List, [], ◌∷◌, ◌++◌, length, map, arith, inl, inr,
  Bool-cases, Option-cases, ok, >>=-eq-ok, ltb, length-append,
}
use casfa.Core.Text.{TextDecoder}
use casfa.Core.Node.{CasNode, children_of}
use casfa.Storage.{Key, StorageProvider, same_key, same_key_iff}
use casfa.Controller.{hash_to_key}
use casfa.Controller.Read.{get_node}
use casfa.Controller.RoundTrip.{In, In-append}
use casfa.Controller.GetTree.{
  Nodes, TreeNodeInfo, node_at, is_some, new_keys, tree_node_info, tree_visit, tree_loop, get_tree,
}
use casfa.Controller.GetTree.Listed.{
  node_at-append, listed-stays, listed-added, listed-cases, In-new_keys,
}

module _ (storage : StorageProvider) (text : TextDecoder) (s : storage.State) (limit : ℕ)
    (root_key : Key) where
  -- Every entry is the one that the stored node has.
  abbrev pub IsSound : Nodes → Type 0
  IsSound nodes =
      (k : Key) (info : TreeNodeInfo)
      → node_at nodes k ≡ some info
      → (node : CasNode) × (get_node storage text s k ≡ ok (some node))
        × (info ≡ tree_node_info node)

  -- The root, and the children of the nodes that are listed.
  abbrev pub IsWanted : Nodes → Key → Type 0
  IsWanted nodes k =
      (k ≡ root_key)
      ⊎ ((parent : Key) × (node : CasNode) × (is_some (node_at nodes parent) ≡ true)
          × (get_node storage text s parent ≡ ok (some node))
          × In k (map hash_to_key (children_of node.children)))

  -- A key that is listed, or that the storage does not have.
  abbrev pub IsSettled : Nodes → Key → Type 0
  IsSettled nodes k = (is_some (node_at nodes k) ≡ true) ⊎ (get_node storage text s k ≡ ok none)

  abbrev IsCovered : List Key → Nodes → Type 0
  IsCovered queue nodes = (k : Key) → IsWanted nodes k → In k queue ⊎ IsSettled nodes k

  added-IsSound :
      (nodes : Nodes) (key : Key) (node : CasNode)
      → IsSound nodes
      → get_node storage text s key ≡ ok (some node)
      → IsSound (nodes ++ ((key, tree_node_info node) ∷ []))
  added-IsSound nodes key node h g k info e = elim (Option-cases (node_at nodes k)) [
    | inr (other, o) ↦
        h k info (ground (arith, node_at-append nodes key (tree_node_info node) k, e, o))
    | inl o ↦ elim (Bool-cases (same_key key k)) [
      | inl same ↦
          let here : key ≡ k = (same_key_iff key k).0 same in
          (
            node,
            rw (← here) g,
            ground (arith, node_at-append nodes key (tree_node_info node) k, e, o, same),
          )
      | inr apart ↦
          absurd (ground (arith, node_at-append nodes key (tree_node_info node) k, e, o, apart))
    ]
  ]

  settled-IsCovered :
      (key : Key) (queue : List Key) (nodes : Nodes)
      → IsCovered (key ∷ queue) nodes
      → IsSettled nodes key
      → IsCovered queue nodes
  settled-IsCovered key queue nodes c done k w = elim (c k w) [
    | inl (inl e) ↦ inr (rw e done)
    | inl (inr m) ↦ inl m
    | inr settled ↦ inr settled
  ]

  added-IsSettled :
      (nodes : Nodes) (key : Key) (info : TreeNodeInfo) (k : Key)
      → IsSettled nodes k
      → IsSettled (nodes ++ ((key, info) ∷ [])) k
  added-IsSettled nodes key info k (inl h) = inl (listed-stays nodes key info k h)
  added-IsSettled nodes key info k (inr h) = inr h

  added-IsCovered :
      (key : Key) (queue : List Key) (nodes : Nodes) (node : CasNode)
      → IsCovered (key ∷ queue) nodes
      → get_node storage text s key ≡ ok (some node)
      → IsCovered
          (queue
            ++ new_keys
                (nodes ++ ((key, tree_node_info node) ∷ []))
                (map hash_to_key (children_of node.children)))
          (nodes ++ ((key, tree_node_info node) ∷ []))
  added-IsCovered key queue nodes node c g k w =
      let info = tree_node_info node in
      let added = nodes ++ ((key, info) ∷ []) in
      let children = map hash_to_key (children_of node.children) in
      let earlier : IsWanted nodes k → In k (queue ++ new_keys added children) ⊎ IsSettled added k =
        (λ old. elim (c k old) [
          | inl (inl e) ↦ inr (inl (rw e (listed-added nodes key info)))
          | inl (inr m) ↦ inl (In-append k queue (new_keys added children) (inl m))
          | inr settled ↦ inr (added-IsSettled nodes key info k settled)
        ]) in
      elim w [
        | inl e ↦ earlier (inl e)
        | inr (parent, other, listed, found, m) ↦ elim (listed-cases nodes key info parent listed) [
          | inl before ↦ earlier (inr (parent, other, before, found, m))
          | inr same ↦
              let equal : other ≡ node = cc (same, found, g) in
              elim (In-new_keys added children k (rw equal at m)) [
                | inl later ↦ inl (In-append k queue (new_keys added children) (inr later))
                | inr i ↦ inr (inl i)
              ]
        ]
      ]

  pub record IsTree (nodes : Nodes) : Type 0 where
    pub sound : IsSound nodes
    pub bounded : length nodes ≤ limit
    pub closed : (length nodes ≡ limit) ⊎ ((k : Key) → IsWanted nodes k → IsSettled nodes k)

  loop-IsTree :
      (fuel : ℕ) (queue : List Key) (nodes found : Nodes)
      → IsSound nodes
      → length nodes ≤ limit
      → IsCovered queue nodes
      → tree_loop storage text s limit fuel queue nodes ≡ ok found
      → IsTree found
  unfolding tree_loop tree_visit
  loop-IsTree zero [] nodes found h b c e =
      let same : nodes ≡ found = cc in
      rw (← same) (record {
        sound = h;
        bounded = b;
        closed = inr (λ k w. elim (c k w) [ inl m ↦ elim m [ ] | inr settled ↦ settled ]);
      })
  loop-IsTree zero (key ∷ queue) nodes found h b c e = cc
  loop-IsTree (suc fuel) [] nodes found h b c e =
      let same : nodes ≡ found = cc in
      rw (← same) (record {
        sound = h;
        bounded = b;
        closed = inr (λ k w. elim (c k w) [ inl m ↦ elim m [ ] | inr settled ↦ settled ]);
      })
  loop-IsTree (suc fuel) (key ∷ queue) nodes found h b c e =
      elim (Bool-cases (ltb (length nodes) limit)) [
        | inr full ↦
            let same : nodes ≡ found = ground (arith, e, full) in
            rw (← same) (record { sound = h; bounded = b; closed = inl (ground (arith, full, b)) })
        | inl room ↦ elim (Bool-cases (is_some (node_at nodes key))) [
          | inl i ↦
              loop-IsTree fuel queue nodes found h b (settled-IsCovered key queue nodes c (inl i))
                (rw (room, i) at e)
          | inr i ↦
              let (seen, g, r) =
                >>=-eq-ok (get_node storage text s key)
                  (tree_visit (tree_loop storage text s limit fuel) key queue nodes)
                  (rw (room, i) at e) in
              elim (Option-cases seen) [
                | inl o ↦
                    loop-IsTree fuel queue nodes found h b
                      (settled-IsCovered key queue nodes c (inr (rw o at g))) (rw o at r)
                | inr (node, o) ↦
                    let g2 : get_node storage text s key ≡ ok (some node) = rw o at g in
                    loop-IsTree fuel _ _ found (added-IsSound nodes key node h g2)
                      (ground (arith, room, length-append nodes ((key, tree_node_info node) ∷ [])))
                      (added-IsCovered key queue nodes node c g2) (rw o at r)
              ]
        ]
      ]

  -- What getTree returns has at most as many nodes as the limit, each with the kind, size, content type,
  -- children and names of the stored node; and either the limit is reached, or the root and every child of a
  -- listed node is listed or is missing in the storage.
  pub get_tree-IsTree :
      (fuel : ℕ) (nodes : Nodes)
      → get_tree storage text s limit fuel root_key ≡ ok nodes
      → IsTree nodes
  unfolding get_tree node_at
  get_tree-IsTree fuel nodes e =
      loop-IsTree fuel (root_key ∷ []) [] nodes (λ k info m. cc) (omega arith)
        (λ k w. elim w [ inl e2 ↦ inl (inl e2) | inr (p, n, l, g, m) ↦ cc ]) e
