-- ===== src/Drive/Mutations/Reports.antt =====
-- The reports of new keys are only ever added to, whether an operation succeeds or throws.
use casfa.Base.{
  ◌≡◌, refl, sym, ap, ◌∙◌, List, [], ◌∷◌, ◌++◌, append-nil, append_assoc, Bytes, Result, ok, err, ℕ,
  inl, inr, Result-cases,
}
use casfa.Base.Exec.{lift, continue, ◌>>=◌}
use casfa.Core.Text.{Text, TextDecoder}
use casfa.Core.Node.{CasNode, encode_dict_node}
use casfa.Storage.{Key}
use casfa.Cas.{stream_from_bytes}
use casfa.Cas.Facade.{CasFacade}
use casfa.Drive.{DriveError, not_a_dict, entry_not_found, segment_not_found, from_key, index_of}
use casfa.Drive.Resolver.{get_node_decoded, names_of}
use casfa.Controller.{hash_to_key, key_to_hash}
use casfa.Drive.World.{World, Action, put_dict}
use casfa.Drive.Mutations.{
  put_child, read_dict, need_dict, need, resolve_segment, replace_subtree_at_path,
}

module _ (compute_key : Bytes → Bytes) (cas : CasFacade compute_key) where
  -- The state behind a run has the reports before it in front.
  pub record Grows (w t : World compute_key cas) : Type 0 where
    pub fresh : List Key
    pub grown : t.1 ≡ w.1 ++ fresh

  Grows-self : (w : World compute_key cas) → Grows w w
  Grows-self w = record { fresh = []; grown = sym (append-nil w.1) }

  Grows-trans : (u v t : World compute_key cas) → Grows u v → Grows v t → Grows u t
  Grows-trans u v t a b = record {
    fresh = a.fresh ++ b.fresh;
    grown = b.grown ∙ ap (λ x. x ++ b.fresh) a.grown ∙ append_assoc u.1 a.fresh b.fresh;
  }

  -- The rest of an operation, behind a first part with this result.
  continue-Grows :
      {A B : Type 0} (f : A → Action compute_key cas B) (r : Result DriveError A)
      (w : World compute_key cas)
      → ((a : A) → Grows w (f a w).1)
      → Grows w (continue r f w).1
  continue-Grows f (ok a) w h = h a
  continue-Grows f (err thrown) w h = Grows-self w

  after-Grows :
      {A B : Type 0} (w v : World compute_key cas) (f : A → Action compute_key cas B)
      (r : Result DriveError A)
      → Grows w v
      → ((a : A) → Grows v (f a v).1)
      → Grows w (continue r f v).1
  after-Grows w v f r g h = Grows-trans w v _ g (continue-Grows f r v h)

  put_dict-Grows :
      (children : List Bytes) (names : List Text) (w : World compute_key cas)
      → Grows w (put_dict compute_key cas children names w).1
  unfolding put_dict
  put_dict-Grows children names w =
      elim (Result-cases (encode_dict_node compute_key children names)) [
        | inr u ↦ rw (u.1) (Grows-self w)
        | inl u ↦
            elim (Result-cases
              (cas.put_node (hash_to_key (u.0).hash) (stream_from_bytes (u.0).bytes) w.0).0) [
                | inr v ↦ rw (u.1) (rw (v.1) (record { fresh = []; grown = sym (append-nil w.1) }))
                | inl v ↦
                    rw (u.1)
                      (rw (v.1) (record { fresh = hash_to_key (u.0).hash ∷ []; grown = refl }))
              ]
      ]

  put_child-Grows :
      (node : CasNode) (i : ℕ) (key : Key) (w : World compute_key cas)
      → Grows w (put_child compute_key cas node i key w).1
  unfolding put_child
  put_child-Grows node i key w =
      continue-Grows _ (from_key (key_to_hash key)) w (λ hash. put_dict-Grows _ _ w)

  module _ (text : TextDecoder) where
    -- The reads of a round, in front of what follows them.
    round-Grows :
        (root_key : Key) (segment : Text) (f : CasNode → ℕ → Action compute_key cas Key)
        (w : World compute_key cas)
        → ((node : CasNode) (i : ℕ) → Grows w (f node i w).1)
        → Grows w
            ((read_dict compute_key cas text root_key not_a_dict >>= λ node.
                lift (need (index_of (names_of node.child_names) segment) (entry_not_found segment))
                >>= λ i. f node i)
              w).1
    unfolding read_dict
    round-Grows root_key segment f w h =
        elim (Result-cases (get_node_decoded compute_key cas text w.0 root_key)) [
          | inr u ↦ rw (u.1) (Grows-self w)
          | inl u ↦ elim (Result-cases (need_dict (u.0) not_a_dict)) [
            | inr v ↦ rw (u.1) (rw (v.1) (Grows-self w))
            | inl v ↦ rw (u.1) (
                rw (v.1) (
                  continue-Grows (f (v.0))
                    (need (index_of (names_of (v.0).child_names) segment) (entry_not_found segment))
                    w (h (v.0))))
          ]
        ]

    next-Grows :
        (node : CasNode) (segment : Text) (f : Key → Action compute_key cas Key)
        (w : World compute_key cas)
        → ((key : Key) → Grows w (f key w).1)
        → Grows w
            ((lift (resolve_segment node segment) >>= λ found.
                lift (need found (segment_not_found segment)) >>= f)
              w).1
    next-Grows node segment f w h = elim (Result-cases (resolve_segment node segment)) [
      | inr u ↦ rw (u.1) (Grows-self w)
      | inl u ↦ rw (u.1) (continue-Grows f (need (u.0) (segment_not_found segment)) w h)
    ]

    pub replace-Grows :
        (root_key : Key) (segments : List Text) (new : Key) (w : World compute_key cas)
        → Grows w (replace_subtree_at_path compute_key cas text root_key segments new w).1
    unfolding replace_subtree_at_path
    replace-Grows root_key [] new w = Grows-self w
    replace-Grows root_key (segment ∷ []) new w =
        round-Grows root_key segment (λ node i. put_child compute_key cas node i new) w
          (λ node i. put_child-Grows node i new w)
    replace-Grows root_key (segment ∷ next ∷ segments) new w =
        let below =
          λ (key : Key). replace_subtree_at_path compute_key cas text key (next ∷ segments) new in
        round-Grows root_key segment
          (λ node i. lift (resolve_segment node segment) >>= λ found.
            lift (need found (segment_not_found segment)) >>= λ key.
            below key >>= put_child compute_key cas node i)
          w
          (λ node i.
            next-Grows node segment (λ key. below key >>= put_child compute_key cas node i) w
              (λ key.
                let (r, v) = below key w in
                after-Grows w v (put_child compute_key cas node i) r
                  (replace-Grows key (next ∷ segments) new w) (λ k. put_child-Grows node i k v)))
