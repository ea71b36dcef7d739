-- ===== src/Drive/Transfer/Frame.antt =====
-- What a transfer does to the roots of the branches.
use casfa.Base.{
  Bool, false, List, [], ◌∷◌, length, Bytes, ok, err, ◌≡◌, refl, ap, ◌∙◌, Result-cases, Bool-cases,
  Option-cases, inl, inr,
}
use casfa.Core.Text.{Text, TextDecoder}
use casfa.Storage.{Key, same_key}
use casfa.Cas.Facade.{CasFacade}
use casfa.Drive.{
  DriveError, source_path_not_found, source_branch_not_found, target_branch_not_found,
  source_has_no_root,
}
use casfa.Drive.Resolver.{resolve_path}
use casfa.Drive.Mutations.{ensure_path_then_add_or_replace, need}
use casfa.Drive.World.{report, ensure_empty_root}
use casfa.Drive.Branches.{truthy, BranchStore}
use casfa.Drive.Transfer.Spec.{NormalizedSpec, TransferMode, object_entries}
use casfa.Drive.Transfer.{
  TransferResult, Transfer, TransferWorld, on_world, set_root, resolve_entries, apply_entries,
  target_root_of, commit, find_branches, transfer_into, check_mode, same_realm, must_not_exist,
}

module _ (store : BranchStore) (compute_key : Bytes → Bytes) (cas : CasFacade compute_key)
    (text : TextDecoder) (le_locale : Text → Text → Bool) where
  abbrev W : Type 0
  W = TransferWorld store compute_key cas text le_locale

  -- A step that leaves the branches as they are, whatever its outcome.
  abbrev Keeps : {A : Type 0} → Transfer store compute_key cas text le_locale A → Type 0
  Keeps m = (t : W) → (m t).1.0 ≡ t.0

  resolve-Keeps :
      (mode : TransferMode) (source target : Key) (mapping : List (Text × Text))
      → Keeps (resolve_entries store compute_key cas text le_locale mode source target mapping)
  unfolding resolve_entries
  resolve-Keeps mode source target [] t = refl
  resolve-Keeps mode source target ((from, to) ∷ mapping) t =
      elim (Result-cases (resolve_path compute_key cas text t.1.0 source from)) [
        | inr (e, p) ↦ rw p refl
        | inl (found, p) ↦ elim (Result-cases (need (truthy found) (source_path_not_found from))) [
          | inr (e, q) ↦ rw p (rw q refl)
          | inl (key, q) ↦
              elim (Result-cases
                (must_not_exist store compute_key cas text le_locale mode target to t.1)) [
                  | inr (e, r) ↦ rw p (rw q (rw r refl))
                  | inl (u, r) ↦
                      let rest =
                        resolve_entries store compute_key cas text le_locale mode source target
                          mapping t in
                      let kept = resolve-Keeps mode source target mapping t in
                      elim (Result-cases rest.0) [
                        | inl (entries, z) ↦ rw p (rw q (rw r (rw z kept)))
                        | inr (e, z) ↦ rw p (rw q (rw r (rw z kept)))
                      ]
                ]
        ]
      ]

  apply-Keeps :
      (root : Key) (entries : List (Text × Key))
      → Keeps (apply_entries store compute_key cas text le_locale root entries)
  unfolding apply_entries on_world
  apply-Keeps root [] t = refl
  apply-Keeps root ((to, key) ∷ entries) t =
      let run = ensure_path_then_add_or_replace compute_key cas text le_locale root to key t.1 in
      elim (Result-cases run.0) [
        | inl (new_root, e) ↦ rw e (apply-Keeps new_root entries (t.0, run.1))
        | inr (thrown, e) ↦ rw e refl
      ]

  pub find-Keeps :
      (normalized : NormalizedSpec)
      → Keeps (find_branches store compute_key cas text le_locale normalized)
  unfolding find_branches
  find-Keeps normalized t = elim (Result-cases (check_mode normalized.mode)) [
    | inr (e, p) ↦ rw p refl
    | inl (u, p) ↦
        elim (Result-cases
          (need (store.get_branch t.0 normalized.source) source_branch_not_found)) [
            | inr (e, q) ↦ rw p (rw q refl)
            | inl (source, q) ↦
                elim (Result-cases
                  (need (store.get_branch t.0 normalized.target) target_branch_not_found)) [
                    | inr (e, r) ↦ rw p (rw q (rw r refl))
                    | inl (target, r) ↦ elim (Result-cases (same_realm source target)) [
                      | inr (e, x) ↦ rw p (rw q (rw r (rw x refl)))
                      | inl (v, x) ↦
                          elim (Result-cases (
                            need (truthy (store.get_branch_root t.0 source.branch_id))
                              source_has_no_root)) [
                                | inr (e, y) ↦ rw p (rw q (rw r (rw x (rw y refl))))
                                | inl (root, y) ↦ rw p (rw q (rw r (rw x (rw y refl))))
                              ]
                    ]
                  ]
          ]
  ]

  -- Only the root of the branch changes.
  abbrev Frames : {A : Type 0} → Text → Transfer store compute_key cas text le_locale A → Type 0
  Frames branch_id m =
      (t : W) (other : Text)
      → same_key branch_id other ≡ false
      → store.get_branch_root (m t).1.0 other ≡ store.get_branch_root t.0 other

  set-frames :
      (s : store.State) (id other : Text) (key : Key)
      → same_key id other ≡ false
      → store.get_branch_root (store.set_branch_root s id key) other ≡ store.get_branch_root s other
  set-frames s id other key apart = store.get-set_root s id other key ∙ rw apart refl

  commit-Frames :
      (id : Text) (old new : Key)
      → Frames id (commit store compute_key cas text le_locale id old new)
  unfolding commit set_root
  commit-Frames id old new t other apart = elim (Bool-cases (same_key new old)) [
    | inl same ↦ rw same refl
    | inr changed ↦ rw changed (set-frames t.0 id other new apart)
  ]

  pub target-Frames :
      (id : Text) → Frames id (target_root_of store compute_key cas text le_locale id)
  unfolding target_root_of on_world set_root
  target-Frames id t other apart = elim (Option-cases (truthy (store.get_branch_root t.0 id))) [
    | inr (root, there) ↦ rw there refl
    | inl bare ↦
        let made = ensure_empty_root compute_key cas t.1 in
        elim (Result-cases made.0) [
          | inr (e, p) ↦ rw bare (rw p refl)
          | inl (root, p) ↦ elim (Result-cases (report compute_key cas root made.1).0) [
            | inl (u, q) ↦ rw bare (rw p (rw q (set-frames t.0 id other root apart)))
            | inr (e, q) ↦ rw bare (rw p (rw q (set-frames t.0 id other root apart)))
          ]
        ]
  ]

  module _ (normalized : NormalizedSpec) (id : Text) (source target : Key) where
    abbrev into : Transfer store compute_key cas text le_locale TransferResult
    into = transfer_into store compute_key cas text le_locale normalized id source target

    pub into-Frames : Frames id into
    unfolding transfer_into
    into-Frames t other apart =
        let resolving =
          resolve_entries store compute_key cas text le_locale normalized.mode source target
            (object_entries normalized.mapping) t in
        let kept =
          resolve-Keeps normalized.mode source target (object_entries normalized.mapping) t in
        elim (Result-cases resolving.0) [
          | inr (e, p) ↦ rw p (ap (λ (s : store.State). store.get_branch_root s other) kept)
          | inl (entries, p) ↦
              let applying =
                apply_entries store compute_key cas text le_locale target entries resolving.1 in
              let same = apply-Keeps target entries resolving.1 in
              elim (Result-cases applying.0) [
                | inr (e, q) ↦
                    rw p
                      (rw q (ap (λ (s : store.State). store.get_branch_root s other) (same ∙ kept)))
                | inl (root, q) ↦
                    let committing =
                      commit store compute_key cas text le_locale id target root applying.1 in
                    let framed =
                      commit-Frames id target root applying.1 other apart
                      ∙ ap (λ (s : store.State). store.get_branch_root s other) (same ∙ kept) in
                    elim (Result-cases committing.0) [
                      | inl (u, r) ↦ rw p (rw q (rw r framed))
                      | inr (e, r) ↦ rw p (rw q (rw r framed))
                    ]
              ]
        ]

    commit-ok :
        (t : W) (root : Key)
        → (commit store compute_key cas text le_locale id target root t).0 ≡ ok tt
    unfolding commit set_root
    commit-ok t root = elim (Bool-cases (same_key root target)) [
      | inl same ↦ rw same refl
      | inr changed ↦ rw changed refl
    ]

    pub into-eq-err : (t : W) (thrown : DriveError) → (into t).0 ≡ err thrown → (into t).1.0 ≡ t.0
    unfolding transfer_into
    into-eq-err t thrown h =
        let resolving =
          resolve_entries store compute_key cas text le_locale normalized.mode source target
            (object_entries normalized.mapping) t in
        let kept =
          resolve-Keeps normalized.mode source target (object_entries normalized.mapping) t in
        elim (Result-cases resolving.0) [
          | inr (e, p) ↦ rw p kept
          | inl (entries, p) ↦
              let applying =
                apply_entries store compute_key cas text le_locale target entries resolving.1 in
              let same = apply-Keeps target entries resolving.1 in
              elim (Result-cases applying.0) [
                | inr (e, q) ↦ rw p (rw q (same ∙ kept))
                | inl (root, q) ↦ absurd (
                    let x : ok (record { applied = length entries; target_branch_id = id })
                        ≡ err thrown =
                      rw (commit-ok applying.1 root) at (rw q at (rw p at h)) in
                    cc)
              ]
        ]
