-- ===== src/Drive/Transfer/Outcome.antt =====
-- What a transfer leaves, whether it succeeds or fails.
use casfa.Base.{
  Bool, false, Option, none, some, Bytes, ok, err, ◌≡◌, refl, ap, ◌∙◌, Result-cases, Option-cases,
  inl, inr, ◌⊎◌,
}
use mathlib.Core.Path.{subst}
use casfa.Core.Text.{Text, TextDecoder}
use casfa.Storage.{Key, same_key}
use casfa.Cas.Facade.{CasFacade}
use casfa.Drive.{DriveError, source_branch_not_found, target_branch_not_found, source_has_no_root}
use casfa.Drive.Branches.{truthy, Branch, BranchStore}
use casfa.Drive.Mutations.{need}
use casfa.Drive.World.{World, ensure_empty_root, report}
use casfa.Drive.Transfer.Spec.{TransferSpec, NormalizedSpec, validate_transfer_spec}
use casfa.Drive.Transfer.{
  TransferResult, Transfer, TransferWorld, target_root_of, find_branches, execute_transfer,
  check_mode, same_realm, on_world, set_root,
}
use casfa.Drive.Transfer.Frame.{find-Keeps, target-Frames, into-Frames, into-eq-err}

need-eq-ok :
    (o : Option Branch) (thrown : DriveError) (b : Branch) → need o thrown ≡ ok b → o ≡ some b
need-eq-ok none thrown b e = cc
need-eq-ok (some x) thrown b e = let is : x ≡ b = cc in ap some is

module _ (store : BranchStore) (compute_key : Bytes → Bytes) (cas : CasFacade compute_key)
    (text : TextDecoder) (le_locale : Text → Text → Bool) where
  abbrev W : Type 0
  W = TransferWorld store compute_key cas text le_locale

  find-eq-ok :
      (normalized : NormalizedSpec) (t : W) (found : Branch × Key)
      → (find_branches store compute_key cas text le_locale normalized t).0 ≡ ok found
      → store.get_branch t.0 normalized.target ≡ some found.0
  unfolding find_branches
  find-eq-ok normalized t found h = elim (Result-cases (check_mode normalized.mode)) [
    | inr (e, p) ↦ absurd (let x : err e ≡ ok found = rw p at h in cc)
    | inl (u, p) ↦
        elim (Result-cases
          (need (store.get_branch t.0 normalized.source) source_branch_not_found)) [
            | inr (e, q) ↦ absurd (let x : err e ≡ ok found = rw q at (rw p at h) in cc)
            | inl (source, q) ↦
                elim (Result-cases
                  (need (store.get_branch t.0 normalized.target) target_branch_not_found)) [
                    | inr (e, r) ↦
                        absurd (let x : err e ≡ ok found = rw r at (rw q at (rw p at h)) in cc)
                    | inl (target, r) ↦ elim (Result-cases (same_realm source target)) [
                      | inr (e, x) ↦
                          absurd (
                            let z : err e ≡ ok found = rw x at (rw r at (rw q at (rw p at h))) in
                            cc)
                      | inl (v, x) ↦
                          elim (Result-cases (
                            need (truthy (store.get_branch_root t.0 source.branch_id))
                              source_has_no_root)) [
                                | inr (e, y) ↦ absurd (
                                    let z : err e ≡ ok found =
                                      rw y at (rw x at (rw r at (rw q at (rw p at h)))) in
                                    cc)
                                | inl (root, y) ↦
                                    let z : ok (target, root) ≡ ok found =
                                      rw y at (rw x at (rw r at (rw q at (rw p at h)))) in
                                    let is : (target, root) ≡ found = cc in
                                    need-eq-ok _ _ target r ∙ ap (λ (f : Branch × Key). some f.0) is
                              ]
                    ]
                  ]
          ]
  ]

  abbrev run : TransferSpec → Transfer store compute_key cas text le_locale TransferResult
  run = execute_transfer store compute_key cas text le_locale

  -- A transfer, whether it succeeds or fails, changes the root of no branch but that which the
  -- specification names as its target.
  pub execute-frames :
      (spec : TransferSpec) (t : W) (other : Text)
      → ((normalized : NormalizedSpec) (target : Branch)
          → validate_transfer_spec spec ≡ ok normalized
          → store.get_branch t.0 normalized.target ≡ some target
          → same_key target.branch_id other ≡ false)
      → store.get_branch_root (run spec t).1.0 other ≡ store.get_branch_root t.0 other
  unfolding execute_transfer
  execute-frames spec t other apart = elim (Result-cases (validate_transfer_spec spec)) [
    | inr (e, p) ↦ rw p refl
    | inl (normalized, p) ↦
        let finding = find_branches store compute_key cas text le_locale normalized t in
        let kept =
          ap (λ (s : store.State). store.get_branch_root s other)
            (find-Keeps store compute_key cas text le_locale normalized t) in
        elim (Result-cases finding.0) [
          | inr (e, q) ↦ rw p (rw q kept)
          | inl (found, q) ↦
              let id = found.0.branch_id in
              let away = apart normalized found.0 p (find-eq-ok normalized t found q) in
              let rooting = target_root_of store compute_key cas text le_locale id finding.1 in
              let rooted =
                target-Frames store compute_key cas text le_locale id finding.1 other away in
              elim (Result-cases rooting.0) [
                | inr (e, r) ↦ rw p (rw q (rw r (rooted ∙ kept)))
                | inl (root, r) ↦ rw p (
                    rw q (
                      rw r (
                        into-Frames store compute_key cas text le_locale normalized id found.1 root
                          rooting.1 other away
                        ∙ (rooted ∙ kept))))
              ]
        ]
  ]

  -- The branch is left without a change, or it had no root and has the empty one now.
  IsRooted : store.State → Text → store.State → Type 0
  IsRooted before id after =
      (after ≡ before)
      ⊎ ((truthy (store.get_branch_root before id) ≡ none)
          × (world : World compute_key cas) × (root : Key) × ((ensure_empty_root compute_key cas
                world).0
              ≡ ok root)
          × (after ≡ store.set_branch_root before id root))

  target-IsRooted :
      (id : Text) (t : W)
      → IsRooted t.0 id (target_root_of store compute_key cas text le_locale id t).1.0
  unfolding target_root_of on_world set_root IsRooted
  target-IsRooted id t = elim (Option-cases (truthy (store.get_branch_root t.0 id))) [
    | inr (root, there) ↦ rw there (inl refl)
    | inl bare ↦
        let made = ensure_empty_root compute_key cas t.1 in
        elim (Result-cases made.0) [
          | inr (e, p) ↦ rw bare (rw p (inl refl))
          | inl (root, p) ↦ elim (Result-cases (report compute_key cas root made.1).0) [
            | inl (u, q) ↦ rw bare (rw p (rw q (inr (refl, t.1, root, p, refl))))
            | inr (e, q) ↦ rw bare (rw p (rw q (inr (refl, t.1, root, p, refl))))
          ]
        ]
  ]

  -- A transfer that fails leaves the branches and their roots as they are, but that its target, if that is
  -- stored without a root, may have got the empty root.
  pub execute-eq-err :
      (spec : TransferSpec) (t : W) (thrown : DriveError)
      → (run spec t).0 ≡ err thrown
      → ((run spec t).1.0 ≡ t.0)
        ⊎ ((normalized : NormalizedSpec) × (target : Branch) × (validate_transfer_spec spec
              ≡ ok normalized)
            × (store.get_branch t.0 normalized.target ≡ some target)
            × (truthy (store.get_branch_root t.0 target.branch_id) ≡ none)
            × (world : World compute_key cas) × (root : Key) × ((ensure_empty_root compute_key cas
                  world).0
                ≡ ok root)
            × ((run spec t).1.0 ≡ store.set_branch_root t.0 target.branch_id root))
  unfolding execute_transfer IsRooted
  execute-eq-err spec t thrown h = elim (Result-cases (validate_transfer_spec spec)) [
    | inr (e, p) ↦ rw p (inl refl)
    | inl (normalized, p) ↦
        let finding = find_branches store compute_key cas text le_locale normalized t in
        let kept = find-Keeps store compute_key cas text le_locale normalized t in
        elim (Result-cases finding.0) [
          | inr (e, q) ↦ rw p (rw q (inl kept))
          | inl (found, q) ↦
              let id = found.0.branch_id in
              let there = find-eq-ok normalized t found q in
              let rooting = target_root_of store compute_key cas text le_locale id finding.1 in
              let rooted : IsRooted t.0 id rooting.1.0 =
                subst (λ (x : store.State). IsRooted x id rooting.1.0) kept
                  (target-IsRooted id finding.1) in
              let after : (run spec t).1.0 ≡ rooting.1.0 = elim (Result-cases rooting.0) [
                | inr (e, r) ↦ rw p (rw q (rw r refl))
                | inl (root, r) ↦ rw p (
                    rw q (
                      rw r (
                        into-eq-err store compute_key cas text le_locale normalized id found.1 root
                          rooting.1 thrown (rw r at (rw q at (rw p at h))))))
              ] in
              elim rooted [
                | inl same ↦ inl (after ∙ same)
                | inr (bare, world, root, made, set) ↦
                    inr (normalized, found.0, p, there, bare, world, root, made, after ∙ set)
              ]
        ]
  ]
