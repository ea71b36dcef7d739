-- ===== src/Drive/BranchApi/Transfers.antt =====
-- Which branches a request to transfer paths may change.
use casfa.Base.{
  Bool, false, some, Bytes, ok, ◌≡◌, refl, sym, ap, ◌∙◌, Bool-cases, Result-cases, inl, inr, arith,
}
use casfa.Core.Text.{Text, TextDecoder}
use casfa.Storage.{same_key, same_key_iff}
use casfa.Cas.Facade.{CasFacade}
use casfa.Drive.Paths.{trim, is_empty}
use casfa.Drive.Branches.{Branch, BranchStore}
use casfa.Drive.Transfer.Spec.{TransferSpec, NormalizedSpec, validate_transfer_spec}
use casfa.Drive.Transfer.{execute_transfer}
use casfa.Drive.Transfer.Outcome.{execute-frames}
use casfa.Drive.BranchApi.Requests.{worker}
use casfa.Drive.BranchApi.{ApiWorld, transfer_paths, spec_of}

-- The target of a valid specification is the one that it names, without the white space around it.
validate-target :
    (spec : TransferSpec) (named : Text) (n : NormalizedSpec)
    → spec.target ≡ some named
    → validate_transfer_spec spec ≡ ok n
    → n.target ≡ trim named
unfolding validate_transfer_spec
validate-target spec named n e h = ground arith

module _ (store : BranchStore) (compute_key : Bytes → Bytes) (cas : CasFacade compute_key)
    (text : TextDecoder) (le_locale : Text → Text → Bool) where
  abbrev World : Type 0
  World = ApiWorld store compute_key cas text le_locale

  -- No branch with this id is the one that is stored under the caller's.
  abbrev pub IsOther : World → Text → Text → Type 0
  IsOther t own other =
      (b : Branch) → store.get_branch t.0 own ≡ some b → same_key b.branch_id other ≡ false

  own-frames :
      (n : NormalizedSpec) (own : Text) (t : World) (other : Text)
      → n.target ≡ own
      → trim own ≡ own
      → IsOther t own other
      → store.get_branch_root
          (execute_transfer store compute_key cas text le_locale
            (spec_of store compute_key cas text le_locale n)
            t).1.0
          other
        ≡ store.get_branch_root t.0 other
  own-frames n own t other is whole away =
      execute-frames store compute_key cas text le_locale
        (spec_of store compute_key cas text le_locale n) t other
        (λ n' target valid there.
          let same : n'.target ≡ own =
            validate-target (spec_of store compute_key cas text le_locale n) n.target n' refl valid
            ∙ (ap trim is ∙ whole) in
          away target (rw same at there))

  -- A request of a worker to transfer paths changes the root of no branch but the worker's own, whatever it
  -- names as its source and its target and whether it succeeds or fails.
  pub worker_transfer-frames :
      (realm own : Text) (readwrite : Bool) (id : Text) (spec : TransferSpec) (t : World)
      (other : Text)
      → trim own ≡ own
      → IsOther t own other
      → store.get_branch_root
          (transfer_paths store compute_key cas text le_locale
            (some (worker realm own readwrite))
            id
            spec
            t).1.0
          other
        ≡ store.get_branch_root t.0 other
  unfolding transfer_paths
  worker_transfer-frames realm own readwrite id spec t other whole away =
      elim (Result-cases (validate_transfer_spec spec)) [
        | inr (e, bad) ↦ rw bad refl
        | inl (n, valid) ↦ elim (Bool-cases (is_empty id)) [
          | inl empty ↦ rw valid (rw empty refl)
          | inr named ↦ elim (Bool-cases (same_key n.target id)) [
            | inr apart ↦ rw valid (rw named (rw apart refl))
            | inl to_id ↦ elim (Bool-cases (same_key own id)) [
              | inr others ↦ rw valid (rw named (rw to_id (rw others refl)))
              | inl own_id ↦ elim (Bool-cases (same_key n.source own)) [
                | inr from_other ↦ rw valid (rw named (rw to_id (rw own_id (rw from_other refl))))
                | inl from_own ↦
                    let is : n.target ≡ own =
                      (same_key_iff n.target id).0 to_id ∙ sym ((same_key_iff own id).0 own_id) in
                    let kept = own-frames n own t other is whole away in
                    rw valid (
                      rw named (
                        rw to_id (
                          rw own_id (
                            rw from_own
                              (elim (Result-cases
                                (execute_transfer store compute_key cas text le_locale
                                  (spec_of store compute_key cas text le_locale n) t).0) [
                                    | inl (result, q) ↦ rw q kept
                                    | inr (e, q) ↦ rw q kept
                                  ])))))
              ]
            ]
          ]
        ]
      ]
