-- ===== src/Drive/Branches/Memory/Purge.antt =====
-- What purgeExpiredBranches leaves.
use casfa.Base.{
  ℕ, ◌≡◌, refl, ◌∙◌, List, [], ◌∷◌, Bool, false, Option, none, some, if◌then◌else◌, Bool-cases, inl,
  inr,
}
use casfa.Core.Text.{Text}
use casfa.Storage.{Key, same_key, same_key_iff}
use casfa.Maps.{map_get, IsMap}
use casfa.Maps.Laws.{get-delete}
use casfa.Drive.Branches.{Branch}
use casfa.Drive.Branches.Memory.{
  MemoryBranches, is_expired, purge_loop, purge_expired_branches, get_branch, get_branch_root,
}

abbrev pub unless_expired : ℕ → Option Branch → Option Branch
unless_expired before none = none
unless_expired before (some b) = if is_expired before b then none else some b

abbrev pub is_gone : ℕ → Option Branch → Bool
is_gone before none = false
is_gone before (some b) = is_expired before b

module _ (before : ℕ) (roots : List (Text × Key)) where
  loop-branches :
      (branches : List (Text × Branch)) (id : Text)
      → IsMap branches
      → map_get (purge_loop before branches roots).1.0 id
        ≡ unless_expired before (map_get branches id)
  unfolding map_get purge_loop
  loop-branches [] id h = refl
  loop-branches ((k, b) ∷ branches) id (once, h) = elim (Bool-cases (is_expired before b)) [
    | inl old ↦ rw old (
        loop-branches branches id h ∙ (elim (Bool-cases (same_key k id)) [
          | inl same ↦ rw same (rw (← (same_key_iff k id).0 same) (rw once (rw old refl)))
          | inr apart ↦ rw apart refl
        ]))
    | inr kept ↦ rw kept (elim (Bool-cases (same_key k id)) [
      | inl same ↦ rw same (rw kept refl)
      | inr apart ↦ rw apart (loop-branches branches id h)
    ])
  ]

  loop-IsMap :
      (branches : List (Text × Branch))
      → IsMap branches
      → IsMap (purge_loop before branches roots).1.0
  unfolding purge_loop
  loop-IsMap [] h = tt
  loop-IsMap ((k, b) ∷ branches) (once, h) = elim (Bool-cases (is_expired before b)) [
    | inl old ↦ rw old (loop-IsMap branches h)
    | inr kept ↦ rw kept (loop-branches branches k h ∙ rw once refl, loop-IsMap branches h)
  ]

  loop-roots :
      (branches : List (Text × Branch)) (id : Text)
      → IsMap branches
      → map_get (purge_loop before branches roots).1.1 id
        ≡ (if is_gone before (map_get branches id) then none else map_get roots id)
  unfolding map_get purge_loop
  loop-roots [] id h = refl
  loop-roots ((k, b) ∷ branches) id (once, h) = elim (Bool-cases (is_expired before b)) [
    | inl old ↦ rw old (
        get-delete (purge_loop before branches roots).1.1 k id
        ∙ (elim (Bool-cases (same_key k id)) [
          | inl same ↦ rw same (rw old refl)
          | inr apart ↦ rw apart (loop-roots branches id h)
        ]))
    | inr kept ↦ rw kept (elim (Bool-cases (same_key k id)) [
      | inl same ↦
          rw same
            (loop-roots branches id h ∙ rw (← (same_key_iff k id).0 same) (rw once (rw kept refl)))
      | inr apart ↦ rw apart (loop-roots branches id h)
    ])
  ]

module _ (s : MemoryBranches) (before : ℕ) (id : Text) where
  -- After a purge a branch is stored exactly if it was and is not an expired child, and its root went with
  -- it.
  pub purge_lem :
      IsMap s.branches
      → (get_branch (purge_expired_branches s before).1 id
          ≡ unless_expired before (get_branch s id))
        × (get_branch_root (purge_expired_branches s before).1 id
            ≡ (if is_gone before (get_branch s id) then none else get_branch_root s id))
  unfolding get_branch get_branch_root purge_expired_branches
  purge_lem h =
      (loop-branches before s.roots s.branches id h, loop-roots before s.roots s.branches id h)

pub purge-IsMap :
    (s : MemoryBranches) (before : ℕ)
    → IsMap s.branches
    → IsMap (purge_expired_branches s before).1.branches
unfolding purge_expired_branches
purge-IsMap s before h = loop-IsMap before s.roots s.branches h
