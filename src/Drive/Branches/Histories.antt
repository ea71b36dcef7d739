-- ===== src/Drive/Branches/Histories.antt =====
-- What holds of the store after every history of changes.
pub mod Rooted
mod Examples
use casfa.Base.{
  ℕ, ◌≡◌, refl, sym, ap, ◌∙◌, List, [], ◌∷◌, Bool, false, Option, none, some, All, arith,
  if◌then◌else◌, Bool-cases, Option-cases, inl, inr,
}
use casfa.Core.Text.{Text}
use casfa.Storage.{Key, same_key, same_key_iff, same_key_self}
use casfa.Maps.{map_get, map_set}
use casfa.Maps.Laws.{get-set, get-set_other, get-delete_other}
use casfa.Delegates.MemoryStore.Index.{some-injective}
use casfa.Drive.Branches.{Branch, truthy}
use casfa.Drive.Branches.Memory.{
  MemoryBranches, get_branch, get_realm_root, get_realm_root_record, forget_realm, insert_branch,
  set_branch_root, set_realm_root, remove_branch, purge_expired_branches, with_root_branch,
  ensure_realm_root, keep_or_set,
}
use casfa.Drive.Branches.Memory.Purge.{purge_lem}
use casfa.Drive.Branches.Memory.Laws.{truthy-eq-some}
use casfa.Drive.Branches.Memory.Realms.{
  HasRealms, insert-HasRealms, set_root-HasRealms, remove-HasRealms, purge-HasRealms,
  ensure-HasRealms,
}

-- The calls that change the store.
pub data Change : Type 0 where
  ensures : (realm : Text) → (empty_root : Key) → (uuid : Text) → Change
  inserts : Branch → Change
  sets sets_realm : Text → Key → Change
  removes : Text → Change
  purges : ℕ → Change

unfoldable pub apply : MemoryBranches → Change → MemoryBranches
unfolding ensure_realm_root insert_branch set_branch_root set_realm_root remove_branch
    purge_expired_branches
apply s (ensures realm empty_root uuid) = ensure_realm_root s realm empty_root uuid
apply s (inserts b) = insert_branch s b
apply s (sets id key) = set_branch_root s id key
apply s (sets_realm realm key) = (set_realm_root s realm key).1
apply s (removes id) = remove_branch s id
apply s (purges before) = (purge_expired_branches s before).1

unfoldable pub run : MemoryBranches → List Change → MemoryBranches
unfolding apply
run s [] = s
run s (c ∷ cs) = run (apply s c) cs

-- The ids that a change brings are new.
abbrev pub IsFresh : MemoryBranches → Change → Type 0
IsFresh s (ensures realm empty_root uuid) = get_branch s uuid ≡ none
IsFresh s (inserts b) = get_branch s b.branch_id ≡ none
IsFresh s (sets id key) = Unit {0}
IsFresh s (sets_realm realm key) = Unit {0}
IsFresh s (removes id) = Unit {0}
IsFresh s (purges before) = Unit {0}

abbrev pub AllFresh : MemoryBranches → List Change → Type 0
AllFresh s [] = Unit {0}
AllFresh s (c ∷ cs) = IsFresh s c × AllFresh (apply s c) cs

set_realm-HasRealms :
    (s : MemoryBranches) (realm : Text) (key : Key)
    → HasRealms s
    → HasRealms (set_realm_root s realm key).1
unfolding set_realm_root set_branch_root
set_realm-HasRealms s realm key h = elim (Option-cases (get_realm_root_record s realm)) [
  | inl missing ↦ rw missing h
  | inr (id, there) ↦ rw there (set_root-HasRealms s id key h)
]

pub apply-HasRealms :
    (s : MemoryBranches) (c : Change) → HasRealms s → IsFresh s c → HasRealms (apply s c)
unfolding apply
apply-HasRealms s (ensures realm empty_root uuid) h new =
    ensure-HasRealms s realm empty_root uuid h new
apply-HasRealms s (inserts b) h new = insert-HasRealms s b h new
apply-HasRealms s (sets id key) h new = set_root-HasRealms s id key h
apply-HasRealms s (sets_realm realm key) h new = set_realm-HasRealms s realm key h
apply-HasRealms s (removes id) h new = remove-HasRealms s id h
apply-HasRealms s (purges before) h new = purge-HasRealms s before h

-- After every history of changes with new ids, each realm that the store knows has a root branch of its own,
-- which is stored, is of the realm and has no parent.
pub run-HasRealms :
    (s : MemoryBranches) (cs : List Change) → HasRealms s → AllFresh s cs → HasRealms (run s cs)
unfolding run
run-HasRealms s [] h new = h
run-HasRealms s (c ∷ cs) h new = run-HasRealms (apply s c) cs (apply-HasRealms s c h new.0) new.1
