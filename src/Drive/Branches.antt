-- ===== src/Drive/Branches.antt =====
-- cells/drive/backend/types/branch.ts and db/branch-store.ts: the branches of a realm and their roots.
pub mod Memory
pub mod Histories
use casfa.Base.{ℕ, [], ◌∷◌, List, Bool, true, false, Option, none, some, ◌≡◌, if◌then◌else◌}
use casfa.Core.Text.{Text}
use casfa.Storage.{Key, same_key}

pub record AccessVerification : Type 0 where
  pub value : Text
  pub expires_at : ℕ

pub record Branch : Type 0 where
  pub branch_id : Text
  pub realm_id : Text
  pub parent_id : Option Text
  pub expires_at : ℕ
  pub access_verification : Option AccessVerification

-- The root that a store has for the branch with this id, if there is an id.
abbrev pub root_of : (Text → Option Key) → Option Text → Option Key
root_of root none = none
root_of root (some branch_id) = root branch_id

abbrev pub or_empty : Option Key → Key → Key
or_empty none empty_root = empty_root
or_empty (some root) empty_root = root

-- The operations on branches and their roots, with the laws that the services rely on.
pub record BranchStore : Type 1 where
  pub State : Type 0
  pub IsValid : State → Type 0
  pub get_branch : State → Text → Option Branch
  pub get_branch_root : State → Text → Option Key
  pub set_branch_root : State → Text → Key → State
  pub get_realm_root : State → Text → Option Key
  pub get_realm_root_record : State → Text → Option Text
  pub ensure_realm_root : State → Text → Key → Text → State
  pub list_branches : State → Text → List Branch
  pub insert_branch : State → Branch → State
  pub remove_branch : State → Text → State
  pub branch-insert :
      (s : State) (b : Branch) (id : Text)
      → get_branch (insert_branch s b) id
        ≡ (if same_key b.branch_id id then some b else get_branch s id)
  pub root-insert :
      (s : State) (b : Branch) (id : Text)
      → get_branch_root (insert_branch s b) id ≡ get_branch_root s id
  pub branch-remove :
      (s : State) (id other : Text)
      → get_branch (remove_branch s id) other
        ≡ (if same_key id other then none else get_branch s other)
  pub get-set_root :
      (s : State) (id other : Text) (key : Key)
      → get_branch_root (set_branch_root s id key) other
        ≡ (if same_key id other then some key else get_branch_root s other)
  pub branch-set_root :
      (s : State) (id other : Text) (key : Key)
      → get_branch (set_branch_root s id key) other ≡ get_branch s other
  pub realm_root :
      (s : State) (realm : Text)
      → get_realm_root s realm ≡ root_of (get_branch_root s) (get_realm_root_record s realm)
  pub ensure-root :
      (s : State) (realm : Text) (empty_root : Key) (c : ℕ) (uuid : Text)
      → IsValid s
      → get_branch s (c ∷ uuid) ≡ none
      → get_realm_root (ensure_realm_root s realm empty_root (c ∷ uuid)) realm
        ≡ some (or_empty (get_realm_root s realm) empty_root)
  pub record-set_root :
      (s : State) (id realm : Text) (key : Key)
      → get_realm_root_record (set_branch_root s id key) realm ≡ get_realm_root_record s realm

-- `if (!id)`: null, undefined and the empty string.
abbrev pub truthy : Option Text → Option Text
truthy none = none
truthy (some []) = none
truthy (some (c ∷ s)) = some (c ∷ s)
