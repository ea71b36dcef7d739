-- ===== src/Drive/CurrentRoot.antt =====
-- getCurrentRoot and getEffectiveDelegateId of cells/drive/backend/services/root-resolver.ts: the root that a
-- caller reads, and the branch whose root a change of the caller's files sets.
mod Examples
use casfa.Base.{
  Option, none, some, Bool, false, Result, ok, err, ◌≡◌, refl, sym, ap, ◌∙◌, if◌then◌else◌,
  Option-cases, inl, inr,
}
use casfa.Core.Text.{Text}
use casfa.Storage.{Key, same_key}
use casfa.Drive.{DriveError, realm_not_initialized}
use casfa.Drive.Branches.{BranchStore, root_of}
use casfa.Drive.BranchApi.Requests.{AuthContext, user, delegate, worker}

abbrev pub record_or_error : Option Text → Result DriveError Text
record_or_error none = err realm_not_initialized
record_or_error (some branch_id) = ok branch_id

module _ (store : BranchStore) where
  unfoldable pub get_current_root : AuthContext → store.State → Option Key
  get_current_root (worker realm_id branch_id readwrite) s = store.get_branch_root s branch_id
  get_current_root (user user_id) s = store.get_realm_root s user_id
  get_current_root (delegate realm_id delegate_id client_id permissions) s =
      store.get_realm_root s realm_id

  unfoldable pub get_effective_delegate_id : AuthContext → store.State → Result DriveError Text
  get_effective_delegate_id (worker realm_id branch_id readwrite) s = ok branch_id
  get_effective_delegate_id (user user_id) s =
      record_or_error (store.get_realm_root_record s user_id)
  get_effective_delegate_id (delegate realm_id delegate_id client_id permissions) s =
      record_or_error (store.get_realm_root_record s realm_id)

  realm-set :
      (realm id j : Text) (key : Key) (s : store.State)
      → record_or_error (store.get_realm_root_record s realm) ≡ ok j
      → store.get_realm_root (store.set_branch_root s id key) realm
        ≡ (if same_key id j then some key else store.get_realm_root s realm)
  realm-set realm id j key s e = elim (Option-cases (store.get_realm_root_record s realm)) [
    | inl missing ↦ absurd (let x : err realm_not_initialized ≡ ok j = rw missing at e in cc)
    | inr (found, there) ↦
        let x : ok found ≡ ok j = rw there at e in
        let is : found ≡ j = cc in
        store.realm_root (store.set_branch_root s id key) realm
        ∙ rw (store.record-set_root s id realm key) (
            rw there (
              rw is (
                store.get-set_root s id j key
                ∙ rw (store.realm_root s realm) (rw there (rw is refl)))))
  ]

  -- What a caller reads as its root after the root of a branch was set is that root, if the branch is the one
  -- that the caller's own changes go to, and what it read before, if not.
  pub current_root-set :
      (auth : AuthContext) (id j : Text) (key : Key) (s : store.State)
      → get_effective_delegate_id auth s ≡ ok j
      → get_current_root auth (store.set_branch_root s id key)
        ≡ (if same_key id j then some key else get_current_root auth s)
  unfolding get_current_root get_effective_delegate_id
  current_root-set (worker realm_id branch_id readwrite) id j key s e =
      let is : branch_id ≡ j = cc in rw is (store.get-set_root s id j key)
  current_root-set (user user_id) id j key s e = realm-set user_id id j key s e
  current_root-set (delegate realm_id delegate_id client_id permissions) id j key s e =
      realm-set realm_id id j key s e
