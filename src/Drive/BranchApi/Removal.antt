-- ===== src/Drive/BranchApi/Removal.antt =====
-- Which branches the requests may remove.
use casfa.Base.{
  Bool, true, some, [], ◌∷◌, Bytes, ◌≡◌, refl, ◌⊎◌, inl, inr, Bool-cases, Option-cases,
}
use casfa.Core.Text.{Text, TextDecoder}
use casfa.Encoding.Cb32.{codes}
use casfa.Storage.{same_key, same_key_iff}
use casfa.Cas.Facade.{CasFacade}
use casfa.Drive.Branches.{Branch, BranchStore}
use casfa.Drive.BranchApi.Requests.{
  AuthContext, user, delegate, worker, realm_of, has_branch_manage, Reply, revoked, closed,
}
use casfa.Drive.BranchApi.{revoke, close, managed, close_managed, close_own, remove_found}

module _ (store : BranchStore) (compute_key : Bytes → Bytes) (cas : CasFacade compute_key)
    (text : TextDecoder) (le_locale : Text → Text → Bool) where
  -- The branch is of the realm of the caller, who may manage branches.
  pub record IsManaged (s : store.State) (auth : AuthContext) (id : Text) : Type 0 where
    pub branch : Branch
    pub stored : store.get_branch s id ≡ some branch
    pub realm_eq : branch.realm_id ≡ realm_of auth
    pub may : has_branch_manage auth ≡ true

  managed-removes :
      (done : Text → Reply) (auth : AuthContext) (id : Text) (s : store.State)
      → has_branch_manage auth ≡ true
      → ((managed store compute_key cas text le_locale done auth id s).1 ≡ s)
        ⊎ (IsManaged s auth id
            × ((managed store compute_key cas text le_locale done auth id s).1
                ≡ store.remove_branch s id))
  managed-removes done auth [] s may = inl refl
  managed-removes done auth (c ∷ id) s may = elim (Option-cases (store.get_branch s (c ∷ id))) [
    | inl gone ↦ inl (rw gone refl)
    | inr (b, there) ↦ elim (Bool-cases (same_key b.realm_id (realm_of auth))) [
      | inr other ↦ inl (rw there (rw other refl))
      | inl own ↦ inr (
        record {
          branch = b;
          stored = there;
          realm_eq = (same_key_iff b.realm_id (realm_of auth)).0 own;
          may = may;
        },
        rw there (rw own refl),
      )
    ]
  ]

  -- A request to revoke a branch leaves the store as it is, or removes the branch, which is then of the realm
  -- of the caller, who may manage branches.
  pub revoke-IsManaged :
      (auth : AuthContext) (id : Text) (s : store.State)
      → ((revoke store compute_key cas text le_locale (some auth) id s).1 ≡ s)
        ⊎ (IsManaged s auth id
            × ((revoke store compute_key cas text le_locale (some auth) id s).1
                ≡ store.remove_branch s id))
  unfolding revoke
  revoke-IsManaged auth id s = elim (Bool-cases (has_branch_manage auth)) [
    | inl may ↦ rw may (managed-removes revoked auth id s may)
    | inr no_right ↦ inl (rw no_right refl)
  ]

  found-removes :
      (id : Text) (s : store.State)
      → (remove_found store compute_key cas text le_locale id (store.get_branch s id) s ≡ s)
        ⊎ (remove_found store compute_key cas text le_locale id (store.get_branch s id) s
            ≡ store.remove_branch s id)
  found-removes id s = elim (Option-cases (store.get_branch s id)) [
    | inl gone ↦ inl (rw gone refl)
    | inr (b, there) ↦ inr (rw there refl)
  ]

  own-removes :
      (own id : Text) (s : store.State)
      → ((close_own store compute_key cas text le_locale own id s).1 ≡ s)
        ⊎ ((close_own store compute_key cas text le_locale own id s).1 ≡ store.remove_branch s own)
  own-removes own id s = elim (Bool-cases (same_key own id)) [
    | inl same ↦
        let is : own ≡ id = (same_key_iff own id).0 same in
        elim (Bool-cases (same_key id (codes "me"))) [
          | inl me ↦ rw (same, me) (found-removes own s)
          | inr named ↦ rw (same, named) (rw is (found-removes id s))
        ]
    | inr apart ↦ elim (Bool-cases (same_key id (codes "me"))) [
      | inl me ↦ rw (apart, me) (found-removes own s)
      | inr named ↦ inl (rw (apart, named) refl)
    ]
  ]

  close_managed-removes :
      (auth : AuthContext) (id : Text) (s : store.State)
      → ((close_managed store compute_key cas text le_locale auth id s).1 ≡ s)
        ⊎ (IsManaged s auth id
            × ((close_managed store compute_key cas text le_locale auth id s).1
                ≡ store.remove_branch s id))
  close_managed-removes auth id s = elim (Bool-cases (has_branch_manage auth)) [
    | inl may ↦ rw may (managed-removes closed auth id s may)
    | inr no_right ↦ inl (rw no_right refl)
  ]

  -- What a caller may close: a worker its own branch, and others a branch of their realm that they manage.
  abbrev pub MayClose : store.State → AuthContext → Text → Type 0
  MayClose s (worker realm own readwrite) id = own ≡ id
  MayClose s (user user_id) id = IsManaged s (user user_id) id
  MayClose s (delegate realm_id delegate_id client_id permissions) id =
      IsManaged s (delegate realm_id delegate_id client_id permissions) id

  weaken_removal :
      (auth : AuthContext) (id : Text) (s : store.State) (t : store.State)
      → (t ≡ s) ⊎ (IsManaged s auth id × (t ≡ store.remove_branch s id))
      → (t ≡ s)
        ⊎ ((removed : Text) × IsManaged s auth removed × (t ≡ store.remove_branch s removed))
  weaken_removal auth id s t (inl same) = inl same
  weaken_removal auth id s t (inr (m, e)) = inr (id, m, e)

  -- A request to close a branch leaves the store as it is, or removes one branch, which the caller may
  -- close: a worker its own, and a user or a delegate one of their realm that they may manage.
  pub close-MayClose :
      (auth : AuthContext) (id : Text) (s : store.State)
      → ((close store compute_key cas text le_locale (some auth) id s).1 ≡ s)
        ⊎ ((removed : Text) × MayClose s auth removed
            × ((close store compute_key cas text le_locale (some auth) id s).1
                ≡ store.remove_branch s removed))
  unfolding close
  close-MayClose auth [] s = inl refl
  close-MayClose (worker realm own readwrite) (c ∷ id) s = elim (own-removes own (c ∷ id) s) [
    | inl same ↦ inl same
    | inr e ↦ inr (own, refl, e)
  ]
  close-MayClose (user user_id) (c ∷ id) s =
      weaken_removal (user user_id) (c ∷ id) s _ (close_managed-removes (user user_id) (c ∷ id) s)
  close-MayClose (delegate realm_id delegate_id client_id permissions) (c ∷ id) s =
      weaken_removal (delegate realm_id delegate_id client_id permissions) (c ∷ id) s _
        (close_managed-removes (delegate realm_id delegate_id client_id permissions) (c ∷ id) s)
