-- ===== src/Drive/BranchApi/Create.antt =====
-- What the creation of a branch of a branch leaves in the store.
use casfa.Base.{
  false, ℕ, Bool, true, Option, none, some, Bytes, ok, err, ◌≡◌, refl, ap, ◌∙◌, inl, inr,
  Bool-cases, Option-cases, Result-cases,
}
use casfa.Core.Text.{Text, TextDecoder}
use casfa.Storage.{Key, same_key, same_key_self}
use casfa.Cas.Facade.{CasFacade}
use casfa.Drive.Paths.{is_empty}
use casfa.Drive.Resolver.{resolve_path}
use casfa.Drive.Branches.{Branch, BranchStore}
use casfa.Drive.BranchApi.Requests.{
  AuthContext, Reply, ApiConfig, BranchDraws, throw, reply, refused, CreateBody, parent_of_body,
  mount_path_of, ttl_of,
}
use casfa.Drive.BranchApi.{
  ApiWorld, branch_to_create, insert_child, create_in_branch, is_worker_of, set_child_root,
  create_handler, create_with, create_at, check_transfers,
}

abbrev pub or_else {ℓ} : {A : Type ℓ} → Option A → Option A → Option A
or_else none other = other
or_else (some a) other = some a

module _ (store : BranchStore) (compute_key : Bytes → Bytes) (cas : CasFacade compute_key)
    (text : TextDecoder) (le_locale : Text → Text → Bool) (config : ApiConfig) where
  abbrev World : Type 0
  World = ApiWorld store compute_key cas text le_locale

  -- The branch is stored, with the node at the mount path as its root, if there is one.
  pub record IsInserted (draws : BranchDraws) (ttl : ℕ) (realm_id parent_id : Text) (root_key : Key)
      (mount_path : Text) (t t' : World) : Type 0 where
    pub child_root : Option Key
    pub resolved : resolve_path compute_key cas text t.1.0 root_key mount_path ≡ ok child_root
    pub stored :
        store.get_branch t'.0 draws.branch_uuid
        ≡ some (
            branch_to_create store compute_key cas text le_locale config draws ttl realm_id
              parent_id)
    pub rooted :
        store.get_branch_root t'.0 draws.branch_uuid
        ≡ or_else child_root (store.get_branch_root t.0 draws.branch_uuid)
    pub kept :
        (other : Text)
        → same_key draws.branch_uuid other ≡ false
        → store.get_branch t'.0 other ≡ store.get_branch t.0 other

  set-stored :
      (id : Text) (found : Option Key) (s : store.State) (other : Text)
      → store.get_branch
          (set_child_root store compute_key cas text le_locale config id found s)
          other
        ≡ store.get_branch s other
  set-stored id none s other = refl
  set-stored id (some key) s other = store.branch-set_root s id other key

  set-rooted :
      (id : Text) (found : Option Key) (s : store.State)
      → store.get_branch_root
          (set_child_root store compute_key cas text le_locale config id found s)
          id
        ≡ or_else found (store.get_branch_root s id)
  set-rooted id none s = refl
  set-rooted id (some key) s = store.get-set_root s id id key ∙ rw (same_key_self id) refl

  pub insert_child-IsInserted :
      (draws : BranchDraws) (ttl : ℕ) (realm_id parent_id : Text) (root_key : Key)
      (mount_path : Text) (t : World) (made : Reply)
      → (insert_child store compute_key cas text le_locale config draws ttl realm_id parent_id
          root_key mount_path t).0
        ≡ ok made
      → IsInserted draws ttl realm_id parent_id root_key mount_path t
          (insert_child store compute_key cas text le_locale config draws ttl realm_id parent_id
            root_key mount_path t).1
  unfolding insert_child
  insert_child-IsInserted draws ttl realm_id parent_id root_key mount_path t made h =
      elim (Result-cases (resolve_path compute_key cas text t.1.0 root_key mount_path)) [
        | inr (e, p) ↦ absurd (let x : err (throw e) ≡ ok made = rw p at h in cc)
        | inl (found, p) ↦ rw p (record {
          child_root = found;
          resolved = p;
          stored =
              set-stored draws.branch_uuid found _ draws.branch_uuid
              ∙ (store.branch-insert t.0 _ draws.branch_uuid
                  ∙ rw (same_key_self draws.branch_uuid) refl);
          rooted =
              set-rooted draws.branch_uuid found _
              ∙ ap (or_else found) (store.root-insert t.0 _ draws.branch_uuid);
          kept = λ other apart.
              set-stored draws.branch_uuid found _ other
              ∙ (store.branch-insert t.0 _ other ∙ rw apart refl);
        })
      ]

  -- The caller is a worker of the parent, which is there and has a root, and the new branch is one of its realm.
  pub record InBranch (auth : AuthContext) (draws : BranchDraws) (ttl : ℕ)
      (parent_id mount_path : Text) (t t' : World) : Type 0 where
    pub may : is_worker_of store compute_key cas text le_locale config auth parent_id ≡ true
    pub parent : Branch
    pub parent_stored : store.get_branch t.0 parent_id ≡ some parent
    pub root_key : Key
    pub parent_rooted : store.get_branch_root t.0 parent_id ≡ some root_key
    pub inserted : IsInserted draws ttl parent.realm_id parent_id root_key mount_path t t'

  create_in_branch-InBranch :
      (auth : AuthContext) (draws : BranchDraws) (ttl : ℕ) (parent_id mount_path : Text) (t : World)
      (made : Reply)
      → (create_in_branch store compute_key cas text le_locale config auth draws ttl parent_id
          mount_path t).0
        ≡ ok made
      → InBranch auth draws ttl parent_id mount_path t
          (create_in_branch store compute_key cas text le_locale config auth draws ttl parent_id
            mount_path t).1
  unfolding create_in_branch
  create_in_branch-InBranch auth draws ttl parent_id mount_path t made h =
      elim (Bool-cases (is_worker_of store compute_key cas text le_locale config auth parent_id)) [
        | inr other ↦ absurd (let x : err (reply (refused 403)) ≡ ok made = rw other at h in cc)
        | inl may ↦ elim (Option-cases (store.get_branch t.0 parent_id)) [
          | inl gone ↦
              absurd (let x : err (reply (refused 404)) ≡ ok made = rw gone at (rw may at h) in cc)
          | inr (parent, there) ↦ elim (Option-cases (store.get_branch_root t.0 parent_id)) [
            | inl bare ↦ absurd (
                let x : err (reply (refused 400)) ≡ ok made =
                  rw bare at (rw there at (rw may at h)) in
                cc)
            | inr (root_key, has) ↦ rw may (
                rw there (
                  rw has (record {
                    may = may;
                    parent = parent;
                    parent_stored = there;
                    root_key = root_key;
                    parent_rooted = has;
                    inserted =
                        insert_child-IsInserted draws ttl parent.realm_id parent_id root_key
                          mount_path t made (rw has at (rw there at (rw may at h)));
                  })))
          ]
        ]
      ]

  -- A creation that is granted named a mount path.
  pub mount-named :
      (auth : AuthContext) (draws : BranchDraws) (body : CreateBody) (t : World) (made : Reply)
      → (create_handler store compute_key cas text le_locale config
          (some auth)
          draws
          (some body)
          t).0
        ≡ ok made
      → (raw : Text) × (body.mount_path ≡ some raw)
  unfolding create_with
  mount-named auth draws body t made h = elim (Option-cases body.mount_path) [
    | inl missing ↦ absurd (let x : err (reply (refused 400)) ≡ ok made = rw missing at h in cc)
    | inr (raw, given) ↦ (raw, given)
  ]

  -- A creation that is granted has passed the checks of the request.
  pub create-at :
      (auth : AuthContext) (draws : BranchDraws) (body : CreateBody) (t : World) (made : Reply)
      → (create_handler store compute_key cas text le_locale config
          (some auth)
          draws
          (some body)
          t).0
        ≡ ok made
      → create_handler store compute_key cas text le_locale config (some auth) draws (some body) t
        ≡ create_at store compute_key cas text le_locale config auth draws
            (ttl_of config.max_ttl_ms body.ttl)
            (parent_of_body body.parent_branch_id)
            (mount_path_of body.mount_path)
            t
  unfolding create_with
  create-at auth draws body t made h =
      elim (Bool-cases (is_empty (mount_path_of body.mount_path))) [
        | inl empty ↦ absurd (let x : err (reply (refused 400)) ≡ ok made = rw empty at h in cc)
        | inr path ↦
            elim (Result-cases (
              check_transfers store compute_key cas text le_locale config body.initial_transfers)) [
                | inr (e, bad) ↦
                    absurd (let x : err (throw e) ≡ ok made = rw bad at (rw path at h) in cc)
                | inl (u, good) ↦ rw path (rw good refl)
              ]
      ]

  -- A request for a branch of a branch that is granted came from a worker of the parent, and leaves the new
  -- branch in the store: in the realm of the parent, with the time to live of the request as far as the
  -- configuration has it, and with the node at the mount path as its root, if there is one.
  pub create-InBranch :
      (auth : AuthContext) (draws : BranchDraws) (body : CreateBody) (parent_id : Text) (t : World)
      (made : Reply)
      → parent_of_body body.parent_branch_id ≡ some parent_id
      → (create_handler store compute_key cas text le_locale config
          (some auth)
          draws
          (some body)
          t).0
        ≡ ok made
      → InBranch auth draws
          (ttl_of config.max_ttl_ms body.ttl)
          parent_id
          (mount_path_of body.mount_path)
          t
          (create_handler store compute_key cas text le_locale config
            (some auth)
            draws
            (some body)
            t).1
  create-InBranch auth draws body parent_id t made named h =
      let checked = create-at auth draws body t made h in
      rw checked (
        rw named (
          create_in_branch-InBranch auth draws (ttl_of config.max_ttl_ms body.ttl) parent_id
            (mount_path_of body.mount_path) t made (rw named at (rw checked at h))))
