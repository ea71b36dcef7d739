-- ===== src/Drive/BranchApi/Granted.antt =====
-- What a creation of a branch that is granted was given and what it leaves, said without the code's own terms.
use casfa.Base.{
  ℕ, ◌+◌, ◌≤◌, ◌<◌, ◌≡◌, refl, sym, ◌∙◌, inl, inr, Bool, true, false, Option, none, some, List, [],
  ◌∷◌, Bytes, ok, Bool-cases, arith,
}
use mathlib.Core.List.{Mem, mem-cons_self, mem-cons_of_mem}
use casfa.Core.Text.{Text, TextDecoder}
use casfa.Encoding.Cb32.{codes}
use casfa.Storage.{Key, same_key, same_key_iff}
use casfa.Cas.Facade.{CasFacade}
use casfa.Drive.Paths.{trim, trim_slashes}
use casfa.Drive.Resolver.{resolve_path}
use casfa.Drive.World.{ensure_empty_root}
use casfa.Drive.Transfer.{on_world}
use casfa.Delegates.MemoryStore.Index.{some-injective}
use casfa.Drive.Branches.{Branch, BranchStore, or_empty}
use casfa.Drive.BranchApi.Requests.{
  AuthContext, user, delegate, worker, realm_of, includes, has_branch_manage, Reply, CreateBody,
  mount_path_of, ttl_of, parent_of_body, BranchDraws, ApiConfig,
}
use casfa.Drive.BranchApi.{ApiWorld, create_handler, is_worker_of}
use casfa.Drive.BranchApi.Create.{or_else, IsInserted, mount-named, create-InBranch}
use casfa.Drive.BranchApi.CreateRoot.{with_root, create-InRealm}

-- A user, or a delegate with the permission.
abbrev pub MayManage : AuthContext → Type 0
MayManage (user user_id) = Unit {0}
MayManage (delegate realm_id delegate_id client_id permissions) =
    Mem (codes "branch_manage") permissions
MayManage (worker realm_id branch_id readwrite) = ⊥

includes-Mem :
    (permissions : List Text) (p : Text) → includes permissions p ≡ true → Mem p permissions
unfolding includes
includes-Mem [] p h = cc
includes-Mem (q ∷ permissions) p h = elim (Bool-cases (same_key q p)) [
  | inl here ↦ rw ((same_key_iff q p).0 here) mem-cons_self
  | inr apart ↦ mem-cons_of_mem q (includes-Mem permissions p (rw apart at h))
]

has-MayManage : (auth : AuthContext) → has_branch_manage auth ≡ true → MayManage auth
has-MayManage (user user_id) h = tt
has-MayManage (delegate realm_id delegate_id client_id permissions) h = includes-Mem permissions _ h
has-MayManage (worker realm_id branch_id readwrite) h = cc

-- A time to live that is asked for is given up to the maximum; ten minutes are given for none, and for 0.
pub record IsTtl (max_ttl_ms : ℕ) (asked : Option ℕ) (ttl : ℕ) : Type 0 where
  pub within : (t : ℕ) → asked ≡ some t → 0 < t → (ttl ≤ t) × (ttl ≤ max_ttl_ms)
  pub full : (t : ℕ) → asked ≡ some t → 0 < t → t ≤ max_ttl_ms → ttl ≡ t
  pub default : ((t : ℕ) → asked ≡ some t → t ≡ 0) → ttl ≡ 600000

ttl_of-IsTtl :
    (max_ttl_ms : ℕ) (asked : Option ℕ) → IsTtl max_ttl_ms asked (ttl_of max_ttl_ms asked)
ttl_of-IsTtl max_ttl_ms none = record { within = λ t e. cc; full = λ t e. cc; default = λ h. refl }
ttl_of-IsTtl max_ttl_ms (some a) = record {
  within = λ t e pos. (let is : a ≡ t = cc in rw is (ground arith));
  full = λ t e pos le. (let is : a ≡ t = cc in rw is (ground arith));
  default = λ h. (let z : a ≡ 0 = h a refl in rw z refl);
}

module _ (store : BranchStore) (compute_key : Bytes → Bytes) (cas : CasFacade compute_key)
    (text : TextDecoder) (le_locale : Text → Text → Bool) (config : ApiConfig) where
  abbrev World : Type 0
  World = ApiWorld store compute_key cas text le_locale

  -- The new branch and its root, where the store was `t` and is `t'`; the other branches are as before.
  pub record IsNewBranch (draws : BranchDraws) (body : CreateBody) (realm_id parent_id : Text)
      (root_key : Key) (t t' : World) : Type 0 where
    pub ttl : ℕ
    pub ttl_right : IsTtl config.max_ttl_ms body.ttl ttl
    pub stored :
        store.get_branch t'.0 draws.branch_uuid
        ≡ some (record {
          branch_id = draws.branch_uuid;
          realm_id = realm_id;
          parent_id = some parent_id;
          expires_at = draws.now + ttl;
          access_verification =
              some (record { value = draws.verification; expires_at = draws.now + ttl });
        })
    pub raw : Text
    pub mount_given : body.mount_path ≡ some raw
    pub child_root : Option Key
    pub resolved :
        resolve_path compute_key cas text t.1.0 root_key (trim_slashes (trim raw)) ≡ ok child_root
    pub rooted :
        store.get_branch_root t'.0 draws.branch_uuid
        ≡ or_else child_root (store.get_branch_root t.0 draws.branch_uuid)
    pub kept :
        (other : Text)
        → same_key draws.branch_uuid other ≡ false
        → store.get_branch t'.0 other ≡ store.get_branch t.0 other

  inserted-IsNewBranch :
      (draws : BranchDraws) (body : CreateBody) (realm_id parent_id : Text) (root_key : Key)
      (t t' : World)
      → (raw : Text) → body.mount_path ≡ some raw
      → IsInserted store compute_key cas text le_locale config draws
          (ttl_of config.max_ttl_ms body.ttl)
          realm_id
          parent_id
          root_key
          (mount_path_of body.mount_path)
          t
          t'
      → IsNewBranch draws body realm_id parent_id root_key t t'
  inserted-IsNewBranch draws body realm_id parent_id root_key t t' raw given i = record {
    ttl = ttl_of config.max_ttl_ms body.ttl;
    ttl_right = ttl_of-IsTtl config.max_ttl_ms body.ttl;
    stored = i.stored;
    raw = raw;
    mount_given = given;
    child_root = i.child_root;
    resolved = rw given at i.resolved;
    rooted = i.rooted;
    kept = i.kept;
  }

  worker_of :
      (auth : AuthContext) (parent : Text)
      → is_worker_of store compute_key cas text le_locale config auth parent ≡ true
      → (realm : Text) × (readwrite : Bool) × (auth ≡ worker realm parent readwrite)
  worker_of (user user_id) parent h = cc
  worker_of (delegate realm_id delegate_id client_id permissions) parent h = cc
  worker_of (worker realm_id branch_id readwrite) parent h =
      (realm_id, readwrite, rw ((same_key_iff branch_id parent).0 h) refl)

  -- The branch of a branch.
  pub record IsSubBranch (auth : AuthContext) (draws : BranchDraws) (body : CreateBody)
      (parent_id : Text) (t t' : World) : Type 0 where
    pub caller : (realm : Text) × (readwrite : Bool) × (auth ≡ worker realm parent_id readwrite)
    pub parent : Branch
    pub parent_stored : store.get_branch t.0 parent_id ≡ some parent
    pub root_key : Key
    pub parent_rooted : store.get_branch_root t.0 parent_id ≡ some root_key
    pub child : IsNewBranch draws body parent.realm_id parent_id root_key t t'

  -- A request for a branch of a branch that is granted came from a worker of the parent, which is stored and
  -- has a root. The new branch is stored with the realm of the parent, the parent's id, and the time to live
  -- that was asked for, up to the maximum, or ten minutes; its root is the node at the mount path, if there is
  -- one; and the other branches are as before.
  pub create-IsSubBranch :
      (auth : AuthContext) (draws : BranchDraws) (body : CreateBody) (parent_id : Text) (t : World)
      (made : Reply)
      → parent_of_body body.parent_branch_id ≡ some parent_id
      → (create_handler store compute_key cas text le_locale config
          (some auth)
          draws
          (some body)
          t).0
        ≡ ok made
      → IsSubBranch auth draws body parent_id t
          (create_handler store compute_key cas text le_locale config
            (some auth)
            draws
            (some body)
            t).1
  create-IsSubBranch auth draws body parent_id t made named h =
      let g =
        create-InBranch store compute_key cas text le_locale config auth draws body parent_id t made
          named h in
      let (raw, given) =
        mount-named store compute_key cas text le_locale config auth draws body t made h in
      record {
        caller = worker_of auth parent_id g.may;
        parent = g.parent;
        parent_stored = g.parent_stored;
        root_key = g.root_key;
        parent_rooted = g.parent_rooted;
        child = inserted-IsNewBranch draws body _ parent_id _ t _ raw given g.inserted;
      }

  -- The branch of a realm. Its parent is the root branch that the realm has once ensureRealmRoot is done, and
  -- the root of that is the one that the realm had, or the empty one.
  pub record IsRootChild (auth : AuthContext) (draws : BranchDraws) (body : CreateBody)
      (t t' : World) : Type 0 where
    pub caller : MayManage auth
    pub empty_key : Key
    pub empty_put : (ensure_empty_root compute_key cas t.1).0 ≡ ok empty_key
    pub root_id : Text
    pub root_found :
        store.get_realm_root_record
          (store.ensure_realm_root t.0 (realm_of auth) empty_key draws.realm_uuid)
          (realm_of auth)
        ≡ some root_id
    pub child :
        IsNewBranch draws body
          (realm_of auth)
          root_id
          (or_empty (store.get_realm_root t.0 (realm_of auth)) empty_key)
          (with_root store compute_key cas text le_locale config auth draws empty_key t)
          t'

  -- A request for a branch of a realm that is granted came from a user, or from a delegate with the permission
  -- branch_manage. At a valid store, where the id that is drawn for a root branch is new and not empty, the
  -- new branch is stored with the realm of the caller, the root branch of that as its parent, and the time to
  -- live that was asked for, up to the maximum, or ten minutes; and its root is the node at the mount path
  -- under the root that the realm had, or under the empty root if it had none, if there is such a node.
  pub create-IsRootChild :
      (auth : AuthContext) (draws : BranchDraws) (c : ℕ) (uuid : Text) (body : CreateBody)
      (t : World) (made : Reply)
      → store.IsValid t.0
      → draws.realm_uuid ≡ c ∷ uuid
      → store.get_branch t.0 (c ∷ uuid) ≡ none
      → parent_of_body body.parent_branch_id ≡ none
      → (create_handler store compute_key cas text le_locale config
          (some auth)
          draws
          (some body)
          t).0
        ≡ ok made
      → IsRootChild auth draws body t
          (create_handler store compute_key cas text le_locale config
            (some auth)
            draws
            (some body)
            t).1
  unfolding on_world
  create-IsRootChild auth draws c uuid body t made valid drawn new unnamed h =
      let g =
        create-InRealm store compute_key cas text le_locale config auth draws body t made unnamed
          h in
      let (raw, given) =
        mount-named store compute_key cas text le_locale config auth draws body t made h in
      let is : g.root_key ≡ or_empty (store.get_realm_root t.0 (realm_of auth)) g.empty_key =
        some-injective (
          sym g.rooted
          ∙ rw drawn (store.ensure-root t.0 (realm_of auth) g.empty_key c uuid valid new)) in
      record {
        caller = has-MayManage auth g.may;
        empty_key = g.empty_key;
        empty_put = g.empty_put;
        root_id = g.root_id;
        root_found = g.root_found;
        child = rw (← is) (inserted-IsNewBranch draws body _ g.root_id _ _ _ raw given g.inserted);
      }
