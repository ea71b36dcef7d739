-- ===== src/Drive/BranchApi/CreateRoot.antt =====
-- What the creation of a branch of the root of a realm leaves in the store.
use casfa.Base.{
  ℕ, Bool, true, none, some, Bytes, Result, ok, err, ◌≡◌, inl, inr, Bool-cases, Option-cases,
  Result-cases,
}
use casfa.Core.Text.{Text, TextDecoder}
use casfa.Storage.{Key}
use casfa.Cas.Facade.{CasFacade}
use casfa.Drive.{DriveError}
use casfa.Drive.Branches.{BranchStore}
use casfa.Drive.World.{ensure_empty_root}
use casfa.Drive.Transfer.{on_world}
use casfa.Drive.BranchApi.Requests.{
  AuthContext, realm_of, has_branch_manage, Reply, CreateBody, mount_path_of, ttl_of,
  parent_of_body, BranchDraws, ApiConfig, refused, reply, throw,
}
use casfa.Drive.BranchApi.{ApiWorld, create_in_realm, create_handler}
use casfa.Drive.BranchApi.Create.{IsInserted, insert_child-IsInserted, create-at}

module _ (store : BranchStore) (compute_key : Bytes → Bytes) (cas : CasFacade compute_key)
    (text : TextDecoder) (le_locale : Text → Text → Bool) (config : ApiConfig) where
  abbrev World : Type 0
  World = ApiWorld store compute_key cas text le_locale

  -- The answer of ensureEmptyRoot.
  abbrev pub emptied : World → Result DriveError Key × World
  emptied = on_world store compute_key cas text le_locale (ensure_empty_root compute_key cas)

  -- The world in which the realm has a root branch, made with the empty root if there was none.
  abbrev pub with_root : AuthContext → BranchDraws → Key → World → World
  with_root auth draws empty_key t = (
    store.ensure_realm_root (emptied t).1.0 (realm_of auth) empty_key draws.realm_uuid,
    (emptied t).1.1,
  )

  -- The caller may manage branches, and the new branch is one of its realm, below the root branch.
  pub record InRealm (auth : AuthContext) (draws : BranchDraws) (ttl : ℕ) (mount_path : Text)
      (t t' : World) : Type 0 where
    pub may : has_branch_manage auth ≡ true
    pub empty_key : Key
    pub empty_put : (emptied t).0 ≡ ok empty_key
    pub root_id : Text
    pub root_found :
        store.get_realm_root_record (with_root auth draws empty_key t).0 (realm_of auth)
        ≡ some root_id
    pub root_key : Key
    pub rooted :
        store.get_realm_root (with_root auth draws empty_key t).0 (realm_of auth) ≡ some root_key
    pub inserted :
        IsInserted store compute_key cas text le_locale config draws ttl
          (realm_of auth)
          root_id
          root_key
          mount_path
          (with_root auth draws empty_key t)
          t'

  create_in_realm-InRealm :
      (auth : AuthContext) (draws : BranchDraws) (ttl : ℕ) (mount_path : Text) (t : World)
      (made : Reply)
      → (create_in_realm store compute_key cas text le_locale config auth draws ttl mount_path t).0
        ≡ ok made
      → InRealm auth draws ttl mount_path t
          (create_in_realm store compute_key cas text le_locale config auth draws ttl mount_path
            t).1
  unfolding create_in_realm
  create_in_realm-InRealm auth draws ttl mount_path t made h =
      elim (Bool-cases (has_branch_manage auth)) [
        | inr no_right ↦
            absurd (let x : err (reply (refused 403)) ≡ ok made = rw no_right at h in cc)
        | inl may ↦ elim (Result-cases (emptied t).0) [
          | inr (e, q) ↦ absurd (let x : err (throw e) ≡ ok made = rw q at (rw may at h) in cc)
          | inl (empty_key, q) ↦
              elim (Option-cases (
                store.get_realm_root_record (with_root auth draws empty_key t).0 (realm_of auth))) [
                  | inl gone ↦ absurd (
                      let x : err (reply (refused 404)) ≡ ok made =
                        rw gone at (rw q at (rw may at h)) in
                      cc)
                  | inr (root_id, found) ↦
                      elim (Option-cases (
                        store.get_realm_root (with_root auth draws empty_key t).0
                          (realm_of auth))) [
                            | inl bare ↦ absurd (
                                let x : err (reply (refused 404)) ≡ ok made =
                                  rw bare at (rw found at (rw q at (rw may at h))) in
                                cc)
                            | inr (root_key, has) ↦ rw may (
                                rw q (
                                  rw found (
                                    rw has (record {
                                      may = may;
                                      empty_key = empty_key;
                                      empty_put = q;
                                      root_id = root_id;
                                      root_found = found;
                                      root_key = root_key;
                                      rooted = has;
                                      inserted =
                                          insert_child-IsInserted store compute_key cas text
                                            le_locale config draws ttl (realm_of auth) root_id
                                            root_key mount_path (with_root auth draws empty_key t)
                                            made (rw has at (rw found at (rw q at (rw may at h))));
                                    }))))
                          ]
                ]
        ]
      ]

  -- A request for a branch of a realm that is granted came from a caller who may manage branches, and leaves
  -- the new branch in the store: in the realm of the caller, below the root branch, which is made first where
  -- there is none, and with the node at the mount path as its root, if there is one.
  pub create-InRealm :
      (auth : AuthContext) (draws : BranchDraws) (body : CreateBody) (t : World) (made : Reply)
      → parent_of_body body.parent_branch_id ≡ none
      → (create_handler store compute_key cas text le_locale config
          (some auth)
          draws
          (some body)
          t).0
        ≡ ok made
      → InRealm auth draws
          (ttl_of config.max_ttl_ms body.ttl)
          (mount_path_of body.mount_path)
          t
          (create_handler store compute_key cas text le_locale config
            (some auth)
            draws
            (some body)
            t).1
  create-InRealm auth draws body t made unnamed h =
      let checked =
        create-at store compute_key cas text le_locale config auth draws body t made h in
      rw checked (
        rw unnamed (
          create_in_realm-InRealm auth draws (ttl_of config.max_ttl_ms body.ttl)
            (mount_path_of body.mount_path) t made (rw unnamed at (rw checked at h))))
