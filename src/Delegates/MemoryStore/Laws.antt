-- ===== src/Delegates/MemoryStore/Laws.antt =====
-- The store in memory fulfils what a grant store promises.
use casfa.Base.{
  ◌≡◌, refl, ap, ◌∙◌, ◌↔◌, [], ◌∷◌, ◌++◌, Option, none, some, arith, Bool-cases, Option-cases, inl,
  inr, length, length-append, drop, get_or, if◌then◌else◌,
}
use casfa.Core.Text.{Text}
use casfa.Storage.{same_key, same_key_iff, same_key_self}
use casfa.Maps.{map_get, map_set, map_delete}
use casfa.Maps.Laws.{
  get-set, get-delete, get-set-eq-some, get-delete-eq-some, get-set_other, get-set-delete,
}
use casfa.Delegates.{
  DelegateGrant, DelegateGrantStore, IsGrant, IsDigest, truthy, with_tokens, updated_at,
}
use casfa.Delegates.MemoryStore.{
  Grants, MemoryGrants, user_hash_key, key_of_hash, access_key, refresh_key, without, retoken, list,
  get, get_by_access_token_hash, get_by_refresh_token_hash, insert, remove, update_tokens,
}
use casfa.Delegates.MemoryStore.Index.{
  HasIds, IsIndex, IsIndex-same, set-HasIds, delete-HasIds, set-IsIndex, delete-IsIndex,
  delete_at-none, some-injective,
}

-- A digest is read off the end of a key.
prefix-injective : (a b s t : Text) → length s ≡ length t → a ++ s ≡ b ++ t → (a ≡ b) × (s ≡ t)
prefix-injective [] [] s t h e = (refl, e)
prefix-injective [] (y ∷ b) s t h e =
    absurd (omega (arith, h, ap (λ (u : Text). length u) e, length-append b t))
prefix-injective (x ∷ a) [] s t h e =
    absurd (omega (arith, h, ap (λ (u : Text). length u) e, length-append a s))
prefix-injective (x ∷ a) (y ∷ b) s t h e =
    let (heads, rest) = prefix-injective a b s t h (ap (λ (u : Text). drop 1 u) e) in
    let first : x ≡ y = ap (λ (u : Text). get_or u 0 0) e in (rw (first, heads) refl, rest)

-- Both indexes have exactly the grants of the store, whose hashes are digests.
pub record IsIndexed (s : MemoryGrants) : Type 0 where
  pub ids : HasIds s.by_id
  pub grants : (id : Text) (g : DelegateGrant) → map_get s.by_id id ≡ some g → IsGrant g
  pub access : IsIndex access_key s.by_id s.by_user_and_hash
  pub refresh : IsIndex refresh_key s.by_id s.by_user_and_refresh_hash

key-injective :
    (user other hash h : Text)
    → IsDigest hash
    → IsDigest h
    → user_hash_key user hash ≡ user_hash_key other h
    → (user ≡ other) × (hash ≡ h)
unfolding user_hash_key
key-injective user other hash h d e same =
    let (users, rest) =
      prefix-injective user other (b':' ∷ hash) (b':' ∷ h) (omega (arith, d, e)) same in
    (users, ap (λ (u : Text). drop 1 u) rest)

pub access_iff_lem :
    (s : MemoryGrants) (user hash : Text) (g : DelegateGrant)
    → IsIndexed s
    → IsDigest hash
    → (get_by_access_token_hash s user hash ≡ some g)
      ↔ ((get s g.delegate_id ≡ some g) × (g.user_id ≡ user) × (g.access_token_hash ≡ hash))
unfolding get get_by_access_token_hash
access_iff_lem s user hash g i d = (
  (λ e.
      let (keyed, there) = i.access.sound (user_hash_key user hash) g e in
      let (users, hashes) =
        key-injective g.user_id user g.access_token_hash hash
          (i.grants g.delegate_id g there).access d (some-injective keyed) in
      (there, users, hashes)),
  (λ (there, users, hashes).
      i.access.complete g.delegate_id (user_hash_key user hash) g there (rw (users, hashes) refl)),
)

pub refresh_iff_lem :
    (s : MemoryGrants) (user hash : Text) (g : DelegateGrant)
    → IsIndexed s
    → IsDigest hash
    → (get_by_refresh_token_hash s user hash ≡ some g) ↔ (
        (get s g.delegate_id ≡ some g)
        × (g.user_id ≡ user)
        × (truthy g.refresh_token_hash ≡ some hash))
unfolding get get_by_refresh_token_hash
refresh_iff_lem s user hash g i d = (
  (λ e.
      let (keyed, there) = i.refresh.sound (user_hash_key user hash) g e in
      elim (Option-cases (truthy g.refresh_token_hash)) [
        | inl gone ↦ absurd (let q : none ≡ some (user_hash_key user hash) = rw gone at keyed in cc)
        | inr (h, held) ↦
            let same : some (user_hash_key g.user_id h) ≡ some (user_hash_key user hash) =
              rw held at keyed in
            let (users, hashes) =
              key-injective g.user_id user h hash ((i.grants g.delegate_id g there).refresh h held)
                d (some-injective same) in
            (there, users, held ∙ ap some hashes)
      ]),
  (λ (there, users, held).
      i.refresh.complete g.delegate_id (user_hash_key user hash) g there (rw (users, held) refl)),
)

-- A grant is in the store and its hashes are digests: what holds of the grants before and of the new one.
set-grants :
    (by_id : Grants) (g : DelegateGrant)
    → IsGrant g
    → ((id : Text) (h : DelegateGrant) → map_get by_id id ≡ some h → IsGrant h)
    → (id : Text) (h : DelegateGrant) → map_get (map_set by_id g.delegate_id g) id ≡ some h
    → IsGrant h
set-grants by_id g new old id h e = elim (get-set-eq-some by_id g.delegate_id id g h e) [
  | inl (k, same) ↦ rw (← same) new
  | inr (apart, found) ↦ old id h found
]

-- The refresh token of a grant is new to the index.
fresh-key :
    (index : Grants) (user : Text) (held : Option Text)
    → ((hash : Text) → held ≡ some hash → map_get index (user_hash_key user hash) ≡ none)
    → (k : Text) → key_of_hash user held ≡ some k
    → map_get index k ≡ none
fresh-key index user none fresh k e = cc
fresh-key index user (some hash) fresh k e = rw (← some-injective e) (fresh hash refl)

pub insert-IsIndexed :
    (s : MemoryGrants) (g : DelegateGrant)
    → IsIndexed s
    → IsGrant g
    → get s g.delegate_id ≡ none
    → get_by_access_token_hash s g.user_id g.access_token_hash ≡ none
    → ((hash : Text)
        → truthy g.refresh_token_hash ≡ some hash
        → get_by_refresh_token_hash s g.user_id hash ≡ none)
    → IsIndexed (insert s g)
unfolding get get_by_access_token_hash get_by_refresh_token_hash insert
insert-IsIndexed s g i valid new access refresh = record {
  ids = set-HasIds access_key s.by_id s.by_user_and_hash i.ids i.access g;
  grants = set-grants s.by_id g valid i.grants;
  access =
      set-IsIndex access_key s.by_id s.by_user_and_hash i.ids i.access g new
        (λ k e. rw (← some-injective e) access);
  refresh =
      set-IsIndex refresh_key s.by_id s.by_user_and_refresh_hash i.ids i.refresh g new
        (fresh-key s.by_user_and_refresh_hash g.user_id (truthy g.refresh_token_hash) refresh);
}

without-IsIndexed :
    (s : MemoryGrants) (g : DelegateGrant)
    → IsIndexed s
    → map_get s.by_id g.delegate_id ≡ some g
    → IsIndexed (without s g.delegate_id g)
without-IsIndexed s g i there = record {
  ids = delete-HasIds access_key s.by_id s.by_user_and_hash i.ids i.access g.delegate_id;
  grants = λ id h e. i.grants id h (get-delete-eq-some s.by_id g.delegate_id id h e).1;
  access = delete-IsIndex access_key s.by_id s.by_user_and_hash i.ids i.access g there;
  refresh = delete-IsIndex refresh_key s.by_id s.by_user_and_refresh_hash i.ids i.refresh g there;
}

pub remove-IsIndexed : (s : MemoryGrants) (id : Text) → IsIndexed s → IsIndexed (remove s id)
unfolding remove
remove-IsIndexed s id i = elim (Option-cases (map_get s.by_id id)) [
  | inl gone ↦ rw gone i
  | inr (g, there) ↦
      let at_id : g.delegate_id ≡ id = i.ids id g there in
      rw there (
        rw (← at_id) (without-IsIndexed s g i (ap (λ (k : Text). map_get s.by_id k) at_id ∙ there)))
]

retoken-IsIndexed :
    (s : MemoryGrants) (g : DelegateGrant) (access : Text) (refresh : Option Text)
    → IsIndexed s
    → map_get s.by_id g.delegate_id ≡ some g
    → IsGrant (with_tokens access refresh g)
    → map_get s.by_user_and_hash (user_hash_key g.user_id access) ≡ none
    → ((hash : Text)
        → truthy refresh ≡ some hash
        → map_get s.by_user_and_refresh_hash (user_hash_key g.user_id hash) ≡ none)
    → IsIndexed (retoken s g.delegate_id g (with_tokens access refresh g))
retoken-IsIndexed s g access refresh i there valid access_new refresh_new =
    let w = without-IsIndexed s g i there in
    let updated = with_tokens access refresh g in
    let gone : map_get (map_delete s.by_id g.delegate_id) g.delegate_id ≡ none =
      get-delete s.by_id g.delegate_id g.delegate_id ∙ rw (same_key_self g.delegate_id) refl in
    let same : (id : Text)
        → map_get (map_set (map_delete s.by_id g.delegate_id) g.delegate_id updated) id
          ≡ map_get (map_set s.by_id g.delegate_id updated) id =
      λ id. get-set-delete s.by_id g.delegate_id id updated in
    record {
      ids = set-HasIds access_key s.by_id s.by_user_and_hash i.ids i.access updated;
      grants = set-grants s.by_id updated valid i.grants;
      access = IsIndex-same access_key _ _ _ same (
          set-IsIndex access_key _ _ w.ids w.access updated gone (λ k e. rw (← some-injective e) (
            delete_at-none (access_key g) s.by_user_and_hash (user_hash_key g.user_id access)
              access_new)));
      refresh = IsIndex-same refresh_key _ _ _ same (
          set-IsIndex refresh_key _ _ w.ids w.refresh updated gone (λ k e.
            delete_at-none (refresh_key g) s.by_user_and_refresh_hash k
              (fresh-key s.by_user_and_refresh_hash g.user_id (truthy refresh) refresh_new k e)));
    }

-- A change of the tokens leaves the store as if the grant had been taken out and put in again.
pub update_tokens-IsIndexed :
    (s : MemoryGrants) (id access : Text) (refresh : Option Text)
    → IsIndexed s
    → ((g : DelegateGrant)
        → get s id ≡ some g
        → IsGrant (with_tokens access refresh g)
          × (get_by_access_token_hash s g.user_id access ≡ none)
          × ((hash : Text)
              → truthy refresh ≡ some hash
              → get_by_refresh_token_hash s g.user_id hash ≡ none))
    → IsIndexed (update_tokens s id access refresh)
unfolding get get_by_access_token_hash get_by_refresh_token_hash update_tokens
update_tokens-IsIndexed s id access refresh i new = elim (Option-cases (map_get s.by_id id)) [
  | inl gone ↦ rw gone i
  | inr (g, there) ↦
      let at_id : g.delegate_id ≡ id = i.ids id g there in
      let (valid, access_new, refresh_new) = new g there in
      rw there (
        rw (← at_id) (
          retoken-IsIndexed s g access refresh i
            (ap (λ (k : Text). map_get s.by_id k) at_id ∙ there) valid access_new refresh_new))
]

pub get-remove_lem :
    (s : MemoryGrants) (id other : Text)
    → get (remove s id) other ≡ (if same_key id other then none else get s other)
unfolding get remove
get-remove_lem s id other = elim (Option-cases (map_get s.by_id id)) [
  | inl gone ↦ rw gone (ground (arith, gone, same_key_iff id other))
  | inr (g, there) ↦ rw there (get-delete s.by_id id other)
]

pub get-update_tokens_lem :
    (s : MemoryGrants) (id access : Text) (refresh : Option Text) (other : Text)
    → get (update_tokens s id access refresh) other
      ≡ updated_at id access refresh other (get s other)
unfolding get update_tokens
get-update_tokens_lem s id access refresh other = elim (Option-cases (map_get s.by_id id)) [
  | inl gone ↦ rw gone (elim (Option-cases (map_get s.by_id other)) [
    | inl none_there ↦ rw none_there refl
    | inr (h, there) ↦ rw there (ground (arith, gone, there, same_key_iff id other))
  ])
  | inr (g, found) ↦ rw found (elim (Bool-cases (same_key id other)) [
    | inl same ↦
        get-set s.by_id id other (with_tokens access refresh g)
        ∙ rw (← (same_key_iff id other).0 same) (rw found (rw (same_key_self id) refl))
    | inr apart ↦
        get-set_other s.by_id id other (with_tokens access refresh g) apart
        ∙ elim (Option-cases (map_get s.by_id other)) [
          | inl none_there ↦ rw none_there refl
          | inr (h, there) ↦ rw there (rw apart refl)
        ]
  ])
]

pub get-insert_lem :
    (s : MemoryGrants) (g : DelegateGrant) (id : Text)
    → get (insert s g) id ≡ (if same_key g.delegate_id id then some g else get s id)
unfolding get insert
get-insert_lem s g id = get-set s.by_id g.delegate_id id g

pub id-get_lem :
    (s : MemoryGrants) (id : Text) (g : DelegateGrant)
    → IsIndexed s
    → get s id ≡ some g
    → g.delegate_id ≡ id
unfolding get
id-get_lem s id g i e = i.ids id g e

abbrev pub memory_grant_store : DelegateGrantStore
memory_grant_store = record {
  State = MemoryGrants;
  IsValid = IsIndexed;
  list = list;
  get = get;
  get_by_access_token_hash = get_by_access_token_hash;
  get_by_refresh_token_hash = get_by_refresh_token_hash;
  insert = insert;
  remove = remove;
  update_tokens = update_tokens;
  get-insert = get-insert_lem;
  get-remove = get-remove_lem;
  get-update_tokens = get-update_tokens_lem;
  id-get = id-get_lem;
  access_iff = access_iff_lem;
  refresh_iff = refresh_iff_lem;
  insert-IsValid = insert-IsIndexed;
  remove-IsValid = remove-IsIndexed;
  update_tokens-IsValid = update_tokens-IsIndexed;
}
