-- ===== src/Drive/Mutations/AtPath.antt =====
-- What a path resolves to after `addOrReplaceAtPath`.
use casfa.Base.{
  ◌+◌, ◌≡◌, ◌⊎◌, Bool-cases, refl, sym, ap, ◌∙◌, true, false, Bool, none, some, List, [], ◌∷◌, ◌++◌,
  length, inl, inr, Result, ok, err, Bytes, All, IsByte, IsU32, Result-cases, Option-cases,
  append-nil,
}
use casfa.Base.Exec.{◌>>=◌}
use casfa.Core.Text.{Text, TextDecoder}
use casfa.Core.Node.{Entry}
use casfa.Core.Node.Fields.{IsHash}
use casfa.Controller.{hash_to_key}
use casfa.Controller.RoundTrip.{IsKeyProvider}
use casfa.Storage.{Key, same_key, same_key_iff, same_key_self}
use casfa.Cas.Facade.{CasFacade}
use casfa.Drive.{DriveError}
use casfa.Drive.Paths.{is_empty, join_slash, normalize_path}
use casfa.Drive.Paths.Laws.{IsSegment, normalize-join, normalize-IsSegment, join-nonempty}
use casfa.Drive.Entries.{child_at, dict_size}
use casfa.Drive.Resolver.{get_node_decoded, segment_of, resolve_segments, resolve_path}
use casfa.Drive.World.{World}
use casfa.Drive.Mutations.{
  init_of, last_of, add_or_replace_in_dict, add_or_replace_at_path, add_at, find_parent, parent_of,
  put_parent,
}
use casfa.Drive.Mutations.Put.{HasDict, IsWritten}
use casfa.Drive.Mutations.Replace.{
  IsDistinct, IsDictPath, Replaced, replace-Replaced, resolve_step, get_node_decoded-agree,
}
use casfa.Drive.Mutations.Reports.{Grows, replace-Grows}
use casfa.Drive.Mutations.Add.{IsAdded, IsPlaceable, add_or_replace_in_dict-IsAdded}

init-last : (p : Text) (ps : List Text) → init_of p ps ++ (last_of p ps ∷ []) ≡ p ∷ ps
init-last p [] = refl
init-last p (q ∷ ps) = ap (λ t. p ∷ t) (init-last q ps)

All-init : (p : Text) (ps : List Text) → All IsSegment (p ∷ ps) → All IsSegment (init_of p ps)
All-init p [] h = tt
All-init p (q ∷ ps) h = (h.0, All-init q ps h.1)

module _ (compute_key : Bytes → Bytes) (cas : CasFacade compute_key) (text : TextDecoder) where
  -- The path leads from dict to dict to the target.
  abbrev pub Leads : cas.State → Key → List Text → Key → Type 0
  Leads s key [] target = key ≡ target
  Leads s key (segment ∷ segments) target =
      (entries : List Entry) × HasDict compute_key cas text s key entries
      × ((hash : Bytes) × (child_at entries segment ≡ some hash)
          × Leads s (hash_to_key hash) segments target)

  resolve-Leads :
      (s : cas.State) (key : Key) (segments : List Text) (target : Key)
      → Leads s key segments target
      → resolve_segments compute_key cas text s key segments ≡ ok (some target)
  resolve-Leads s key [] target e = unfold resolve_segments in rw e refl
  resolve-Leads s key (segment ∷ segments) target (entries, has, (hash, child, rest)) =
      resolve_step compute_key cas text s key has.node entries segment hash segments has.found
        has.dict child
      ∙ resolve-Leads s (hash_to_key hash) segments target rest

  resolve-append :
      (s : cas.State) (key middle : Key) (xs ys : List Text)
      → resolve_segments compute_key cas text s key xs ≡ ok (some middle)
      → resolve_segments compute_key cas text s key (xs ++ ys)
        ≡ resolve_segments compute_key cas text s middle ys
  unfolding resolve_segments
  resolve-append s key middle [] ys e = let same : key ≡ middle = cc in rw same refl
  resolve-append s key middle (x ∷ xs) ys e =
      elim (Result-cases (get_node_decoded compute_key cas text s key)) [
        | inr u ↦ absurd (let q : err (u.0) ≡ ok (some middle) = rw (u.1) at e in cc)
        | inl u ↦ elim (Result-cases (segment_of compute_key cas text s (u.0) x)) [
          | inr v ↦
              absurd (let q : err (v.0) ≡ ok (some middle) = rw (v.1) at (rw (u.1) at e) in cc)
          | inl v ↦ elim (Option-cases (v.0)) [
            | inl gone ↦ absurd (
                let q : ok none ≡ ok (some middle) = rw gone at (rw (v.1) at (rw (u.1) at e)) in cc)
            | inr (next, found) ↦ rw (u.1) (
                rw (v.1) (
                  rw found (
                    resolve-append s next middle xs ys
                      (rw found at (rw (v.1) at (rw (u.1) at e))))))
          ]
        ]
      ]

  decoded-none :
      (s : cas.State) (key : Key)
      → cas.get_node s key ≡ none
      → get_node_decoded compute_key cas text s key ≡ ok none
  unfolding get_node_decoded
  decoded-none s key e = rw e refl

  -- A node that is stored under the key is the same in both states.
  abbrev IsUnchanged : cas.State → cas.State → Key → Type 0
  IsUnchanged s t key = (cas.get_node s key ≡ none) ⊎ (cas.get_node s key ≡ cas.get_node t key)

  get_node-kept :
      (w t : World compute_key cas) (new : Key) (hash : Bytes) (entries : List Entry)
      → IsWritten compute_key cas text w t new
      → IsUnchanged w.0 t.0 new
      → HasDict compute_key cas text w.0 (hash_to_key hash) entries
      → cas.get_node t.0 (hash_to_key hash) ≡ cas.get_node w.0 (hash_to_key hash)
  get_node-kept w t new hash entries written either has =
      elim (Bool-cases (same_key new (hash_to_key hash))) [
        | inr differ ↦ written.kept hash (λ same. absurd (
            let here : same_key new (hash_to_key hash) ≡ true =
              (same_key_iff new (hash_to_key hash)).1 same in
            cc))
        | inl here ↦
            let same = (same_key_iff new (hash_to_key hash)).0 here in
            elim either [
              | inl gone ↦ absurd (
                  let gone2 = decoded-none w.0 (hash_to_key hash) (rw same at gone) in
                  let clash = sym gone2 ∙ has.found in cc)
              | inr kept ↦ rw same at (sym kept)
            ]
      ]

  HasDict-kept :
      (w t : World compute_key cas) (new : Key) (hash : Bytes) (entries : List Entry)
      → IsWritten compute_key cas text w t new
      → IsUnchanged w.0 t.0 new
      → HasDict compute_key cas text w.0 (hash_to_key hash) entries
      → HasDict compute_key cas text t.0 (hash_to_key hash) entries
  HasDict-kept w t new hash entries written either has = record {
    node = has.node;
    found =
        get_node_decoded-agree compute_key cas text t.0 w.0 (hash_to_key hash)
          (get_node-kept w t new hash entries written either has)
        ∙ has.found;
    dict = has.dict;
  }

  Leads-IsDictPath :
      (w t : World compute_key cas) (new : Key) (hash : Bytes) (segments : List Text) (target : Key)
      → IsWritten compute_key cas text w t new
      → IsUnchanged w.0 t.0 new
      → Leads w.0 (hash_to_key hash) segments target
      → IsDictPath compute_key cas text t.0 (hash_to_key hash) segments
  Leads-IsDictPath w t new hash [] target written gone l = tt
  Leads-IsDictPath w t new hash (segment ∷ segments) target written gone
        (entries, has, (next, child, rest)) =
      (
        entries,
        HasDict-kept w t new hash entries written gone has,
        (next, child, Leads-IsDictPath w t new next segments target written gone rest),
      )

  module _ (le_locale : Text → Text → Bool) where
    parent_of-path :
        (path : Text) (root_key : Key) (w : World compute_key cas)
        → is_empty path ≡ false
        → parent_of compute_key cas text le_locale path root_key w
          ≡ resolve_path compute_key cas text w.0 root_key path
    parent_of-path [] root_key w h = cc
    parent_of-path (c ∷ path) root_key w h = refl

    resolve_path-join :
        (s : cas.State) (root_key target : Key) (segments : List Text)
        → All IsSegment segments
        → Leads s root_key segments target
        → resolve_path compute_key cas text s root_key (join_slash segments) ≡ ok (some target)
    unfolding resolve_path
    resolve_path-join s root_key target segments h l =
        rw (normalize-join segments h) (resolve-Leads s root_key segments target l)

    parent_of-Leads :
        (w : World compute_key cas) (root_key parent : Key) (segments : List Text)
        → All IsSegment segments
        → Leads w.0 root_key segments parent
        → parent_of compute_key cas text le_locale (join_slash segments) root_key w
          ≡ ok (some parent)
    parent_of-Leads w root_key parent [] h l = unfold join_slash in rw l refl
    parent_of-Leads w root_key parent (p ∷ ps) h l =
        parent_of-path (join_slash (p ∷ ps)) root_key w (join-nonempty p ps h.0.nonempty)
        ∙ resolve_path-join w.0 root_key parent (p ∷ ps) h l

    -- The two writes of an addition at a path, once the parent is found.
    add_at_lem :
        (w : World compute_key cas) (root_key parent new : Key) (p : Text) (ps : List Text)
        → parent_of compute_key cas text le_locale (join_slash (init_of p ps)) root_key w
          ≡ ok (some parent)
        → add_at compute_key cas text le_locale root_key p ps new w
          ≡ (add_or_replace_in_dict compute_key cas text le_locale parent (last_of p ps) new
                >>= put_parent compute_key cas text le_locale root_key p ps)
              w
    unfolding add_at find_parent
    add_at_lem w root_key parent new p ps e = rw e refl

    add_at_path_lem :
        (w : World compute_key cas) (root_key new : Key) (path p : Text) (ps : List Text)
        → normalize_path path ≡ ok (p ∷ ps)
        → add_or_replace_at_path compute_key cas text le_locale root_key path new w
          ≡ add_at compute_key cas text le_locale root_key p ps new w
    unfolding add_or_replace_at_path
    add_at_path_lem w root_key new path p ps e = rw e refl

    -- Below the parent that was changed: the last segment, in any state that reads the parent's key the same.
    resolve_last :
        (w v : World compute_key cas) (t : cas.State) (key : Key) (entries : List Entry)
        (name : Text) (hash : Bytes)
        → (added : IsAdded compute_key cas text le_locale w v key entries name hash)
        → cas.get_node t key ≡ cas.get_node v.0 key
        → resolve_segments compute_key cas text t key (name ∷ []) ≡ ok (some (hash_to_key hash))
    resolve_last w v t key entries name hash added e =
        resolve_step compute_key cas text t key added.has.node added.after name hash []
          (get_node_decoded-agree compute_key cas text t v.0 key e ∙ added.has.found) added.has.dict
          (added.child name ∙ rw (same_key_self name) refl)
        ∙ unfold resolve_segments in refl

    -- The dicts above the changed parent are rewritten, if there are any.
    put_parent-Grows :
        (v : World compute_key cas) (root_key parent_key : Key) (p : Text) (ps : List Text)
        → Grows compute_key cas v
            (put_parent compute_key cas text le_locale root_key p ps parent_key v).1
    unfolding put_parent
    put_parent-Grows v root_key parent_key p [] = record {
      fresh = [];
      grown = sym (append-nil v.1);
    }
    put_parent-Grows v root_key parent_key p (q ∷ ps) =
        replace-Grows compute_key cas text root_key (init_of p (q ∷ ps)) parent_key v

    module _ (provider : IsKeyProvider compute_key) where
      put_parent-resolves :
          (w v t : World compute_key cas) (root_hash : Bytes) (parent parent_key key : Key)
          (p : Text) (ps : List Text) (entries : List Entry) (hash : Bytes)
          → IsAdded compute_key cas text le_locale w v parent_key entries (last_of p ps) hash
          → IsUnchanged w.0 v.0 parent_key
          → Leads w.0 (hash_to_key root_hash) (init_of p ps) parent
          → put_parent compute_key cas text le_locale (hash_to_key root_hash) p ps parent_key v
            ≡ (ok key, t)
          → w.1 ≡ []
          → IsDistinct t.1
          → resolve_segments compute_key cas text t.0 key (p ∷ ps) ≡ ok (some (hash_to_key hash))
      unfolding put_parent
      put_parent-resolves w v t root_hash parent parent_key key p [] entries hash added gone l e
            empty distinct =
          let at_key : parent_key ≡ key = cc in
          let at_state : v ≡ t = cc in
          rw (← at_key, ← at_state) (resolve_last w v v.0 parent_key entries p hash added refl)
      put_parent-resolves w v t root_hash parent parent_key key p (q ∷ ps) entries hash added gone l
            e empty distinct =
          let written = added.written in
          let path =
            Leads-IsDictPath w v parent_key root_hash (init_of p (q ∷ ps)) parent written gone l in
          let ok_key = ap (λ (r : Result DriveError Key × World compute_key cas). r.0) e in
          let r : Replaced compute_key cas text v t key parent_key (init_of p (q ∷ ps)) = rw e at (
            rw (← written.key_eq) at (
              replace-Replaced compute_key cas text provider v (hash_to_key root_hash) key p
                (init_of q ps) written.hash written.key_size written.key_bytes path
                (rw (written.key_eq) at ok_key))) in
          let first : v.1 ≡ parent_key ∷ [] = written.reported ∙ rw empty refl in
          let log : t.1 ≡ parent_key ∷ r.fresh =
            r.reported ∙ ap (λ (x : List Key). x ++ r.fresh) first in
          let (apart, fresh_distinct) = rw log at distinct in
          let below : resolve_segments compute_key cas text t.0 key (init_of p (q ∷ ps))
              ≡ ok (some parent_key) =
            r.resolves fresh_distinct t.0 (λ h m. refl) in
          let same : cas.get_node t.0 parent_key ≡ cas.get_node v.0 parent_key =
            rw (written.key_eq) (r.kept written.hash (rw (written.key_eq) at apart)) in
          rw (← init-last p (q ∷ ps)) (
            resolve-append t.0 key parent_key (init_of p (q ∷ ps)) (last_of p (q ∷ ps) ∷ []) below
            ∙ resolve_last w v t.0 parent_key entries (last_of p (q ∷ ps)) hash added same)

      -- After an addition at a path that succeeds, the path resolves from the new root to the new child: if
      -- the path leads through dicts to its parent dict; the name is in that already, or the names in it are in
      -- the order of the collation; the name is valid and the dict stays below 2 ^ 32 bytes; the keys that are
      -- reported are all different; and the write of the parent dict does not change a node that was stored
      -- under one of them (a node that is new, or written again as it was, satisfies this).
      pub add_or_replace_at_path-resolves :
          (s : cas.State) (root_hash : Bytes) (parent key : Key) (path p : Text) (ps : List Text)
          (entries : List Entry) (hash : Bytes) (t : World compute_key cas)
          → normalize_path path ≡ ok (p ∷ ps)
          → Leads s (hash_to_key root_hash) (init_of p ps) parent
          → HasDict compute_key cas text s parent entries
          → IsHash hash
          → All IsByte hash
          → text.is_plain (last_of p ps) ≡ true
          → IsU32 (18 + length (last_of p ps) + dict_size entries)
          → IsPlaceable compute_key cas text le_locale entries (last_of p ps)
          → add_or_replace_at_path compute_key cas text le_locale
              (hash_to_key root_hash)
              path
              (hash_to_key hash)
              (s, [])
            ≡ (ok key, t)
          → IsDistinct t.1
          → All
              (IsUnchanged s
                (add_or_replace_in_dict compute_key cas text le_locale parent
                  (last_of p ps)
                  (hash_to_key hash)
                  (s, [])).1.0)
              t.1
          → resolve_path compute_key cas text t.0 key path ≡ ok (some (hash_to_key hash))
      unfolding resolve_path
      add_or_replace_at_path-resolves s root_hash parent key path p ps entries hash t n l has size
            bytes plain small placeable e distinct fresh =
          let root_key = hash_to_key root_hash in
          let w : World compute_key cas = (s, []) in
          let segments = All-init p ps (normalize-IsSegment path (p ∷ ps) n) in
          let steps =
            add_at_path_lem w root_key (hash_to_key hash) path p ps n
            ∙ add_at_lem w root_key parent (hash_to_key hash) p ps
                (parent_of-Leads w root_key parent (init_of p ps) segments l) in
          let e2 = sym steps ∙ e in
          elim (Result-cases
            (add_or_replace_in_dict compute_key cas text le_locale parent (last_of p ps)
              (hash_to_key hash) w).0) [
                | inr u ↦ absurd (
                    let q =
                      ap (λ (r : Result DriveError Key × World compute_key cas). r.0)
                        (rw (u.1) at e2) in
                    cc)
                | inl u ↦
                    let added =
                      add_or_replace_in_dict-IsAdded compute_key cas text le_locale provider w
                        parent (u.0) entries (last_of p ps) hash has size bytes plain small
                        placeable (u.1) in
                    let e3 = rw (u.1) at e2 in
                    let v =
                      (add_or_replace_in_dict compute_key cas text le_locale parent (last_of p ps)
                        (hash_to_key hash) w).1 in
                    let grows = rw e3 at (put_parent-Grows v root_key (u.0) p ps) in
                    let log : t.1 ≡ (u.0) ∷ grows.fresh =
                      grows.grown
                      ∙ ap (λ (x : List Key). x ++ grows.fresh) added.written.reported in
                    let gone : IsUnchanged s v.0 (u.0) = (rw log at fresh).0 in
                    rw n (
                      put_parent-resolves w v t root_hash parent (u.0) key p ps entries hash added
                        gone l e3 refl distinct)
              ]
