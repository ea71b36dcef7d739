-- ===== src/Drive/Mutations/Replace.antt =====
-- What a path resolves to after `replaceSubtreeAtPath`.
use casfa.Base.{
  ℕ, ◌≡◌, refl, sym, ap, ◌∙◌, some, List, [], ◌∷◌, ◌++◌, append_assoc, append-nil, map, inl, inr,
  Result, ok, err, Bytes, All, IsByte, Result-cases,
}
use casfa.Base.Exec.{◌>>=◌}
use casfa.Core.Text.{Text, TextDecoder}
use casfa.Core.Node.{CasNode, Entry}
use casfa.Core.Node.Fields.{IsHash}
use casfa.Core.Node.Directory.{name_of, sort_entries}
use casfa.Controller.{hash_to_key}
use casfa.Controller.RoundTrip.{IsKeyProvider, In, In-append, In-last}
use casfa.Storage.{Key, same_key_self}
use casfa.Cas.Facade.{CasFacade}
use casfa.Drive.{DriveError, not_a_dict, index_of}
use casfa.Drive.Entries.{
  IsDict, child_at, with_child, child_at-sort, child_at-with_child, index_of-child_at,
}
use casfa.Drive.Resolver.{get_node_decoded, resolve_segments}
use casfa.Drive.World.{World}
use casfa.Drive.Mutations.{put_child, replace_subtree_at_path}
use casfa.Drive.Mutations.Put.{
  HasDict, put_child-eq-ok, resolve_segment-IsDict, resolve_below-IsDict, need_dict-IsDict,
  names_of-IsDict,
}

abbrev pub IsDistinct : List Key → Type 0
IsDistinct [] = Unit {0}
IsDistinct (k ∷ ks) = (¬ In k ks) × IsDistinct ks

IsDistinct-append :
    (ks : List Key) (k : Key) → IsDistinct (ks ++ (k ∷ [])) → IsDistinct ks × (¬ In k ks)
IsDistinct-append [] k d = (tt, λ m. m)
IsDistinct-append (j ∷ ks) k (apart, d) =
    let (before, fresh) = IsDistinct-append ks k d in
    (
      (λ m. apart (In-append j ks (k ∷ []) (inl m)), before),
      λ m. elim m [
        | inl e ↦ apart (In-append j ks (k ∷ []) (inr (inl (sym e))))
        | inr later ↦ fresh later
      ],
    )

module _ (compute_key : Bytes → Bytes) (cas : CasFacade compute_key) (text : TextDecoder) where
  -- The path leads from dict to dict down to an entry, all of them read in one state.
  abbrev pub IsDictPath : cas.State → Key → List Text → Type 0
  IsDictPath s key [] = Unit {0}
  IsDictPath s key (segment ∷ segments) =
      (entries : List Entry) × HasDict compute_key cas text s key entries
      × ((hash : Bytes) × (child_at entries segment ≡ some hash)
          × IsDictPath s (hash_to_key hash) segments)

  -- Two states read the same under the keys of a list.
  abbrev Agree : cas.State → cas.State → List Key → Type 0
  Agree u t keys =
      (hash : Bytes)
      → In (hash_to_key hash) keys
      → cas.get_node u (hash_to_key hash) ≡ cas.get_node t (hash_to_key hash)

  pub get_node_decoded-agree :
      (u t : cas.State) (key : Key)
      → cas.get_node u key ≡ cas.get_node t key
      → get_node_decoded compute_key cas text u key ≡ get_node_decoded compute_key cas text t key
  unfolding get_node_decoded
  get_node_decoded-agree u t key e = rw e refl

  pub resolve_step :
      (u : cas.State) (key : Key) (node : CasNode) (entries : List Entry) (segment : Text)
      (hash : Bytes) (segments : List Text)
      → get_node_decoded compute_key cas text u key ≡ ok (some node)
      → IsDict text node entries
      → child_at entries segment ≡ some hash
      → resolve_segments compute_key cas text u key (segment ∷ segments)
        ≡ resolve_segments compute_key cas text u (hash_to_key hash) segments
  unfolding resolve_segments
  resolve_step u key node entries segment hash segments g d e =
      rw g (rw (resolve_segment-IsDict text node entries segment hash d e) refl)

  replace_last :
      (w : World compute_key cas) (root_key new : Key) (node : CasNode) (entries : List Entry)
      (segment : Text) (i : ℕ)
      → get_node_decoded compute_key cas text w.0 root_key ≡ ok (some node)
      → IsDict text node entries
      → index_of (map name_of entries) segment ≡ some i
      → replace_subtree_at_path compute_key cas text root_key (segment ∷ []) new w
        ≡ put_child compute_key cas node i new w
  unfolding replace_subtree_at_path
  replace_last w root_key new node entries segment i g d e = rw g (
      rw (need_dict-IsDict text node entries not_a_dict d)
        (rw (names_of-IsDict text node entries d) (rw e refl)))

  module _ (w : World compute_key cas) (root_key new : Key) (node : CasNode) (entries : List Entry)
      (segment next : Text) (segments : List Text) (i : ℕ) (hash : Bytes) where
    replace_next :
        get_node_decoded compute_key cas text w.0 root_key ≡ ok (some node)
        → IsDict text node entries
        → child_at entries segment ≡ some hash
        → index_of (map name_of entries) segment ≡ some i
        → replace_subtree_at_path compute_key cas text root_key (segment ∷ next ∷ segments) new w
          ≡ (replace_subtree_at_path compute_key cas text (hash_to_key hash) (next ∷ segments) new
                >>= put_child compute_key cas node i)
              w
    unfolding replace_subtree_at_path
    replace_next g d c e = rw g (
        rw (need_dict-IsDict text node entries not_a_dict d) (
          rw (names_of-IsDict text node entries d)
            (rw e (rw (resolve_below-IsDict text node entries segment hash d c) refl))))

  -- What a replacement leaves behind: new keys that were reported, and a path through them to the new
  -- child, which any state that reads the same under these keys has.
  pub record Replaced (w t : World compute_key cas) (key new : Key) (segments : List Text)
      : Type 0 where
    pub fresh : List Key
    pub reported : t.1 ≡ w.1 ++ fresh
    pub hash : Bytes
    pub key_eq : key ≡ hash_to_key hash
    pub key_bytes : All IsByte hash
    pub key_size : IsHash hash
    pub kept :
        (other : Bytes)
        → ¬ In (hash_to_key other) fresh
        → cas.get_node t.0 (hash_to_key other) ≡ cas.get_node w.0 (hash_to_key other)
    pub resolves :
        IsDistinct fresh
        → (u : cas.State) → Agree u t.0 fresh
        → resolve_segments compute_key cas text u key segments ≡ ok (some new)

  module _ (provider : IsKeyProvider compute_key) where
    -- The write of one dict above a child that resolves further.
    put_above :
        (w v : World compute_key cas) (node : CasNode) (entries : List Entry) (segment : Text)
        (i : ℕ) (below key new : Key) (segments : List Text)
        → IsDict text node entries
        → index_of (map name_of entries) segment ≡ some i
        → Replaced w v below new segments
        → (put_child compute_key cas node i below v).0 ≡ ok key
        → Replaced w (put_child compute_key cas node i below v).1 key new (segment ∷ segments)
    put_above w v node entries segment i below key new segments d found r e =
        let same = r.key_eq in
        let e2 : (put_child compute_key cas node i (hash_to_key r.hash) v).0 ≡ ok key =
          rw same at e in
        let (has, written) =
          put_child-eq-ok compute_key cas text provider node entries i r.hash v key d r.key_size
            r.key_bytes e2 in
        let changed = sort_entries (with_child entries i r.hash) in
        let child : child_at changed segment ≡ some r.hash =
          child_at-sort (with_child entries i r.hash) segment
          ∙ child_at-with_child entries segment i r.hash segment found
          ∙ rw (same_key_self segment) refl in
        rw same (record {
          fresh = r.fresh ++ (key ∷ []);
          reported =
              written.reported
              ∙ ap (λ l. l ++ (key ∷ [])) r.reported
              ∙ append_assoc w.1 r.fresh (key ∷ []);
          hash = written.hash;
          key_eq = written.key_eq;
          key_bytes = written.key_bytes;
          key_size = written.key_size;
          kept = λ other m.
              written.kept other
                (λ q. m (In-append (hash_to_key other) r.fresh (key ∷ []) (inr (inl (sym q)))))
              ∙ r.kept other
                  (λ before. m (In-append (hash_to_key other) r.fresh (key ∷ []) (inl before)));
          resolves = λ distinct u agree.
              let (before, apart) = IsDistinct-append r.fresh key distinct in
              let t = (put_child compute_key cas node i (hash_to_key r.hash) v).1 in
              let top : cas.get_node u key ≡ cas.get_node t.0 key =
                rw written.key_eq
                  (agree written.hash (rw (← written.key_eq) (In-last key r.fresh))) in
              resolve_step u key has.node changed segment r.hash segments
                (get_node_decoded-agree u t.0 key top ∙ has.found) has.dict child
              ∙ rw (← same) (
                  r.resolves before u (λ h m.
                    agree h (In-append (hash_to_key h) r.fresh (key ∷ []) (inl m))
                    ∙ written.kept h (λ q. apart (rw q m))));
        })

    -- The chain of writes, from the dict of the last segment up to the root.
    pub replace-Replaced :
        (w : World compute_key cas) (root_key key : Key) (segment : Text) (segments : List Text)
        (new_hash : Bytes)
        → IsHash new_hash
        → All IsByte new_hash
        → IsDictPath w.0 root_key (segment ∷ segments)
        → (replace_subtree_at_path compute_key cas text root_key
            (segment ∷ segments)
            (hash_to_key new_hash)
            w).0
          ≡ ok key
        → Replaced w
            (replace_subtree_at_path compute_key cas text root_key
              (segment ∷ segments)
              (hash_to_key new_hash)
              w).1
            key
            (hash_to_key new_hash)
            (segment ∷ segments)
    replace-Replaced w root_key key segment [] new_hash size bytes
          (entries, has, (hash, child, rest)) e =
        let (i, found, h) = index_of-child_at entries segment hash child in
        let new = hash_to_key new_hash in
        let step =
          replace_last w root_key new has.node entries segment i has.found has.dict found in
        let start : Replaced w w new new [] = record {
          fresh = [];
          reported = sym (append-nil w.1);
          hash = new_hash;
          key_eq = refl;
          key_bytes = bytes;
          key_size = size;
          kept = λ other m. refl;
          resolves = λ distinct u agree. unfold resolve_segments in refl;
        } in
        rw step (
          put_above w w has.node entries segment i new key new [] has.dict found start
            (rw step at e))
    replace-Replaced w root_key key segment (next ∷ segments) new_hash size bytes
          (entries, has, (hash, child, rest)) e =
        let (i, found, h) = index_of-child_at entries segment hash child in
        let new = hash_to_key new_hash in
        let step =
          replace_next w root_key new has.node entries segment next segments i hash has.found
            has.dict child found in
        let e2 = rw step at e in
        elim (Result-cases
          (replace_subtree_at_path compute_key cas text (hash_to_key hash) (next ∷ segments) new
            w).0) [
              | inr u ↦ absurd (let q : err (u.0) ≡ ok key = rw (u.1) at e2 in cc)
              | inl u ↦
                  let below = u.0 in
                  let r =
                    replace-Replaced w (hash_to_key hash) below next segments new_hash size bytes
                      rest (u.1) in
                  rw step (
                    rw (u.1) (
                      put_above w _ has.node entries segment i below key new (next ∷ segments)
                        has.dict found r (rw (u.1) at e2)))
            ]

    -- After a replacement at a path of dicts that succeeds, where the keys that it reports are all different,
    -- the path resolves from the new root to the new child.
    pub replace_subtree-resolves :
        (s : cas.State) (root_key key : Key) (segments : List Text) (new_hash : Bytes)
        (t : World compute_key cas)
        → IsHash new_hash
        → All IsByte new_hash
        → IsDictPath s root_key segments
        → replace_subtree_at_path compute_key cas text root_key segments
            (hash_to_key new_hash)
            (s, [])
          ≡ (ok key, t)
        → IsDistinct t.1
        → resolve_segments compute_key cas text t.0 key segments ≡ ok (some (hash_to_key new_hash))
    unfolding replace_subtree_at_path
    replace_subtree-resolves s root_key key [] new_hash t size bytes path e distinct = cc
    replace_subtree-resolves s root_key key (segment ∷ segments) new_hash t size bytes path e
          distinct =
        let r = rw e at (
          replace-Replaced (s, []) root_key key segment segments new_hash size bytes path
            (ap (λ (p : Result DriveError Key × World compute_key cas). p.0) e)) in
        r.resolves (rw r.reported at distinct) t.0 (λ h m. refl)
