-- ===== src/Cas/Reached.antt =====
-- `reachableKeys` as a whole: its result is the set of the keys that the roots reach, and it ends.
use casfa.Base.{
  ℕ, zero, suc, ◌+◌, ◌≤◌, ◌≡◌, ◌↔◌, refl, true, false, List, [], ◌∷◌, length, arith, if◌then◌else◌,
  Result, ok, err, Bool-cases, inl, inr,
}
use casfa.Core.Text.{TextDecoder}
use casfa.Storage.{Key, StorageProvider, same_key, same_key_iff, same_key_self}
use casfa.Cas.{CasError, includes, add_key}
use casfa.Cas.Lookup.{push_all, child_keys, reach_loop, reachable_keys}
use casfa.Cas.Keys.{HasKey, includes-add}
use casfa.Cas.Reachable.{
  Reaches, includes-push_all, length-push_all, loop-Reaches, loop-Covered, reached-IsClosed,
}

module _ (storage : StorageProvider) (text : TextDecoder) (s : storage.State) where
  -- What `reachableKeys` returns holds a key exactly if the roots reach the key.
  pub reachable_keys-eq-ok :
      (fuel : ℕ) (roots found : List Key)
      → reachable_keys storage s text fuel roots ≡ ok found
      → (k : Key) → HasKey found k ↔ Reaches storage text s roots k
  unfolding reachable_keys includes
  reachable_keys-eq-ok fuel roots found e k =
      let c =
        loop-Covered storage text s fuel (push_all roots []) [] found (λ k j ks m ek mj. cc) e in
      (
        loop-Reaches storage text s roots fuel (push_all roots []) [] found
            (λ j m. Reaches.root (ground (arith, m, includes-push_all roots [] j))) (λ j m. cc) e k,
        reached-IsClosed storage text s roots found
            (λ j m. c.0 j (ground (arith, m, includes-push_all roots [] j))) c.1 k,
      )

  -- A finite set of keys that are all readable and whose children are in it.
  pub record IsUniverse (all_keys : List Key) : Type 0 where
    pub below : (k : Key) → HasKey all_keys k → List Key
    pub read : (k : Key) (m : HasKey all_keys k) → child_keys storage s text k ≡ ok (below k m)
    pub inside : (k j : Key) (m : HasKey all_keys k) → HasKey (below k m) j → HasKey all_keys j

  abbrev count_ok : Result CasError (List Key) → ℕ
  count_ok (ok ks) = length ks
  count_ok (err e) = 0

  -- How many keys the rounds over keys not seen yet can push.
  abbrev pub pushes : List Key → List Key → ℕ
  pushes [] seen = 0
  pushes (k ∷ ks) seen =
      (if includes seen k then 0 else count_ok (child_keys storage s text k)) + pushes ks seen

  pushes-add-le : (ks seen : List Key) (key : Key) → pushes ks (add_key seen key) ≤ pushes ks seen
  pushes-add-le [] seen key = omega arith
  pushes-add-le (k ∷ ks) seen key =
      ground (arith, pushes-add-le ks seen key, includes-add seen key k)

  pushes-add :
      (ks seen : List Key) (key : Key)
      → HasKey ks key
      → includes seen key ≡ false
      → pushes ks (add_key seen key) + count_ok (child_keys storage s text key) ≤ pushes ks seen
  unfolding includes
  pushes-add [] seen key m i = cc
  pushes-add (k ∷ ks) seen key m i = elim (Bool-cases (same_key k key)) [
    | inl e ↦
        let same : k ≡ key = (same_key_iff k key).0 e in
        let added : includes (add_key seen key) key ≡ true =
          ground (arith, includes-add seen key key, same_key_self key) in
        rw (same, added, i) (omega (arith, pushes-add-le ks seen key))
    | inr e ↦
        let later : HasKey ks key = ground (arith, m) in
        ground (arith, pushes-add ks seen key later i, includes-add seen key k)
  ]

  loop-total :
      (all_keys : List Key)
      → IsUniverse all_keys
      → (fuel : ℕ) (stack seen : List Key) → ((k : Key) → HasKey stack k → HasKey all_keys k)
      → length stack + pushes all_keys seen ≤ fuel
      → (found : List Key) × (reach_loop storage s text fuel stack seen ≡ ok found)
  unfolding reach_loop includes
  loop-total all_keys u zero [] seen h le = (seen, refl)
  loop-total all_keys u zero (key ∷ stack) seen h le = absurd (omega arith)
  loop-total all_keys u (suc fuel) [] seen h le = (seen, refl)
  loop-total all_keys u (suc fuel) (key ∷ stack) seen h le = elim (Bool-cases (includes seen key)) [
    | inl i ↦
        rw i (loop-total all_keys u fuel stack seen (λ k m. h k (ground (arith, m))) (omega arith))
    | inr i ↦
        let here : HasKey all_keys key = h key (rw (same_key_self key) refl) in
        let children = u.below key here in
        let counted : count_ok (child_keys storage s text key) ≡ length children =
          rw (u.read key here) refl in
        let rest =
          loop-total all_keys u fuel (push_all children stack) (add_key seen key)
            (λ k m. elim (Bool-cases (includes children k)) [
              | inl c ↦ u.inside key k here c
              | inr c ↦ h k (ground (arith, m, includes-push_all children stack k))
            ])
            (omega (
              arith,
              pushes-add all_keys seen key here i,
              counted,
              length-push_all children stack,
            )) in
        rw i (rest.0, rw (u.read key here) rest.1)
  ]

  -- If the roots lie in a finite set of readable keys that holds the children of its keys, the loop ends
  -- within as many rounds as there are roots and children of keys of the set.
  pub reachable_keys-total :
      (all_keys roots : List Key)
      → IsUniverse all_keys
      → ((k : Key) → HasKey roots k → HasKey all_keys k)
      → (found : List Key) × (reachable_keys storage s text
            (length roots + pushes all_keys [])
            roots
          ≡ ok found)
  unfolding reachable_keys includes
  reachable_keys-total all_keys roots u h =
      loop-total all_keys u (length roots + pushes all_keys []) (push_all roots []) []
        (λ k m. h k (ground (arith, m, includes-push_all roots [] k)))
        (omega (arith, length-push_all roots []))
