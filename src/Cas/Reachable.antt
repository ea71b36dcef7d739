-- ===== src/Cas/Reachable.antt =====
-- `reachableKeys` of packages/cas/src/cas-service.ts finds the keys that the roots reach, no more and no
-- fewer, and its loop ends.
use casfa.Base.{
  ℕ, zero, suc, ◌+◌, ◌≡◌, refl, true, List, [], ◌∷◌, length, arith, ok, Bool-cases, inl, inr,
  >>=-eq-ok, ◌||◌,
}
use casfa.Core.Text.{TextDecoder}
use casfa.Storage.{Key, StorageProvider, same_key_iff, same_key_self}
use casfa.Cas.{includes, add_key}
use casfa.Cas.Lookup.{push_all, child_keys, reach_loop}
use casfa.Cas.Keys.{HasKey, includes-add}

pub includes-push_all :
    (ks stack : List Key) (j : Key)
    → includes (push_all ks stack) j ≡ (includes ks j || includes stack j)
unfolding push_all includes
includes-push_all [] stack j = refl
includes-push_all (k ∷ ks) stack j = ground (arith, includes-push_all ks (k ∷ stack) j)

pub length-push_all : (ks stack : List Key) → length (push_all ks stack) ≡ length ks + length stack
unfolding push_all
length-push_all [] stack = omega arith
length-push_all (k ∷ ks) stack = omega (arith, length-push_all ks (k ∷ stack))

module _ (storage : StorageProvider) (text : TextDecoder) (s : storage.State) where
  -- A root reaches itself, and with a key the keys of the children of its node.
  pub data Reaches (roots : List Key) : Key → Type 0 where
    root : {k : Key} → HasKey roots k → Reaches roots k
    child :
        {k j : Key} {ks : List Key}
        → Reaches roots k
        → child_keys storage s text k ≡ ok ks
        → HasKey ks j
        → Reaches roots j

  pub loop-Reaches :
      (roots : List Key) (fuel : ℕ) (stack seen found : List Key)
      → ((k : Key) → HasKey stack k → Reaches roots k)
      → ((k : Key) → HasKey seen k → Reaches roots k)
      → reach_loop storage s text fuel stack seen ≡ ok found
      → (k : Key) → HasKey found k
      → Reaches roots k
  unfolding reach_loop includes
  loop-Reaches roots zero [] seen found hs hd e k m =
      hd k (let q : seen ≡ found = ground arith in rw q m)
  loop-Reaches roots zero (key ∷ stack) seen found hs hd e k m = cc
  loop-Reaches roots (suc fuel) [] seen found hs hd e k m =
      hd k (let q : seen ≡ found = ground arith in rw q m)
  loop-Reaches roots (suc fuel) (key ∷ stack) seen found hs hd e k m =
      elim (Bool-cases (includes seen key)) [
        | inl i ↦
            loop-Reaches roots fuel stack seen found (λ j h. hs j (ground (arith, h))) hd
              (rw i at e) k m
        | inr i ↦
            let here : Reaches roots key = hs key (rw (same_key_self key) refl) in
            let (children, ec, er) = >>=-eq-ok (child_keys storage s text key) _ (rw i at e) in
            loop-Reaches roots fuel (push_all children stack) (add_key seen key) found
              (λ j h. elim (Bool-cases (includes children j)) [
                | inl c ↦ Reaches.child here ec c
                | inr c ↦ hs j (ground (arith, includes-push_all children stack j))
              ])
              (λ j h. elim (Bool-cases (includes seen j)) [
                | inl d ↦ hd j d
                | inr d ↦
                    let same : key ≡ j =
                      ground (arith, includes-add seen key j, same_key_iff key j) in
                    rw (← same) here
              ])
              er k m
      ]

  -- Of every key that was seen, the children were seen too or wait on the stack.
  abbrev pub Covered : List Key → List Key → Type 0
  Covered seen stack =
      (k j : Key) (ks : List Key)
      → HasKey seen k
      → child_keys storage s text k ≡ ok ks
      → HasKey ks j
      → (includes seen j || includes stack j) ≡ true

  pub loop-Covered :
      (fuel : ℕ) (stack seen found : List Key)
      → Covered seen stack
      → reach_loop storage s text fuel stack seen ≡ ok found
      → ((j : Key) → (includes seen j || includes stack j) ≡ true → HasKey found j)
        × Covered found []
  unfolding reach_loop includes
  loop-Covered zero [] seen found h e =
      let q : seen ≡ found = ground arith in rw (← q) ((λ j m. ground (arith, m)), h)
  loop-Covered zero (key ∷ stack) seen found h e = cc
  loop-Covered (suc fuel) [] seen found h e =
      let q : seen ≡ found = ground arith in rw (← q) ((λ j m. ground (arith, m)), h)
  loop-Covered (suc fuel) (key ∷ stack) seen found h e = elim (Bool-cases (includes seen key)) [
    | inl i ↦
        let rest =
          loop-Covered fuel stack seen found
            (λ k j ks hk ek hj. ground (arith, h k j ks hk ek hj, same_key_iff key j))
            (rw i at e) in
        ((λ j m. rest.0 j (ground (arith, m, same_key_iff key j))), rest.1)
    | inr i ↦
        let (children, ec, er) = >>=-eq-ok (child_keys storage s text key) _ (rw i at e) in
        let rest =
          loop-Covered fuel (push_all children stack) (add_key seen key) found
            (λ k j ks hk ek hj. elim (Bool-cases (includes seen k)) [
              | inl d ↦ ground (
                arith,
                h k j ks d ek hj,
                includes-add seen key j,
                includes-push_all children stack j,
              )
              | inr d ↦
                  let same : key ≡ k =
                    ground (arith, includes-add seen key k, same_key_iff key k) in
                  let ks_eq : ks ≡ children = cc in
                  let m : HasKey children j = rw ks_eq at hj in
                  ground (arith, m, includes-add seen key j, includes-push_all children stack j)
            ])
            er in
        (
          (λ j m. rest.0 j (
              ground (
                arith,
                m,
                includes-add seen key j,
                includes-push_all children stack j,
                same_key_iff key j,
              ))),
          rest.1,
        )
  ]

  pub reached-IsClosed :
      (roots : List Key) (found : List Key)
      → ((j : Key) → HasKey roots j → HasKey found j)
      → Covered found []
      → (k : Key) → Reaches roots k
      → HasKey found k
  unfolding includes
  reached-IsClosed roots found hr hc k (Reaches.root m) = hr k m
  reached-IsClosed roots found hr hc k (Reaches.child {k = p} {ks = ks} r ec m) =
      ground (arith, hc p k ks (reached-IsClosed roots found hr hc p r) ec m)
