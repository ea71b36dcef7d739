-- ===== src/Drive/Paths/Laws.antt =====
-- What `normalizePath` returns, and that it reads back the paths that are joined of such segments.
use casfa.Base.{
  ℕ, Bool, true, false, ◌&&◌, not, List, [], ◌∷◌, ◌++◌, ◌≡◌, refl, ap, ◌∙◌, ◌==◌, arith, All, ok,
  Bool-cases, inl, inr,
}
use casfa.Core.Text.{Text}
use casfa.Drive.Paths.{
  slash, is_empty, skip_slashes, drop_end_slashes, onto_first, split_slash, join_slash,
  non_empty_parts, is_dots, some_dots, normalize_path,
}

abbrev pub lacks_slash : Text → Bool
lacks_slash [] = true
lacks_slash (c ∷ s) = not (c == slash) && lacks_slash s

-- A name that a path can have as a segment.
pub record IsSegment (p : Text) : Type 0 where
  pub nonempty : is_empty p ≡ false
  pub whole : lacks_slash p ≡ true
  pub named : is_dots p ≡ false

split-whole : (p : Text) → lacks_slash p ≡ true → split_slash p ≡ p ∷ []
unfolding split_slash
split-whole [] h = refl
split-whole (c ∷ p) h = ground (arith, split-whole p)

split-append :
    (p s : Text) → lacks_slash p ≡ true → split_slash (p ++ (slash ∷ s)) ≡ p ∷ split_slash s
unfolding split_slash
split-append [] s h = refl
split-append (c ∷ p) s h = ground (arith, split-append p s)

pub split-join :
    (p : Text) (ps : List Text)
    → All IsSegment (p ∷ ps)
    → split_slash (join_slash (p ∷ ps)) ≡ p ∷ ps
unfolding join_slash
split-join p [] h = split-whole p h.0.whole
split-join p (q ∷ ps) h =
    split-append p (join_slash (q ∷ ps)) h.0.whole ∙ ap (λ t. p ∷ t) (split-join q ps h.1)

drop_end-whole : (p : Text) → lacks_slash p ≡ true → drop_end_slashes p ≡ p
unfolding drop_end_slashes
drop_end-whole [] h = refl
drop_end-whole (c ∷ p) h = ground (arith, drop_end-whole p)

drop_end-append :
    (p s : Text)
    → lacks_slash p ≡ true
    → is_empty s ≡ false
    → drop_end_slashes s ≡ s
    → drop_end_slashes (p ++ (slash ∷ s)) ≡ p ++ (slash ∷ s)
unfolding drop_end_slashes
drop_end-append [] s h n e = rw e (rw n refl)
drop_end-append (c ∷ p) s h n e = ground (arith, drop_end-append p s)

append-nonempty : (p s : Text) → is_empty p ≡ false → is_empty (p ++ s) ≡ false
append-nonempty [] s h = cc
append-nonempty (c ∷ p) s h = refl

pub join-nonempty :
    (p : Text) (ps : List Text) → is_empty p ≡ false → is_empty (join_slash (p ∷ ps)) ≡ false
unfolding join_slash
join-nonempty p [] h = h
join-nonempty p (q ∷ ps) h = append-nonempty p _ h

drop_end-join :
    (p : Text) (ps : List Text)
    → All IsSegment (p ∷ ps)
    → drop_end_slashes (join_slash (p ∷ ps)) ≡ join_slash (p ∷ ps)
unfolding join_slash
drop_end-join p [] h = drop_end-whole p h.0.whole
drop_end-join p (q ∷ ps) h =
    drop_end-append p (join_slash (q ∷ ps)) h.0.whole (join-nonempty q ps h.1.0.nonempty)
      (drop_end-join q ps h.1)

skip-append :
    (p s : Text) → is_empty p ≡ false → lacks_slash p ≡ true → skip_slashes (p ++ s) ≡ p ++ s
unfolding skip_slashes
skip-append [] s n h = cc
skip-append (c ∷ p) s n h = ground arith

skip-whole : (p : Text) → lacks_slash p ≡ true → skip_slashes p ≡ p
unfolding skip_slashes
skip-whole [] h = refl
skip-whole (c ∷ p) h = ground arith

skip-join :
    (p : Text) (ps : List Text)
    → IsSegment p
    → skip_slashes (join_slash (p ∷ ps)) ≡ join_slash (p ∷ ps)
unfolding join_slash
skip-join p [] h = skip-whole p h.whole
skip-join p (q ∷ ps) h = skip-append p _ h.nonempty h.whole

pub non_empty_parts-All : (ps : List Text) → All IsSegment ps → non_empty_parts ps ≡ ps
unfolding non_empty_parts
non_empty_parts-All [] h = refl
non_empty_parts-All (p ∷ ps) h = rw (h.0.nonempty) (rw (non_empty_parts-All ps h.1) refl)

some_dots-All : (ps : List Text) → All IsSegment ps → some_dots ps ≡ false
unfolding some_dots
some_dots-All [] h = refl
some_dots-All (p ∷ ps) h = rw (h.0.named) (some_dots-All ps h.1)

-- The path that is joined of segments which are not empty, have no slash and are not "." or ".." is read
-- back as these segments.
pub normalize-join : (ps : List Text) → All IsSegment ps → normalize_path (join_slash ps) ≡ ok ps
unfolding normalize_path
normalize-join [] h = unfold join_slash skip_slashes drop_end_slashes in refl
normalize-join (p ∷ ps) h = rw (skip-join p ps h.0) (
    rw (drop_end-join p ps h) (
      rw (join-nonempty p ps h.0.nonempty) (
        rw (split-join p ps h)
          (rw (non_empty_parts-All (p ∷ ps) h) (rw (some_dots-All (p ∷ ps) h) refl)))))

onto_first-whole :
    (c : ℕ) (ps : List Text)
    → (c == slash) ≡ false
    → All (λ p. lacks_slash p ≡ true) ps
    → All (λ p. lacks_slash p ≡ true) (onto_first c ps)
onto_first-whole c [] n h = (ground (arith, n), tt)
onto_first-whole c (p ∷ ps) n h = (ground (arith, n, h.0), h.1)

split-pieces : (s : Text) → All (λ p. lacks_slash p ≡ true) (split_slash s)
unfolding split_slash
split-pieces [] = (refl, tt)
split-pieces (c ∷ s) = elim (Bool-cases (c == slash)) [
  | inl e ↦ rw e (refl, split-pieces s)
  | inr n ↦ rw n (onto_first-whole c (split_slash s) n (split-pieces s))
]

parts-IsSegment :
    (ps : List Text)
    → All (λ p. lacks_slash p ≡ true) ps
    → some_dots (non_empty_parts ps) ≡ false
    → All IsSegment (non_empty_parts ps)
unfolding non_empty_parts some_dots
parts-IsSegment [] h d = tt
parts-IsSegment (p ∷ ps) h d = elim (Bool-cases (is_empty p)) [
  | inl e ↦ rw e (parts-IsSegment ps h.1 (rw e at d))
  | inr n ↦
      let d2 = rw n at d in
      elim (Bool-cases (is_dots p)) [
        | inl dots ↦ absurd (ground (arith, d2, dots))
        | inr named ↦ rw n (
          record { nonempty = n; whole = h.0; named = named },
          parts-IsSegment ps h.1 (rw named at d2),
        )
      ]
]

-- Every segment of a path that normalizePath accepts is not empty, has no slash and is not "." or "..".
pub normalize-IsSegment :
    (path : Text) (ps : List Text) → normalize_path path ≡ ok ps → All IsSegment ps
unfolding normalize_path
normalize-IsSegment path ps e =
    let trimmed = drop_end_slashes (skip_slashes path) in
    let parts = non_empty_parts (split_slash trimmed) in
    elim (Bool-cases (is_empty trimmed)) [
      | inl i ↦ let same : [] ≡ ps = ground (arith, e, i) in rw (← same) tt
      | inr i ↦ elim (Bool-cases (some_dots parts)) [
        | inl d ↦ absurd (ground (arith, e, i, d))
        | inr d ↦
            let same : parts ≡ ps = ground (arith, e, i, d) in
            rw (← same) (parts-IsSegment (split_slash trimmed) (split-pieces trimmed) d)
      ]
    ]
