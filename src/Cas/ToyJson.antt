-- ===== src/Cas/ToyJson.antt =====
-- A concrete codec for the blobs, which shows that its laws can be met: a key is written as its codes plus
-- one, and a zero ends it.
use casfa.Base.{
  ℕ, zero, suc, ◌≡◌, ◌≢◌, refl, ◌∙◌, ap, List, [], ◌∷◌, ◌++◌, append_assoc, append-nil, Bytes,
  Option, none, some, ok, Result,
}
use casfa.Storage.{Key}
use casfa.Cas.{CasError, JsonCodec, Times, Meta}

abbrev pub flat_key : Key → Bytes → Bytes
flat_key [] rest = 0 ∷ rest
flat_key (c ∷ k) rest = suc c ∷ flat_key k rest

abbrev pub flat_keys : List Key → Bytes
flat_keys [] = []
flat_keys (k ∷ ks) = flat_key k (flat_keys ks)

abbrev pub split_keys : Key → Bytes → List Key
split_keys current [] = []
split_keys current (zero ∷ bytes) = current ∷ split_keys [] bytes
split_keys current (suc c ∷ bytes) = split_keys (current ++ (c ∷ [])) bytes

split_keys-flat_key :
    (current k : Key) (rest : Bytes)
    → split_keys current (flat_key k rest) ≡ (current ++ k) ∷ split_keys [] rest
split_keys-flat_key current [] rest = rw (append-nil current) refl
split_keys-flat_key current (c ∷ k) rest =
    rw (split_keys-flat_key (current ++ (c ∷ [])) k rest)
      (rw (append_assoc current (c ∷ []) k) refl)

pub split_keys-flat_keys : (ks : List Key) → split_keys [] (flat_keys ks) ≡ ks
split_keys-flat_keys [] = refl
split_keys-flat_keys (k ∷ ks) =
    split_keys-flat_key [] k (flat_keys ks) ∙ ap (λ t. k ∷ t) (split_keys-flat_keys ks)

abbrev pub flat_times : Times → Bytes
flat_times [] = []
flat_times ((k, t) ∷ rest) = flat_key k (t ∷ flat_times rest)

abbrev pub split_times : Key → Bytes → Times
split_times current [] = []
split_times current (zero ∷ []) = []
split_times current (zero ∷ (t ∷ bytes)) = (current, t) ∷ split_times [] bytes
split_times current (suc c ∷ bytes) = split_times (current ++ (c ∷ [])) bytes

split_times-flat_key :
    (current k : Key) (t : ℕ) (rest : Bytes)
    → split_times current (flat_key k (t ∷ rest)) ≡ (current ++ k, t) ∷ split_times [] rest
split_times-flat_key current [] t rest = rw (append-nil current) refl
split_times-flat_key current (c ∷ k) t rest =
    rw (split_times-flat_key (current ++ (c ∷ [])) k t rest)
      (rw (append_assoc current (c ∷ []) k) refl)

pub split_times-flat_times : (ts : Times) → split_times [] (flat_times ts) ≡ ts
split_times-flat_times [] = refl
split_times-flat_times ((k, t) ∷ rest) =
    split_times-flat_key [] k t (flat_times rest)
    ∙ ap (λ u. (k, t) ∷ u) (split_times-flat_times rest)

abbrev pub flat_time : Option ℕ → Bytes
flat_time none = 1 ∷ []
flat_time (some t) = 1 ∷ t ∷ []

abbrev pub tail_of : {A : Type 0} → (Bytes → A) → Bytes → Result CasError (Option A)
tail_of f [] = ok none
tail_of f (b ∷ bytes) = ok (some (f bytes))

abbrev pub split_meta : Bytes → Meta
split_meta [] = record { last_gc_time = none }
split_meta (t ∷ bytes) = record { last_gc_time = some t }

pub split_meta-flat_time :
    (o : Option ℕ) → tail_of split_meta (flat_time o) ≡ ok (some (record { last_gc_time = o }))
split_meta-flat_time none = refl
split_meta-flat_time (some t) = refl

pub flat_time-nonempty : (o : Option ℕ) → flat_time o ≢ []
flat_time-nonempty none e = cc
flat_time-nonempty (some t) e = cc

abbrev pub toy_json : JsonCodec
toy_json = record {
  print_keys = λ ks. 1 ∷ flat_keys ks;
  parse_keys = tail_of (split_keys []);
  print_times = λ ts. 1 ∷ flat_times ts;
  parse_times = tail_of (split_times []);
  print_meta = λ m. flat_time m.last_gc_time;
  parse_meta = tail_of split_meta;
  keys_nonempty = λ ks e. cc;
  times_nonempty = λ ts e. cc;
  meta_nonempty = λ m. flat_time-nonempty m.last_gc_time;
  parse-print_keys = λ ks. rw (split_keys-flat_keys ks) refl;
  parse-print_times = λ ts. rw (split_times-flat_times ts) refl;
  parse-print_meta = λ m. split_meta-flat_time m.last_gc_time;
}
