-- ===== src/Core/Validation/Whole.antt =====
-- `validateNode`: what a success says, and when it succeeds.
use casfa.Base.{
  ◌≡◌, refl, sym, ◌∙◌, ap, Bool, true, false, some, List, [], ◌∷◌, length, get_or, All, IsByte,
  Bytes, ok, guard, ◌>>◌, >>=-eq-ok, ==_self, arith,
}
use casfa.Core.Text.{TextDecoder}
use casfa.Core.SizeFlag.{compute_size_flag_byte}
use casfa.Core.Validation.{
  Invalid, Validated, missing_keys, validate_node_structure, validate_node, from_key, no_missing,
}
use casfa.Encoding.Cb32.{encode_cb32, decode_cb32}
use casfa.Encoding.Cb32.RoundTrip.{decode-encode}
use casfa.Storage.{Key, same_key_iff, same_key_self}

abbrev pub AllExist : (Key → Bool) → List Key → Type 0
AllExist exists keys = All (λ k. exists k ≡ true) keys

missing_keys-eq-nil :
    (exists : Key → Bool) (keys : List Key) → missing_keys exists keys ≡ [] → AllExist exists keys
unfolding missing_keys
missing_keys-eq-nil exists [] e = tt
missing_keys-eq-nil exists (k ∷ ks) e = ground (arith, missing_keys-eq-nil exists ks)

missing_keys-AllExist :
    (exists : Key → Bool) (keys : List Key) → AllExist exists keys → missing_keys exists keys ≡ []
unfolding missing_keys
missing_keys-AllExist exists [] h = refl
missing_keys-AllExist exists (k ∷ ks) h = rw (h.0) (missing_keys-AllExist exists ks h.1)

-- The steps behind the structure.
tail-eq-ok :
    (flag_ok key_ok : Bool) (wrong_flag wrong_key : Invalid) (v found : Validated)
    (missing : List Key)
    → (guard flag_ok wrong_flag >> (guard key_ok wrong_key >> (no_missing v missing >> ok v)))
      ≡ ok found
    → (key_ok ≡ true) × (missing ≡ []) × (v ≡ found)
tail-eq-ok false key_ok wf wk v found missing e = cc
tail-eq-ok true false wf wk v found missing e = cc
tail-eq-ok true true wf wk v found [] e = (refl, refl, ground (arith, e))
tail-eq-ok true true wf wk v found (k ∷ ks) e = cc

module _ (text : TextDecoder) (compute_key : Bytes → Bytes) where
  -- What a success of `validateNode` with a checker says.
  pub record IsVerified (exists : Key → Bool) (bytes : Bytes) (key : Key) (found : Validated)
      : Type 0 where
    pub structure : validate_node_structure text bytes ≡ ok found
    pub key_eq : key ≡ encode_cb32 (compute_key bytes)
    pub children : AllExist exists found.child_keys

  -- If `validateNode` with a checker succeeds, the structure of the node is valid, the key is the key of
  -- its bytes, and the checker says of every child key that it exists.
  pub validate_node-eq-ok :
      (exists : Key → Bool) (bytes : Bytes) (key : Key) (found : Validated)
      → validate_node text compute_key (some exists) bytes key ≡ ok found
      → IsVerified exists bytes key found
  unfolding validate_node
  validate_node-eq-ok exists bytes key found e =
      let (v, ev, e1) = >>=-eq-ok (validate_node_structure text bytes) _ e in
      let (hash, ek, e2) = >>=-eq-ok (from_key (decode_cb32 key)) _ e1 in
      let (same, none_missing, eq) =
        tail-eq-ok _ _ _ _ v found (missing_keys exists v.child_keys) e2 in
      record {
        structure = ev ∙ ap ok eq;
        key_eq = sym ((same_key_iff (encode_cb32 (compute_key bytes)) key).0 same);
        children = rw eq at (missing_keys-eq-nil exists v.child_keys none_missing);
      }

  -- `validateNode` succeeds on a node of valid structure under the key of its bytes, if the key is of
  -- bytes below 256 of which the first is the size flag, and the checker says that the children exist.
  pub validate_node-accepts :
      (exists : Key → Bool) (bytes : Bytes) (found : Validated)
      → validate_node_structure text bytes ≡ ok found
      → All IsByte (compute_key bytes)
      → get_or (compute_key bytes) 0 0 ≡ compute_size_flag_byte (length bytes)
      → AllExist exists found.child_keys
      → validate_node text compute_key (some exists) bytes (encode_cb32 (compute_key bytes))
        ≡ ok found
  unfolding validate_node
  validate_node-accepts exists bytes found e hb flag below =
      rw
        (
          e,
          decode-encode (compute_key bytes) hb,
          flag,
          ==_self (compute_size_flag_byte (length bytes)),
          same_key_self (encode_cb32 (compute_key bytes)),
          missing_keys-AllExist exists found.child_keys below,
        )
        refl
