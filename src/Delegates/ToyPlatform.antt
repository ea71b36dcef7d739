-- ===== src/Delegates/ToyPlatform.antt =====
-- A small platform for the tokens: digests of the sum and the length of a text, numbers in unary in place
-- of Base64, and a payload as its parts with their lengths.
use casfa.Base.{
  ℕ, zero, suc, ◌+◌, ◌%◌, ◌≡◌, refl, ap, ◌∙◌, false, Option, none, some, [], ◌∷◌, ◌++◌, arith,
  length, replicate, take, drop, Bytes, if◌then◌else◌, ◌==◌, take-append, drop-append,
}
use casfa.Core.Text.{Text}
use casfa.Drive.Paths.{is_empty}
use casfa.Delegates.Token.{TokenPlatform, TokenPayload, ParsedPayload, drop_padding}
use casfa.Delegates.Token.RoundTrip.{IsTokenPlatform, IsBase64}
use casfa.Delegates.MemoryStore.Index.{some-injective}

abbrev pub sum : Text → ℕ
sum [] = 0
sum (c ∷ s) = c + sum s

abbrev pub toy_digest : Text → Bytes
toy_digest s = sum s % 256 ∷ length s % 256 ∷ replicate 30 0

-- A number in unary, in front of the rest.
abbrev pub unary : ℕ → Text → Text
unary zero rest = b'B' ∷ rest
unary (suc n) rest = b'A' ∷ unary n rest

abbrev pub write : Text → Text
write [] = []
write (c ∷ s) = unary c (write s)

abbrev pub read : ℕ → Text → Text
read n [] = []
read n (c ∷ s) = if c == b'A' then read (suc n) s else n ∷ read 0 s

read-unary : (n k : ℕ) (rest : Text) → read k (unary n rest) ≡ (n + k) ∷ read 0 rest
read-unary zero k rest = let e : 0 + k ≡ k = omega arith in rw e refl
read-unary (suc n) k rest =
    read-unary n (suc k) rest ∙ (let e : n + suc k ≡ suc n + k = omega arith in rw e refl)

pub read-write : (s : Text) → read 0 (write s) ≡ s
read-write [] = refl
read-write (c ∷ s) =
    read-unary c 0 (write s) ∙ (let e : c + 0 ≡ c = omega arith in rw (e, read-write s) refl)

unary-IsBase64 : (n : ℕ) (rest : Text) → IsBase64 rest → IsBase64 (unary n rest)
unary-IsBase64 zero rest h = (refl, h)
unary-IsBase64 (suc n) rest h = (refl, unary-IsBase64 n rest h)

pub write-IsBase64 : (s : Text) → IsBase64 (write s)
write-IsBase64 [] = tt
write-IsBase64 (c ∷ s) = unary-IsBase64 c (write s) (write-IsBase64 s)

drop-unary :
    (n : ℕ) (rest : Text) → drop_padding rest ≡ rest → drop_padding (unary n rest) ≡ unary n rest
unfolding drop_padding
drop-unary zero rest e = ap (λ (s : Text). b'B' ∷ s) e
drop-unary (suc n) rest e = ap (λ (s : Text). b'A' ∷ s) (drop-unary n rest e)

pub drop-write : (s : Text) → drop_padding (write s) ≡ write s
unfolding drop_padding
drop-write [] = refl
drop-write (c ∷ s) = drop-unary c (write s) (drop-write s)

abbrev pub toy_stringify : TokenPayload → Text
toy_stringify p = length p.sub ∷ (p.sub ++ (length p.dlg ∷ (p.dlg ++ (p.iat ∷ []))))

abbrev pub parse_iat : Text → Text → Text → Option ParsedPayload
parse_iat sub dlg [] = none
parse_iat sub dlg (iat ∷ s) = some (record { sub = some sub; dlg = some dlg; iat = some iat })

abbrev pub parse_dlg : Text → Text → Option ParsedPayload
parse_dlg sub [] = none
parse_dlg sub (n ∷ s) = parse_iat sub (take n s) (drop n s)

abbrev pub toy_parse : Text → Option ParsedPayload
toy_parse [] = none
toy_parse (n ∷ s) = parse_dlg (take n s) (drop n s)

pub parse-stringify :
    (p : TokenPayload)
    → toy_parse (toy_stringify p)
      ≡ some (record { sub = some p.sub; dlg = some p.dlg; iat = some p.iat })
parse-stringify p =
    rw
      (
        take-append p.sub (length p.dlg ∷ (p.dlg ++ (p.iat ∷ []))),
        drop-append p.sub (length p.dlg ∷ (p.dlg ++ (p.iat ∷ []))),
      )
      (rw (take-append p.dlg (p.iat ∷ []), drop-append p.dlg (p.iat ∷ [])) refl)

abbrev pub toy_platform : TokenPlatform
toy_platform = record {
  sha256 = toy_digest;
  btoa = λ s. some (write s);
  btoa_bytes = write;
  atob = λ s. some (read 0 s);
  stringify = toy_stringify;
  parse = toy_parse;
}

unary-nonempty : (n : ℕ) (rest : Text) → is_empty (unary n rest) ≡ false
unary-nonempty zero rest = refl
unary-nonempty (suc n) rest = refl

pub toy-IsTokenPlatform : IsTokenPlatform toy_platform
toy-IsTokenPlatform = record {
  digest = λ s. refl;
  btoa = λ s b e. rw (← some-injective e) (write-IsBase64 s);
  btoa_bytes = write-IsBase64;
  atob-btoa = λ p b e.
      rw (← some-injective e)
        (rw (drop-write (toy_stringify p)) (ap some (read-write (toy_stringify p))));
  nonempty = λ p b e.
      rw (← some-injective e) (rw (drop-write (toy_stringify p)) (unary-nonempty (length p.sub) _));
  parse-stringify = parse-stringify;
}
