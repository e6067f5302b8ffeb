-- ===== src/Tests/Codec.antt =====
-- A token format that keeps the promise of the signed tokens: claims written as a list of numbers.
use financial_data.Prelude.{
  ℕ, zero, suc, ◌≤◌, ◌≡◌, refl, Option, none, some, List, [], ◌∷◌, ◌++◌, length, leb, if◌then◌else◌,
  arith,
}
use financial_data.Text.{Text}
use financial_data.Crypto.{Payload, TokenContext}

abbrev put_number : Option ℕ → Text → Text
put_number none r = 0 ∷ r
put_number (some n) r = suc n ∷ r

abbrev get_number : Text → Option ℕ × Text
get_number [] = (none, [])
get_number (zero ∷ r) = (none, r)
get_number (suc n ∷ r) = (some n, r)

abbrev split_at : ℕ → Text → Text × Text
split_at zero r = ([], r)
split_at (suc n) [] = ([], [])
split_at (suc n) (c ∷ r) = let (s, r') = split_at n r in (c ∷ s, r')

abbrev put_texts : List Text → Text → Text
put_texts [] r = r
put_texts (s ∷ l) r = length s ∷ s ++ put_texts l r

abbrev get_texts : ℕ → Text → List Text × Text
get_texts zero r = ([], r)
get_texts (suc n) [] = ([], [])
get_texts (suc n) (k ∷ r) =
    let (s, r') = split_at k r in let (l, r'') = get_texts n r' in (s ∷ l, r'')

abbrev get_list : Text → List Text × Text
get_list [] = ([], [])
get_list (n ∷ r) = get_texts n r

get_number-put_number : (o : Option ℕ) (r : Text) → get_number (put_number o r) ≡ (o, r)
get_number-put_number none r = refl
get_number-put_number (some n) r = refl

split_at-length : (s r : Text) → split_at (length s) (s ++ r) ≡ (s, r)
split_at-length [] r = refl
split_at-length (c ∷ s) r = rw (split_at-length s r) refl

get_texts-put_texts : (l : List Text) (r : Text) → get_texts (length l) (put_texts l r) ≡ (l, r)
get_texts-put_texts [] r = refl
get_texts-put_texts (s ∷ l) r = rw (split_at-length s (put_texts l r), get_texts-put_texts l r) refl

abbrev write_claims : Payload → Text
write_claims p = put_number p.sub (
    put_number p.jti (
      put_number p.exp (
        p.iat
        ∷ length p.roles
        ∷ put_texts p.roles (length p.permissions ∷ put_texts p.permissions []))))

abbrev read_rest : Option ℕ → Option ℕ → Option ℕ → Text → Option Payload
read_rest sub jti exp [] = none
read_rest sub jti exp (iat ∷ r) =
    let (roles, r') = get_list r in
    let (permissions, r'') = get_list r' in
    some (record {
      sub = sub;
      roles = roles;
      permissions = permissions;
      jti = jti;
      iat = iat;
      exp = exp;
    })

abbrev read_claims : Text → Option Payload
read_claims s =
    let (sub, r) = get_number s in
    let (jti, r') = get_number r in let (exp, r'') = get_number r' in read_rest sub jti exp r''

-- A token is valid up to the second of its expiry.
abbrev in_time : ℕ → Option Payload → Option Payload
in_time now none = none
in_time now (some p) = elim p.exp [ none ↦ some p | some t ↦ if leb now t then some p else none ]

pub read_claims-write_claims : (p : Payload) → read_claims (write_claims p) ≡ some p
read_claims-write_claims p =
    rw
      (
        get_number-put_number p.sub _,
        get_number-put_number p.jti _,
        get_number-put_number p.exp _,
        get_texts-put_texts p.roles _,
        get_texts-put_texts p.permissions _,
      )
      refl

pub in_time_lem :
    (now t : ℕ) (p : Payload) → p.exp ≡ some t → now ≤ t → in_time now (some p) ≡ some p
in_time_lem now t p e h = ground arith

-- Signed tokens that are only written down, and a hash that is the token itself.
abbrev pub tokens : TokenContext
tokens = record {
  encode = write_claims;
  decode = λ now s. in_time now (read_claims s);
  hash = λ s. s;
  decode-encode = λ now t p e h. rw (read_claims-write_claims p) (in_time_lem now t p e h);
}
