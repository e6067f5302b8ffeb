-- ===== src/Email/Grammar.antt =====
-- The pattern `local@domain.tld` as a grammar, and the matcher against it.
use financial_data.Prelude.{
  ◌≡◌, ◌≢◌, ◌↔◌, ◌⊎◌, inl, inr, refl, ap, Bool, true, false, ◌&&◌, [], ◌∷◌, ◌++◌, ◌==◌, all, arith,
  Bool-cases,
}
use financial_data.Text.{Text}
use financial_data.Email.{is_domain, is_local, is_tld, match_domain, match_local, matches}

abbrev Nonempty : Text → Type 0
Nonempty s = s ≢ []

-- A text of the form domain.tld.
pub record IsHost (s : Text) : Type 0 where
  pub dom : Text
  pub tld : Text
  pub dom_chars : all is_domain dom ≡ true
  pub tld_chars : is_tld tld ≡ true
  pub split : s ≡ dom ++ b'.' ∷ tld

-- A text of the form local@domain.tld, with nothing empty and every character of its class.
pub record IsAddress (s : Text) : Type 0 where
  pub name : Text
  pub rest : Text
  pub name_nonempty : name ≢ []
  pub name_chars : all is_local name ≡ true
  pub host : IsHost rest
  pub dom_nonempty : host.dom ≢ []
  pub split : s ≡ name ++ b'@' ∷ rest

match_domain_sound :
    (seen : Bool) (s : Text)
    → match_domain seen s ≡ true
    → (h : IsHost s) × ((seen ≡ true) ⊎ (h.dom ≢ []))
unfolding match_domain all
match_domain_sound seen [] h = cc
match_domain_sound seen (c ∷ s) h = elim (Bool-cases (seen && c == b'.' && is_tld s)) [
  | inl e ↦ (
    record { dom = []; tld = s; dom_chars = refl; tld_chars = ground arith; split = ground arith },
    inl (ground arith),
  )
  | inr e ↦
      let (r, _) = match_domain_sound true s (ground arith) in
      (
        record {
          dom = c ∷ r.dom;
          tld = r.tld;
          dom_chars = ground (arith, r.dom_chars);
          tld_chars = r.tld_chars;
          split = ap (◌∷◌ c) r.split;
        },
        inr (λ p. cc),
      )
]

match_domain_complete :
    (dom tld : Text) (seen : Bool)
    → all is_domain dom ≡ true
    → is_tld tld ≡ true
    → (seen ≡ true) ⊎ (dom ≢ [])
    → match_domain seen (dom ++ b'.' ∷ tld) ≡ true
unfolding match_domain all
match_domain_complete [] tld seen d t (inl e) = ground arith
match_domain_complete [] tld seen d t (inr n) = absurd (n refl)
match_domain_complete (c ∷ dom) tld seen d t n =
    ground (arith, match_domain_complete dom tld true (ground arith) t (inl refl))

match_local_sound :
    (seen : Bool) (s : Text)
    → match_local seen s ≡ true
    → (name rest : Text) × ((seen ≡ true) ⊎ (name ≢ []))
      × (all is_local name ≡ true)
      × (match_domain false rest ≡ true)
      × (s ≡ name ++ b'@' ∷ rest)
unfolding match_local all
match_local_sound seen [] h = cc
match_local_sound seen (c ∷ s) h = elim (Bool-cases (seen && c == b'@' && match_domain false s)) [
  | inl e ↦ ([], s, inl (ground arith), refl, ground arith, ground arith)
  | inr e ↦
      let (name, rest, _, n, d, p) = match_local_sound true s (ground arith) in
      (c ∷ name, rest, inr (λ q. cc), ground arith, d, ap (◌∷◌ c) p)
]

match_local_complete :
    (name rest : Text) (seen : Bool)
    → all is_local name ≡ true
    → match_domain false rest ≡ true
    → (seen ≡ true) ⊎ (name ≢ [])
    → match_local seen (name ++ b'@' ∷ rest) ≡ true
unfolding match_local all
match_local_complete [] rest seen n d (inl e) = ground arith
match_local_complete [] rest seen n d (inr e) = absurd (e refl)
match_local_complete (c ∷ name) rest seen n d e =
    ground (arith, match_local_complete name rest true (ground arith) d (inl refl))

pub matches-IsAddress : (s : Text) → matches s ≡ true → IsAddress s
unfolding matches
matches-IsAddress s h =
    let (name, rest, n, chars, d, split) = match_local_sound false s h in
    let (host, e) = match_domain_sound false rest d in
    record {
      name = name;
      rest = rest;
      name_nonempty = elim n [ inl p ↦ cc | inr q ↦ q ];
      name_chars = chars;
      host = host;
      dom_nonempty = elim e [ inl p ↦ cc | inr q ↦ q ];
      split = split;
    }

pub IsAddress-matches : (s : Text) → IsAddress s → matches s ≡ true
unfolding matches
IsAddress-matches s a =
    rw (a.split, a.host.split)
      (match_local_complete a.name (a.host.dom ++ b'.' ∷ a.host.tld) false a.name_chars
        (match_domain_complete a.host.dom a.host.tld false a.host.dom_chars a.host.tld_chars
          (inr a.dom_nonempty))
        (inr a.name_nonempty))

-- The pattern matches a text exactly when it is local@domain.tld, with a local part and a domain
-- that are not empty, a top level of two letters or more, and every character of its class.
pub matches_iff : (s : Text) → (matches s ≡ true) ↔ IsAddress s
matches_iff s = (matches-IsAddress s, IsAddress-matches s)
