-- ===== src/Email/Laws.antt =====
-- What `Email(value)` accepts, that accepting is idempotent, and the two parts of an address.
use financial_data.Prelude.{
  ℕ, ◌≡◌, ◌≤◌, ◌↔◌, refl, Bool, true, not, ◌&&◌, [], ◌∷◌, ◌++◌, some, ◌==◌, length, all, all-append,
  all_mono, arith,
}
use financial_data.Text.{Text, strip, lower, is_space}
use financial_data.Text.Laws.{lower-lower, strip_of_solid}
use financial_data.Result.{ok}
use financial_data.Email.{
  Email, is_letter, is_domain, is_local, is_tld, matches, check, new, split, domain, local_part,
  max_length,
}
use financial_data.Email.Grammar.{IsAddress, IsHost, matches-IsAddress, matches_iff}

-- What the class promises of its value.
pub record IsValid (e : Email) : Type 0 where
  pub address : IsAddress e.value
  pub short : length e.value ≤ max_length
  pub lowered : lower e.value ≡ e.value
  pub stripped : strip e.value ≡ e.value

solid : ℕ → Bool
solid c = not (is_space c)

is_local-solid : (c : ℕ) → is_local c ≡ true → solid c ≡ true
unfolding is_local is_space solid
is_local-solid c h = ground arith

is_domain-solid : (c : ℕ) → is_domain c ≡ true → solid c ≡ true
unfolding is_domain is_space solid
is_domain-solid c h = ground arith

is_letter-solid : (c : ℕ) → is_letter c ≡ true → solid c ≡ true
unfolding is_letter is_space solid
is_letter-solid c h = ground arith

tld-letters : (s : Text) → is_tld s ≡ true → all is_letter s ≡ true
unfolding is_tld
tld-letters s h = ground arith

no_address_nil : ¬ IsAddress []
no_address_nil a = nil_split a.name a.rest a.split
  where
    nil_split : (s t : Text) → ◌≡◌ {A = Text} [] (s ++ b'@' ∷ t) → ⊥
    nil_split [] t p = cc
    nil_split (c ∷ s) t p = cc

Email_eq : (e : Email) (s : Text) → e.value ≡ s → e ≡ record { value = s }
Email_eq e s p = λ i. record { value = p i }

tld-solid : (s : Text) → is_tld s ≡ true → all solid s ≡ true
tld-solid s h = all_mono is_letter solid is_letter-solid s (tld-letters s h)

and_intro : (a b : Bool) → a ≡ true → b ≡ true → (a && b) ≡ true
and_intro a b p q = ground arith

IsHost-solid : (s : Text) → IsHost s → all solid s ≡ true
unfolding all
IsHost-solid s h =
    rw (h.split, all-append solid h.dom (b'.' ∷ h.tld))
      (and_intro (all solid h.dom) (solid b'.' && all solid h.tld)
        (all_mono is_domain solid is_domain-solid h.dom h.dom_chars)
        (and_intro (solid b'.') (all solid h.tld) (unfold solid is_space in refl)
          (tld-solid h.tld h.tld_chars)))

-- There is no white space in an address.
IsAddress-solid : (s : Text) → IsAddress s → all solid s ≡ true
unfolding all
IsAddress-solid s a =
    rw (a.split, all-append solid a.name (b'@' ∷ a.rest))
      (and_intro (all solid a.name) (solid b'@' && all solid a.rest)
        (all_mono is_local solid is_local-solid a.name a.name_chars)
        (and_intro (solid b'@') (all solid a.rest) (unfold solid is_space in refl)
          (IsHost-solid a.rest a.host)))

IsAddress-strip : (s : Text) → IsAddress s → strip s ≡ s
unfolding solid
IsAddress-strip s a = strip_of_solid s (IsAddress-solid s a)

check-ok :
    (n : Text) (e : Email)
    → check n ≡ ok e
    → (matches n ≡ true) × (length n ≤ max_length) × (e.value ≡ n)
unfolding check
check-ok [] e h = cc
check-ok (c ∷ n) e h = ground arith

check_of_address :
    (n : Text) → IsAddress n → length n ≤ max_length → check n ≡ ok (record { value = n })
unfolding check
check_of_address [] a l = absurd (no_address_nil a)
check_of_address (c ∷ n) a l = rw ((matches_iff (c ∷ n)).1 a) (ground arith)

-- What `Email(value)` accepts is kept lower-cased and stripped, and is a short address.
pub new-IsValid : (v : Text) (e : Email) → new v ≡ ok e → IsValid e × (e.value ≡ lower (strip v))
unfolding new
new-IsValid v e h =
    let (m, l, eq) = check-ok (lower (strip v)) e h in
    let a = matches-IsAddress (lower (strip v)) m in
    let valid : IsValid (record { value = lower (strip v) }) = record {
      address = a;
      short = l;
      lowered = lower-lower (strip v);
      stripped = IsAddress-strip (lower (strip v)) a;
    } in
    (rw (Email_eq e (lower (strip v)) eq) valid, eq)

-- `Email(value)` is accepted exactly when the lower-cased, stripped text is an address of at most
-- 254 characters.
pub new_iff :
    (v : Text)
    → (IsAddress (lower (strip v)) × (length (lower (strip v)) ≤ max_length))
      ↔ (new v ≡ ok (record { value = lower (strip v) }))
unfolding new
new_iff v = (
  λ p. check_of_address (lower (strip v)) p.0 p.1,
  λ h.
      let (m, l, _) = check-ok (lower (strip v)) (record { value = lower (strip v) }) h in
      (matches-IsAddress (lower (strip v)) m, l),
)

-- An email that was accepted once is accepted again and unchanged, so the address that `map_user`
-- reads from the database is the address that was stored.
pub new-value : (v : Text) (e : Email) → new v ≡ ok e → new e.value ≡ ok e
unfolding new
new-value v e h =
    let (valid, _) = new-IsValid v e h in
    rw (valid.stripped, valid.lowered) (check_of_address e.value valid.address valid.short)

no_at : ℕ → Bool
no_at c = not (c == b'@')

split_of_no_at : (s : Text) → all no_at s ≡ true → split b'@' s ≡ s ∷ []
unfolding split all no_at
split_of_no_at [] h = refl
split_of_no_at (c ∷ s) h = rw (split_of_no_at s (ground arith)) (ground arith)

split_at :
    (s t : Text) → all no_at s ≡ true → all no_at t ≡ true → split b'@' (s ++ b'@' ∷ t) ≡ s ∷ t ∷ []
unfolding split all no_at
split_at [] t h k = rw (split_of_no_at t k) refl
split_at (c ∷ s) t h k = rw (split_at s t (ground arith) k) (ground arith)

is_local-no_at : (c : ℕ) → is_local c ≡ true → no_at c ≡ true
unfolding is_local no_at
is_local-no_at c h = ground arith

is_domain-no_at : (c : ℕ) → is_domain c ≡ true → no_at c ≡ true
unfolding is_domain no_at
is_domain-no_at c h = ground arith

is_letter-no_at : (c : ℕ) → is_letter c ≡ true → no_at c ≡ true
unfolding is_letter no_at
is_letter-no_at c h = ground arith

IsHost-no_at : (s : Text) → IsHost s → all no_at s ≡ true
unfolding all is_tld
IsHost-no_at s h =
    rw (h.split, all-append no_at h.dom (b'.' ∷ h.tld))
      (and_intro (all no_at h.dom) (no_at b'.' && all no_at h.tld)
        (all_mono is_domain no_at is_domain-no_at h.dom h.dom_chars)
        (and_intro (no_at b'.') (all no_at h.tld) (unfold no_at in refl)
          (all_mono is_letter no_at is_letter-no_at h.tld (tld-letters h.tld h.tld_chars))))

-- The two parts of an accepted email, joined by `@`, are the email: neither raises an IndexError.
pub local_part-domain :
    (v : Text) (e : Email)
    → new v ≡ ok e
    → (name host : Text) × (local_part e ≡ some name)
      × (domain e ≡ some host)
      × (e.value ≡ name ++ b'@' ∷ host)
unfolding local_part domain
local_part-domain v e h =
    let a = (new-IsValid v e h).0.address in
    let parts =
      split_at a.name a.rest (all_mono is_local no_at is_local-no_at a.name a.name_chars)
        (IsHost-no_at a.rest a.host) in
    (a.name, a.rest, rw (a.split, parts) refl, rw (a.split, parts) refl, a.split)
