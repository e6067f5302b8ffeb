-- ===== src/Entities/Ids.antt =====
-- Lists of things with identifiers, as the permissions of a role and the roles of a user: a thing
-- is appended unless its identifier is there, and taken away by its identifier.
use financial_data.Prelude.{
  ◌&&◌, ℕ, ◌≡◌, refl, Bool, true, false, not, ◌||◌, List, [], ◌∷◌, ◌++◌, ◌==◌, any, select, arith,
  Bool-cases, inl, inr,
}

module _ {A : Type 0} (id : A → ℕ) where
  -- any(x.id == a for x in xs)
  abbrev pub has_id : ℕ → List A → Bool
  has_id a xs = any (λ x. id x == a) xs

  -- No identifier is listed twice.
  abbrev pub DistinctIds : List A → Type 0
  DistinctIds [] = Unit
  DistinctIds (x ∷ xs) = (has_id (id x) xs ≡ false) × DistinctIds xs

  pub has_id-append :
      (x : A) (xs : List A) (a : ℕ) → has_id a (xs ++ x ∷ []) ≡ (has_id a xs || id x == a)
  unfolding any
  has_id-append x [] a = ground arith
  has_id-append x (y ∷ xs) a = ground (arith, has_id-append x xs a)

  pub has_id-append_self : (x : A) (xs : List A) → has_id (id x) (xs ++ x ∷ []) ≡ true
  unfolding any
  has_id-append_self x [] = ground arith
  has_id-append_self x (y ∷ xs) = ground (arith, has_id-append_self x xs)

  pub has_id-held :
      (x : A) (xs : List A) (a : ℕ)
      → has_id (id x) xs ≡ true
      → has_id a xs ≡ (has_id a xs || id x == a)
  has_id-held x xs a e = elim (Bool-cases (id x == a)) [
    | inl p ↦ let q : id x ≡ a = ground arith in rw (p, ← q, e)
    | inr p ↦ ground arith
  ]

  pub has_id-select :
      (a b : ℕ) (xs : List A)
      → has_id a (select (λ x. not (id x == b)) xs) ≡ (has_id a xs && not (a == b))
  unfolding any select
  has_id-select a b [] = refl
  has_id-select a b (x ∷ xs) = ground (arith, has_id-select a b xs)

  pub DistinctIds-append :
      (xs : List A) (x : A) → DistinctIds xs → has_id (id x) xs ≡ false → DistinctIds (xs ++ x ∷ [])
  unfolding any
  DistinctIds-append [] x d e = (refl, tt)
  DistinctIds-append (y ∷ xs) x d e =
      (rw (has_id-append x xs (id y)) (ground arith), DistinctIds-append xs x d.1 (ground arith))

  has_id-select-false :
      (a b : ℕ) (xs : List A)
      → has_id a xs ≡ false
      → has_id a (select (λ x. not (id x == b)) xs) ≡ false
  unfolding any select
  has_id-select-false a b [] h = refl
  has_id-select-false a b (x ∷ xs) h = ground (arith, has_id-select-false a b xs)

  pub DistinctIds-select :
      (b : ℕ) (xs : List A) → DistinctIds xs → DistinctIds (select (λ x. not (id x == b)) xs)
  unfolding select
  DistinctIds-select b [] d = tt
  DistinctIds-select b (x ∷ xs) d = elim (Bool-cases (id x == b)) [
    | inl e ↦ rw e (DistinctIds-select b xs d.1)
    | inr e ↦ rw e (has_id-select-false (id x) b xs d.0, DistinctIds-select b xs d.1)
  ]
