-- ===== src/Api/Responses/Laws.antt =====
-- PaginatedResponse.build counts the pages that cover the rows.
use native.Mathlib.Nat.{mod-add-div', mod-lt}
use financial_data.Prelude.{
  ℕ, zero, suc, ◌+◌, ◌*◌, ◌-◌, ◌/◌, ◌%◌, ◌≤◌, ◌<◌, ◌≡◌, ◌⊎◌, inl, inr, ap, List, ◌==◌,
  if◌then◌else◌, leb, refl, false, arith, length,
}
use financial_data.Result.{ok}
use financial_data.Repositories.Paging.Laws.{pages, pages_cover}
use financial_data.Api.Responses.{PaginatedResponse, ceiling, build}

not_zero : (r : ℕ) → (suc r == 0) ≡ false
not_zero r = ground arith

not_one : (k : ℕ) → leb (suc (suc k)) 1 ≡ false
not_one k = ground arith

one_more : (q n : ℕ) → (q + 1) * n ≡ q * n + n
one_more q n = omega arith

-- The quotient q and the remainder r of `total` by n.
covers : (total n q r : ℕ) → r + q * n ≡ total → r < n → total ≤ (if r == 0 then q else q + 1) * n
covers total n q zero split bound = omega (arith, split)
covers total n q (suc r) split bound = rw (not_zero r) (omega (arith, split, one_more q n))

least :
    (total n q r : ℕ)
    → r + q * n ≡ total
    → r < n
    → 0 < (if r == 0 then q else q + 1)
    → ((if r == 0 then q else q + 1) - 1) * n < total
least total n zero zero split bound p = absurd (omega arith)
least total n (suc q) zero split bound p =
    let e : suc q * n ≡ q * n + n = omega arith in
    let e' : (suc q - 1) * n ≡ q * n = ap (λ (k : ℕ). k * n) (omega arith) in
    let g : (suc q - 1) * n < total = omega (arith, split, e, e') in g
least total n q (suc r) split bound p =
    let e : (q + 1 - 1) * n ≡ q * n = ap (λ (k : ℕ). k * n) (omega arith) in
    rw (not_zero r) (omega (arith, split, e))

module _ (total n : ℕ) (positive : 0 < n) where
  ceiling_covers : total ≤ ceiling total n * n
  unfolding ceiling
  ceiling_covers =
      covers total n (total / n) (total % n) (mod-add-div' total n) (mod-lt total positive)

  ceiling_least : 0 < ceiling total n → (ceiling total n - 1) * n < total
  unfolding ceiling
  ceiling_least =
      least total n (total / n) (total % n) (mod-add-div' total n) (mod-lt total positive)

-- max(1, k)
abbrev at_least_one : ℕ → ℕ
at_least_one k = if leb k 1 then 1 else k

more_cover : (total n k : ℕ) → total ≤ k * n → total ≤ at_least_one k * n
more_cover total n zero h = omega (arith, h)
more_cover total n (suc zero) h = h
more_cover total n (suc (suc k)) h = rw (not_one k) h

one_or_least :
    (total n k : ℕ)
    → (0 < k → (k - 1) * n < total)
    → (at_least_one k ≡ 1) ⊎ ((at_least_one k - 1) * n < total)
one_or_least total n zero h = inl refl
one_or_least total n (suc zero) h = inl refl
one_or_least total n (suc (suc k)) h = rw (not_one k) (inr (h (omega arith)))

-- What is built where the page size is not zero.
abbrev built : {A : Type 0} → List A → ℕ → ℕ → ℕ → PaginatedResponse A
built items total page page_size = record {
  items = items;
  total = total;
  page = page;
  page_size = page_size;
  pages = at_least_one (ceiling total page_size);
}

build_run :
    {A : Type 0} (items : List A) (total page n : ℕ)
    → build items total page (suc n) ≡ ok (built items total page (suc n))
unfolding build
build_run items total page n = rw (not_zero n) refl

-- For a page size that is not zero, the announced number of pages is right: those pages, one after
-- the other, are all the rows, and one page less would not hold them, unless it is one page.
pub build_lem :
    {A B : Type 0} (rows : List A) (items : List B) (page page_size : ℕ)
    → 0 < page_size
    → (a : PaginatedResponse B) × (build items (length rows) page page_size ≡ ok a)
      × (pages a.pages page_size rows ≡ rows)
      × ((a.pages ≡ 1) ⊎ ((a.pages - 1) * page_size < length rows))
build_lem rows items page zero positive = elim positive [ ]
build_lem rows items page (suc n) positive =
    let total = length rows in
    let k = ceiling total (suc n) in
    (
      built items total page (suc n),
      build_run items total page n,
      pages_cover (at_least_one k) (suc n) rows
          (more_cover total (suc n) k (ceiling_covers total (suc n) positive)),
      one_or_least total (suc n) k (ceiling_least total (suc n) positive),
    )
