-- ===== src/Repositories/Paging/Laws.antt =====
-- The pages of a listing cover it.
use financial_data.Prelude.{
  ℕ, zero, suc, ◌+◌, ◌-◌, ◌*◌, ◌≤◌, ◌≡◌, refl, ap, sym, ◌∙◌, List, [], ◌∷◌, ◌++◌, take, drop,
  length, arith,
}
use financial_data.Repositories.Paging.{page_of}

-- Pages 1 to n, one after the other.
unfoldable pub pages : {A : Type 0} → ℕ → ℕ → List A → List A
pages zero size rows = []
pages (suc n) size rows = pages n size rows ++ page_of (suc n) size rows

take_nil : {A : Type 0} (n : ℕ) → take {A = A} n [] ≡ []
take_nil zero = refl
take_nil (suc n) = refl

take-plus :
    {A : Type 0} (a b : ℕ) (rows : List A) → take a rows ++ take b (drop a rows) ≡ take (a + b) rows
take-plus zero b rows = ap (λ (n : ℕ). take n rows) (omega arith)
take-plus (suc a) b [] = take_nil b ∙ sym (take_nil (suc a + b))
take-plus (suc a) b (x ∷ rows) =
    rw (take-plus a b rows) (ap (λ (n : ℕ). take n (x ∷ rows)) {x = suc (a + b)} (omega arith))

pages-take : {A : Type 0} (n size : ℕ) (rows : List A) → pages n size rows ≡ take (n * size) rows
unfolding pages page_of
pages-take zero size rows = ap (λ (k : ℕ). take k rows) {x = 0} (omega arith)
pages-take (suc n) size rows = rw (pages-take n size rows) (
    ap (λ (k : ℕ). take (n * size) rows ++ take size (drop (k * size) rows)) {x = suc n - 1}
      (omega arith)
    ∙ take-plus (n * size) size rows
    ∙ ap (λ (k : ℕ). take k rows) (omega arith))

take_all : {A : Type 0} (n : ℕ) (rows : List A) → length rows ≤ n → take n rows ≡ rows
take_all zero [] h = refl
take_all zero (x ∷ rows) h = absurd (omega arith)
take_all (suc n) [] h = refl
take_all (suc n) (x ∷ rows) h = ap (◌∷◌ x) (take_all n rows (omega arith))

-- Enough pages, one after the other, are all the rows, in their order and with none repeated.
pub pages_cover :
    {A : Type 0} (n size : ℕ) (rows : List A) → length rows ≤ n * size → pages n size rows ≡ rows
pages_cover n size rows h = pages-take n size rows ∙ take_all (n * size) rows h
