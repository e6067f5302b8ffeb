-- ===== src/Repositories/Paging.antt =====
-- `.offset((page - 1) * page_size).limit(page_size)` and the count before it, which every listing
-- uses.
pub mod Laws
use financial_data.Prelude.{
  ltb, ◌==◌, ◌&&◌, ℕ, ◌-◌, ◌*◌, List, [], ◌∷◌, Option, none, some, take, drop, length,
}
use financial_data.Result.{Result, ok, err, raise_if, database_error, ◌>>=◌, ◌>>◌}

-- One page of the rows, for a page that is numbered from 1.
unfoldable pub page_of : {A : Type 0} → ℕ → ℕ → List A → List A
page_of page page_size rows = take page_size (drop ((page - 1) * page_size) rows)

-- [f(m) for m in rows], where the mapper may raise
unfoldable pub map_rows : {A B : Type 0} → (A → Result B) → List A → Result (List B)
map_rows f [] = ok []
map_rows f (m ∷ rows) = do a ← f m; rest ← map_rows f rows; ok (a ∷ rest)

-- f(m) if m else None
unfoldable pub map_found : {A B : Type 0} → (A → Result B) → Option A → Result (Option B)
map_found f none = ok none
map_found f (some m) = do a ← f m; ok (some a)

-- A negative OFFSET is refused by the database: that of page 0, but for pages of no rows.
unfoldable pub check_page : ℕ → ℕ → Result (Unit {0})
check_page page page_size = raise_if (page == 0 && ltb 0 page_size) database_error

-- The mapped page, and the number of rows on all pages.
unfoldable pub listing : {A B : Type 0} → (A → Result B) → ℕ → ℕ → List A → Result (List B × ℕ)
unfolding page_of check_page
listing f page page_size rows = do
  check_page page page_size
  items ← map_rows f (page_of page page_size rows)
  ok (items, length rows)
