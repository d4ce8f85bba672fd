-- ===== src/Admin/CacheConfig/Pages.antt =====
-- What `list` shows: the rows that fulfil the conditions, by pages.
use mathlib.Core.List.{Perm}
use virt_db.Prelude.{
  ℕ, zero, suc, ◌*◌, ◌<◌, ◌≤◌, ◌≡◌, ◌⊎◌, ◌==◌, true, Option, none, some, List, [], ◌∷◌, ◌++◌, Text,
  length, if◌then◌else◌,
}
use virt_db.Prelude.Int.{ℤ, pos, negsuc, as_i64}
use virt_db.Admin.Error.{DataWrapper, success_of}
use virt_db.Admin.CacheConfig.{PageResponse, Model, CacheConfigListParam, Database, list}

-- `LIMIT size OFFSET n * size` without ORDER BY: `page` has `size` of the rows, in any order, behind
-- `n * size` others, or fewer where there are no more.
pub record IsPage (size n : ℕ) (rows page : List Model) : Type 0 where
  pub before : List Model
  pub after : List Model
  pub order : Perm rows (before ++ (page ++ after))
  pub fits : length page ≤ size
  pub is_full : (length page ≡ size) ⊎ (after ≡ [])
  pub place : (length before ≡ n * size) ⊎ (page ≡ [])

-- The offset is a number of 64 bits.
pub record DatabaseLaws (db : Database) : Type 0 where
  pub page :
      (size n : ℕ) (rows : List Model)
      → n * size < 18446744073709551616
      → IsPage size n rows (db.fetch_page size n rows)

-- The size of the pages that a request asks for, ten if it does not say.
abbrev pub IsSize : Option ℤ → ℕ → Type 0
IsSize none size = size ≡ 10
IsSize (some (pos v)) size = (size ≡ v) × (v < 9223372036854775808)
IsSize (some (negsuc v)) size = ⊥

-- The page that it asks for, of those from zero on: the request counts from one, and 0 is the first too.
abbrev pub IsNumber : Option ℤ → ℕ → Type 0
IsNumber none n = n ≡ 0
IsNumber (some (pos zero)) n = n ≡ 0
IsNumber (some (pos (suc v))) n = (n ≡ v) × (suc v < 9223372036854775808)
IsNumber (some (negsuc v)) n = ⊥

module _ (db : Database) where
  -- A condition on a text; a request without one, or with an empty one, has none.
  abbrev pub IsWanted : Option Text → Text → Type 0
  IsWanted none s = Unit
  IsWanted (some []) s = Unit
  IsWanted (some (c ∷ v)) s = db.same s (c ∷ v) ≡ true

  abbrev pub IsEnabled : Option ℤ → ℤ → Type 0
  IsEnabled none v = Unit
  IsEnabled (some w) v = v ≡ w

  pub record Fulfils (req : CacheConfigListParam) (row : Model) : Type 0 where
    pub cache_name : IsWanted req.cache_name row.cache_name
    pub sql_template : IsWanted req.sql_template row.sql_template
    pub enabled : IsEnabled req.enabled row.enabled

  -- The rows of a table that fulfil the conditions, in order.
  pub data Selected (req : CacheConfigListParam) : List Model → List Model → Type 0 where
    no_rows : Selected req [] []
    kept :
        (row : Model) (table rows : List Model)
        → Fulfils req row
        → Selected req table rows
        → Selected req (row ∷ table) (row ∷ rows)
    left_out :
        (row : Model) (table rows : List Model)
        → ¬ Fulfils req row
        → Selected req table rows
        → Selected req (row ∷ table) rows

  -- A page of the selected rows and their number.
  abbrev shown : List Model → List Model → DataWrapper (PageResponse Model)
  shown page rows =
      success_of (PageResponse Model) (record { list = page; total = as_i64 (length rows) })

  abbrev answer : ℕ → ℕ → List Model → Option (DataWrapper (PageResponse Model))
  answer limit n rows = if limit == 0 then none else some (shown (db.fetch_page limit n rows) rows)
