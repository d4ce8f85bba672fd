-- ===== src/Admin/CacheConfig.antt =====
-- admin/src/controller/cache_config_controller.rs: `list`, with `PageParam` of admin/src/model/mod.rs.
-- The rows of the table are an argument; the database's comparison of texts and the paginator of
-- sea-orm, whose query names no order, are parameters; an error of the database, which ends the
-- request, is left out.
pub mod Pages
pub mod Change
pub mod Unused
use virt_db.Prelude.{
  ℕ, ◌+◌, ◌*◌, ◌-◌, ◌%◌, ◌≡◌, Bool, true, false, ◌&&◌, Option, none, some, List, [], ◌∷◌, Text,
  length, is_empty, ltb, ◌==◌, if◌then◌else◌, arith,
}
use virt_db.Prelude.Int.{ℤ, pos, negsuc, as_u64, as_i64}
use virt_db.Admin.Error.{DataWrapper, success_of}

pub record PageParam : Type 0 where
  pub page_no : Option ℤ
  pub page_size : Option ℤ

abbrev pub unwrap_or : ℤ → Option ℤ → ℤ
unwrap_or d none = d
unwrap_or d (some v) = v

unfoldable pub get_page_no : PageParam → ℕ
get_page_no p =
    let page_no = as_u64 (unwrap_or (pos 0) p.page_no) in
    if ltb 0 page_no then page_no - 1 else page_no

unfoldable pub get_limit : PageParam → ℕ
get_limit p = as_u64 (unwrap_or (pos 10) p.page_size)

-- `u64` subtraction and multiplication, which wrap in a release build.
abbrev pub sub_u64 : ℕ → ℕ → ℕ
sub_u64 a b = (a + 18446744073709551616 - b) % 18446744073709551616

abbrev pub mul_u64 : ℕ → ℕ → ℕ
mul_u64 a b = a * b % 18446744073709551616

unfoldable pub get_start_row : PageParam → ℕ
unfolding get_page_no get_limit
get_start_row p =
    let page_no = get_page_no p in
    let page_size = get_limit p in sub_u64 (mul_u64 page_no page_size) (sub_u64 page_size 1)

pub record PageResponse (T : Type 0) : Type 0 where
  pub list : List T
  pub total : ℤ

-- A row of `cache_config`, its times left out.
pub record Model : Type 0 where
  pub id : ℤ
  pub sql_template : Text
  pub duration : ℤ
  pub cache_name : Text
  pub remark : Text
  pub enabled : ℤ
  pub created_by : ℤ
  pub updated_by : ℤ

pub record CacheConfigListParam : Type 0 where
  pub page_param : PageParam
  pub cache_name : Option Text
  pub sql_template : Option Text
  pub enabled : Option ℤ

-- `=` on texts in the database; and a page of a query, by its size and its number from zero.
pub record Database : Type 0 where
  pub same : Text → Text → Bool
  pub fetch_page : ℕ → ℕ → List Model → List Model

abbrev pub same_number : ℤ → ℤ → Bool
same_number (pos a) (pos b) = a == b
same_number (negsuc a) (negsuc b) = a == b
same_number _ _ = false

pub same_number_refl : (i : ℤ) → same_number i i ≡ true
same_number_refl (pos n) = ground arith
same_number_refl (negsuc n) = ground arith

module _ (db : Database) where
  -- A condition on a text, which a missing and an empty parameter leave out.
  abbrev pub same_text : Option Text → Text → Bool
  same_text none s = true
  same_text (some v) s = if is_empty v then true else db.same s v

  abbrev pub same_enabled : Option ℤ → ℤ → Bool
  same_enabled none v = true
  same_enabled (some w) v = same_number v w

  abbrev pub is_selected : CacheConfigListParam → Model → Bool
  is_selected req row =
      same_text req.cache_name row.cache_name
      && same_text req.sql_template row.sql_template
      && same_enabled req.enabled row.enabled

  unfoldable pub select : CacheConfigListParam → List Model → List Model
  select req [] = []
  select req (row ∷ rows) =
      let rest = select req rows in if is_selected req row then row ∷ rest else rest

  -- `none` is the panic of the paginator at pages of size zero. The user is only checked to be there.
  unfoldable pub list :
      CacheConfigListParam → List Model → Option (DataWrapper (PageResponse Model))
  unfolding select get_limit get_page_no
  list req table =
      let rows = select req table in
      let limit = get_limit req.page_param in
      if limit == 0
      then none
      else some (
          success_of (PageResponse Model) (record {
            list = db.fetch_page limit (get_page_no req.page_param) rows;
            total = as_i64 (length rows);
          }))
