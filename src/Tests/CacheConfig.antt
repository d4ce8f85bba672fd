-- ===== src/Tests/CacheConfig.antt =====
-- The list of the cache configurations at a concrete table.
use mathlib.Core.List.{Perm}
use mathlib.Core.List.Perm
use virt_db.Prelude.{ℕ, ◌*◌, ◌≡◌, refl, none, some, List, [], ◌∷◌, Text, codes, take, drop, text_eq}
use virt_db.Prelude.Int.{pos}
use virt_db.Admin.Error.{success_of}
use virt_db.Admin.CacheConfig.{
  Model, PageResponse, CacheConfigListParam, Database, list, select, get_start_row, get_page_no,
  get_limit,
}

abbrev pub db : Database
db = record { same = text_eq; fetch_page = λ size n rows. take size (drop (n * size) rows) }

abbrev row : ℕ → Text → Model
row n cache_name = record {
  id = pos n;
  sql_template = codes "select 1";
  duration = pos 60;
  cache_name = cache_name;
  remark = [];
  enabled = pos 1;
  created_by = pos 0;
  updated_by = pos 0;
}

abbrev table : List Model
table = row 1 (codes "a") ∷ row 2 (codes "b") ∷ row 3 (codes "a") ∷ row 4 (codes "a") ∷ []

abbrev req : CacheConfigListParam
req = record {
  page_param = record { page_no = none; page_size = none };
  cache_name = some (codes "a");
  sql_template = some [];
  enabled = some (pos 1);
}

abbrev second : CacheConfigListParam → CacheConfigListParam
second req = record req { page_param = record { page_no = some (pos 2); page_size = some (pos 2) } }

abbrev two : ℕ
two = 2

second_page :
    list db
      (record req { page_param = record { page_no = some (pos 2); page_size = some (pos 2) } })
      table
    ≡ some
        (success_of (PageResponse Model) (record { list = row 4 (codes "a") ∷ []; total = pos 3 }))
unfolding list select get_limit get_page_no
second_page = refl

no_rows_on_a_page :
    list db (record req { page_param = record { page_no = none; page_size = some (pos 0) } }) table
    ≡ none
unfolding list select get_limit get_page_no
no_rows_on_a_page = refl

-- The start row of the first page is below zero, and wraps.
first_start_row :
    get_start_row (record { page_no = some (pos 1); page_size = none }) ≡ 18446744073709551607
unfolding get_start_row get_page_no get_limit
first_start_row = refl

third_start_row : get_start_row (record { page_no = some (pos 3); page_size = none }) ≡ 11
unfolding get_start_row get_page_no get_limit
third_start_row = refl
