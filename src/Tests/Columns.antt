-- ===== src/Tests/Columns.antt =====
-- The metrics of a page at concrete rows.
use virt_db.Prelude.{ℕ, ◌≡◌, refl, none, some, List, [], ◌∷◌, Text, codes, is_empty, if◌then◌else◌}
use virt_db.Prelude.Int.{pos}
use virt_db.Admin.Error.{Result, ok, DataWrapper}
use virt_db.Admin.CacheConfig.{PageResponse, get_limit, get_page_no}
use virt_db.Admin.Metric.{QueryResult, MetricResult, column, fill, fill_all}
use virt_db.Admin.Metric.Listing.{
  MetricQueryParam, Json, MetricReads, statements, metric_page, list_results, list_sql,
}

-- The second row has no average that decodes.
abbrev pub query_all : Text → Result Text (List (QueryResult ℕ))
query_all sql_str = ok (
    record {
      date = some (codes "10:00:00");
      avg_duration = some 3;
      max_duration = some (pos 4);
      min_duration = some (pos 2);
      exec_count = some 2;
      cache_hit_count = some 1;
    }
    ∷ record {
      date = some (codes "10:01:00");
      avg_duration = none;
      max_duration = some (pos 5);
      min_duration = some (pos 5);
      exec_count = some 1;
      cache_hit_count = some 0;
    }
    ∷ [])

-- Rows that are texts; the empty one is no object.
abbrev pub json : Json
json = record {
  Value = Text;
  Object = Text;
  as_object = λ v. if is_empty v then none else some v;
  get = λ o key. some o;
  as_str = λ v. some v;
}

abbrev reads : MetricReads json Unit ℕ
reads = record {
  num_items = λ s statement. ok 2;
  fetch_page = λ s statement limit page_no. ok (codes "SELECT ?" ∷ [] ∷ []);
  query_all = λ s sql. query_all sql;
}

abbrev param : MetricQueryParam
param = record {
  page_param = record { page_no = some (pos 1); page_size = none };
  sql = some (codes "SELECT");
}

abbrev result : MetricResult ℕ
result = record {
  sql_str = codes "SELECT ?";
  dates = codes "10:00:00" ∷ codes "10:01:00" ∷ [];
  avg_durations = 3 ∷ [];
  min_durations = pos 2 ∷ pos 5 ∷ [];
  max_durations = pos 4 ∷ pos 5 ∷ [];
  exec_counts = 2 ∷ 1 ∷ [];
  cache_hit_counts = 1 ∷ 0 ∷ [];
}

abbrev page : DataWrapper (PageResponse (MetricResult ℕ))
page = metric_page json reads 2 (result ∷ [])

abbrev now_str : Text
now_str = codes "2023-02-17 10:01:00"

lists : list_sql json reads now_str tt param ≡ some (ok page)
unfolding list_sql list_results statements fill_all fill column get_limit get_page_no
lists = refl

empty_pages :
    list_sql json reads now_str tt
      (record { page_param = record { page_no = none; page_size = some (pos 0) }; sql = none })
    ≡ none
unfolding list_sql
empty_pages = refl
