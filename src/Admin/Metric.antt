-- ===== src/Admin/Metric.antt =====
-- admin/src/controller/metric_history_controller.rs: the results of `list_sql` for the statements of a
-- page. The queries are a parameter, and so are decimal numbers.
pub mod Columns
pub mod Listing
pub mod Results
use virt_db.Prelude.{Option, none, some, List, [], ◌∷◌, ◌++◌, Text}
use virt_db.Prelude.Int.{ℤ}
use virt_db.Admin.Error.{Result, ok, err, SysError, system}

-- A row of the query for one statement: what `try_get` gives for each column, `none` being its error.
pub record QueryResult (Decimal : Type 0) : Type 0 where
  pub date : Option Text
  pub avg_duration : Option Decimal
  pub max_duration : Option ℤ
  pub min_duration : Option ℤ
  pub exec_count : Option Decimal
  pub cache_hit_count : Option Decimal

pub record MetricResult (Decimal : Type 0) : Type 0 where
  pub sql_str : Text
  pub dates : List Text
  pub avg_durations : List Decimal
  pub min_durations : List ℤ
  pub max_durations : List ℤ
  pub exec_counts : List Decimal
  pub cache_hit_counts : List Decimal

module _ {Decimal : Type 0} where
  -- One column, without the rows in which it does not decode.
  unfoldable pub column :
      {A : Type 0} → (QueryResult Decimal → Option A) → List (QueryResult Decimal) → List A
  column try_get [] = []
  column try_get (row ∷ rows) = elim (try_get row) [
    | none ↦ column try_get rows
    | some v ↦ v ∷ column try_get rows
  ]

  unfoldable pub fill : Text → List (QueryResult Decimal) → MetricResult Decimal
  unfolding column
  fill sql_str query_result_vec = record {
    sql_str = sql_str;
    dates = column (λ x. x.date) query_result_vec;
    avg_durations = column (λ x. x.avg_duration) query_result_vec;
    min_durations = column (λ x. x.min_duration) query_result_vec;
    max_durations = column (λ x. x.max_duration) query_result_vec;
    exec_counts = column (λ x. x.exec_count) query_result_vec;
    cache_hit_counts = column (λ x. x.cache_hit_count) query_result_vec;
  }

  -- The loop over the statements; the first query that fails ends it.
  unfoldable pub fill_all :
      (Text → Result Text (List (QueryResult Decimal)))
      → List (MetricResult Decimal)
      → List Text
      → Result SysError (List (MetricResult Decimal))
  unfolding fill
  fill_all query_all final_metric_result_vec [] = ok final_metric_result_vec
  fill_all query_all final_metric_result_vec (sql_str ∷ rest) = elim (query_all sql_str) [
    | err e ↦ err (system e)
    | ok rows ↦ fill_all query_all (final_metric_result_vec ++ (fill sql_str rows ∷ [])) rest
  ]
