-- ===== src/Server/Metric.antt =====
-- The metrics of executed statements: server/src/math/avg.rs, and `handle_metrics` and
-- `handle_messages` of server/src/sys_assistant_client.rs. Floating-point numbers are a parameter.
pub mod Average
pub mod Sorting
pub mod Groups
pub mod Rows
pub mod Batches
pub mod Permuted
pub mod Unordered
use virt_db.Prelude.{
  ℕ, suc, ◌+◌, ◌%◌, Bool, true, false, Option, none, some, List, [], ◌∷◌, ◌++◌, map, Text, length,
  text_eq, if◌then◌else◌, is_empty,
}
use virt_db.Prelude.Int.{ℤ, pos, negsuc, ltb_ℤ, as_u64, signed}
use virt_db.Text.Order.{text_leb}
use virt_db.Server.Handler.{ExecLog}

-- `f64`, as far as the code computes with it.
pub record Float : Type 1 where
  pub F : Type 0
  pub zero : F
  pub of_i64 : ℤ → F
  pub of_usize : ℕ → F
  pub divide : F → F → F
  pub as_i32 : F → ℤ

-- `i64` addition, which wraps in a release build.
unfoldable pub add_i64 : ℤ → ℤ → ℤ
add_i64 a b = signed 64 ((as_u64 a + as_u64 b) % 18446744073709551616)

unfoldable pub sum_i64 : ℤ → List ℤ → ℤ
unfolding add_i64
sum_i64 acc [] = acc
sum_i64 acc (v ∷ list) = sum_i64 (add_i64 acc v) list

module _ (fl : Float) where
  pub record AveragedCollection : Type 0 where
    pub list : List ℤ
    pub average : fl.F

  abbrev pub new : AveragedCollection
  new = record { list = []; average = fl.zero }

  -- The quotient that `update_average` stores.
  unfoldable pub mean : List ℤ → fl.F
  unfolding sum_i64
  mean list = fl.divide (fl.of_i64 (sum_i64 (pos 0) list)) (fl.of_usize (length list))

  unfoldable pub update_average : AveragedCollection → AveragedCollection
  unfolding mean
  update_average c = record c { average = mean c.list }

  unfoldable pub add : AveragedCollection → ℤ → AveragedCollection
  unfolding update_average
  add c v = update_average (record c { list = c.list ++ (v ∷ []) })

abbrev pub pop : List ℤ → Option (List ℤ × ℤ)
pop [] = none
pop (v ∷ []) = some ([], v)
pop (v ∷ w ∷ rest) = elim (pop (w ∷ rest)) [ none ↦ none | some (l, x) ↦ some (v ∷ l, x) ]

module _ (fl : Float) where
  unfoldable pub remove : AveragedCollection fl → AveragedCollection fl × Option ℤ
  unfolding update_average
  remove c = elim (pop c.list) [
    | none ↦ (c, none)
    | some (l, x) ↦ (update_average fl (record c { list = l }), some x)
  ]

pub record MetricHistory : Type 0 where
  pub sql_str : Text
  pub db_server_port : Text
  pub database_name : Text
  pub avg_duration : ℤ
  pub max_duration : ℤ
  pub min_duration : ℤ
  pub exec_count : ℕ
  pub cache_hit_count : ℤ
  pub created_at : ℤ

-- The stable sort of `sorted_by_key`.
unfoldable pub insert_log : ExecLog → List ExecLog → List ExecLog
insert_log x [] = x ∷ []
insert_log x (y ∷ logs) =
    let rest = insert_log x logs in if text_leb x.sql_str y.sql_str then x ∷ y ∷ logs else y ∷ rest

unfoldable pub sorted : List ExecLog → List ExecLog
unfolding insert_log
sorted [] = []
sorted (x ∷ logs) = insert_log x (sorted logs)

-- `group_by` joins neighbours of one key.
abbrev pub put_first : ExecLog → List (Text × List ExecLog) → List (Text × List ExecLog)
put_first x [] = (x.sql_str, x ∷ []) ∷ []
put_first x ((k, g) ∷ groups) =
    if text_eq x.sql_str k then (k, x ∷ g) ∷ groups else (x.sql_str, x ∷ []) ∷ (k, g) ∷ groups

unfoldable pub group : List ExecLog → List (Text × List ExecLog)
group [] = []
group (x ∷ logs) = put_first x (group logs)

-- The variables of the loop over a group; `cache_hit_count` is the 32-bit pattern of an `i32`.
pub record Totals (fl : Float) : Type 0 where
  pub avg_calculator : AveragedCollection fl
  pub max_duration : ℤ
  pub min_duration : ℤ
  pub cache_hit_count : ℕ
  pub total_count : ℕ

abbrev pub i64_max : ℤ
i64_max = pos 9223372036854775807

module _ (fl : Float) where
  -- One round of the loop over a group.
  unfoldable pub count_log : Totals fl → ExecLog → Totals fl
  unfolding add
  count_log t log = record {
    avg_calculator = add fl t.avg_calculator log.total_duration;
    max_duration =
        if ltb_ℤ t.max_duration log.total_duration then log.total_duration else t.max_duration;
    min_duration =
        if ltb_ℤ log.total_duration t.min_duration then log.total_duration else t.min_duration;
    cache_hit_count =
        if log.from_cache then suc t.cache_hit_count % 4294967296 else t.cache_hit_count;
    total_count = suc t.total_count;
  }

  unfoldable pub total : Totals fl → List ExecLog → Totals fl
  unfolding count_log
  total t [] = t
  total t (log ∷ group) = total (count_log t log) group

  abbrev pub start_totals : Totals fl
  start_totals = record {
    avg_calculator = new fl;
    max_duration = negsuc 0;
    min_duration = i64_max;
    cache_hit_count = 0;
    total_count = 0;
  }

  -- The closure that makes a row of a group; `now` is the timestamp of the clock, one for all rows.
  unfoldable pub row_of : Text → ℤ → Text × List ExecLog → MetricHistory
  unfolding total
  row_of port now (sql_str, group) =
      let t = total start_totals group in
      record {
        sql_str = sql_str;
        db_server_port = port;
        database_name = [];
        avg_duration = fl.as_i32 t.avg_calculator.average;
        max_duration = t.max_duration;
        min_duration = t.min_duration;
        exec_count = t.total_count;
        cache_hit_count = signed 32 t.cache_hit_count;
        created_at = now;
      }

  -- The list that `handle_metrics` registers; what the admin service answers is only logged.
  unfoldable pub metric_history_list : Text → ℤ → List ExecLog → List MetricHistory
  unfolding row_of group sorted
  metric_history_list port now exec_log_list = map (row_of port now) (group (sorted exec_log_list))
