-- ===== src/Tests/Metric.antt =====
-- The theorems on metrics at concrete inputs.
use mathlib.Core.List.Perm
use virt_db.Prelude.{
  ◌/◌, ◌≡◌, refl, Bool, true, false, none, some, List, [], ◌∷◌, Text, codes, length, All,
}
use virt_db.Prelude.Int.{ℤ, pos}
use virt_db.Server.Handler.{ExecLog}
use virt_db.Server.Metric.{Float, metric_history_list}
use virt_db.Server.Metric.Batches.{
  send_error, response, MetricEvent, sent, ticked, Recorder, receive_all, handle_metrics,
  record_step, handle_messages,
}
use virt_db.Server.Metric.Unordered.{metric_history_list-perm}
use virt_db.Server.Metric.Sorting.{logs_of}
use virt_db.Server.Metric.Rows.{AreSorted, Sums, executions, metric_history_list-Sums}

-- Numbers without a fraction.
abbrev pub divide : ℤ → ℤ → ℤ
divide (pos a) (pos b) = pos (a / b)
divide a b = a

abbrev pub float : Float
float = record {
  F = ℤ;
  zero = pos 0;
  of_i64 = λ v. v;
  of_usize = λ n. pos n;
  divide = divide;
  as_i32 = λ v. v;
}

abbrev pub log : Text → ℤ → Bool → ExecLog
log sql_str total_duration from_cache = record {
  sql_str = sql_str;
  total_duration = total_duration;
  mysql_duration = total_duration;
  redis_duration = pos 0;
  from_cache = from_cache;
}

abbrev pub logs : List ExecLog
logs =
    log (codes "b") (pos 4) false ∷ log (codes "a") (pos 9) true ∷ log (codes "b") (pos 6) true ∷ []

metric_history_list-Sums_example :
    let rows = metric_history_list float (codes "3306") (pos 7) logs in
    AreSorted rows
    × All (λ row. Sums float row (logs_of row.sql_str logs)) rows
    × (executions rows ≡ length logs)
metric_history_list-Sums_example = metric_history_list-Sums float (codes "3306") (pos 7) logs

-- The first two logs came the other way round.
abbrev logs' : List ExecLog
logs' =
    log (codes "a") (pos 9) true ∷ log (codes "b") (pos 4) false ∷ log (codes "b") (pos 6) true ∷ []

metric_history_list-perm_example :
    metric_history_list float (codes "3306") (pos 7) logs
    ≡ metric_history_list float (codes "3306") (pos 7) logs'
metric_history_list-perm_example =
    metric_history_list-perm float (codes "3306") (pos 7) logs logs' (
      Perm.swap (log (codes "a") (pos 9) true) (log (codes "b") (pos 4) false)
        (log (codes "b") (pos 6) true ∷ []))

-- The second batch is lost, and the last log waits.
abbrev events : List MetricEvent
events =
    sent (log (codes "b") (pos 4) false)
    ∷ sent (log (codes "a") (pos 9) true)
    ∷ ticked (pos 7) (response 200 (some true))
    ∷ ticked (pos 12) send_error
    ∷ sent (log (codes "b") (pos 6) true)
    ∷ ticked (pos 17) (response 500 none)
    ∷ sent (log (codes "c") (pos 6) true)
    ∷ []

abbrev recorder : Recorder
recorder =
    handle_messages float (codes "3306") events (record { rx = []; registered = []; lost = [] })

one_lost : recorder.lost ≡ log (codes "b") (pos 6) true ∷ []
unfolding handle_messages record_step handle_metrics receive_all
one_lost = refl
