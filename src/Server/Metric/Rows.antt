-- ===== src/Server/Metric/Rows.antt =====
-- What a row of metrics says of the logs of its statement.
use virt_db.Prelude.{
  ℕ, suc, ◌%◌, ◌+◌, ◌≡◌, ◌≢◌, refl, ap, ◌∙◌, subst, List, [], ◌∷◌, ◌++◌, append_assoc, map, Text,
  length, All, arith, if◌then◌else◌,
}
use virt_db.Prelude.Int.{ℤ, signed, ◌≤ℤ◌}
use virt_db.Text.Order.{Before}
use virt_db.Server.Handler.{ExecLog}
use virt_db.Server.Metric.{
  Float, mean, MetricHistory, Totals, count_log, total, start_totals, row_of, sorted, group,
  metric_history_list,
}
use virt_db.Server.Metric.Average.{average-add}
use virt_db.Server.Metric.Sorting.{logs_of}
use virt_db.Server.Metric.Groups.{
  IsIncreasing, Splits, group-sorted, total_length, total_length-group-sorted,
}

abbrev pub hits : List ExecLog → ℕ
hits [] = 0
hits (log ∷ logs) = if log.from_cache then suc (hits logs) else hits logs

abbrev pub durations : List ExecLog → List ℤ
durations logs = map (λ log. log.total_duration) logs

abbrev pub executions : List MetricHistory → ℕ
executions [] = 0
executions (row ∷ rows) = row.exec_count + executions rows

-- The statements of the rows strictly increase.
abbrev pub AreSorted : List MetricHistory → Type 0
AreSorted [] = Unit
AreSorted (row ∷ rows) = All (λ later. Before row.sql_str later.sql_str) rows × AreSorted rows

module _ (fl : Float) where
  -- A running maximum and a running minimum.
  abbrev Covers : Totals fl → ℤ → Type 0
  Covers t d = (t.min_duration ≤ℤ d) × (d ≤ℤ t.max_duration)

  abbrev Widens : Totals fl → Totals fl → Type 0
  Widens t u = (u.min_duration ≤ℤ t.min_duration) × (t.max_duration ≤ℤ u.max_duration)

  count_log-Covers :
      (t : Totals fl) (log : ExecLog) → Covers (count_log fl t log) log.total_duration
  unfolding count_log
  count_log-Covers t log = ground arith

  count_log-Widens : (t : Totals fl) (log : ExecLog) → Widens t (count_log fl t log)
  unfolding count_log
  count_log-Widens t log = ground arith

  count_log-hits :
      (t : Totals fl) (log : ExecLog) (n : ℕ)
      → t.cache_hit_count ≡ n % 4294967296
      → (count_log fl t log).cache_hit_count ≡ (n + hits (log ∷ [])) % 4294967296
  unfolding count_log
  count_log-hits t log n h = ground arith

  total-hits :
      (t : Totals fl) (g : List ExecLog) (n : ℕ)
      → t.cache_hit_count ≡ n % 4294967296
      → (total fl t g).cache_hit_count ≡ (n + hits g) % 4294967296
  unfolding total
  total-hits t [] n h = h ∙ omega arith
  total-hits t (log ∷ g) n h =
      let one = count_log-hits t log n h in
      let all = total-hits (count_log fl t log) g (n + hits (log ∷ [])) one in
      all ∙ ap (λ k. k % 4294967296) (ground arith)

  total-count :
      (t : Totals fl) (g : List ExecLog) → (total fl t g).total_count ≡ t.total_count + length g
  unfolding total count_log
  total-count t [] = omega arith
  total-count t (log ∷ g) = omega (arith, total-count (count_log fl t log) g)

  total-Widens : (t : Totals fl) (g : List ExecLog) → Widens t (total fl t g)
  unfolding total
  total-Widens t [] = omega arith
  total-Widens t (log ∷ g) =
      let a = count_log-Widens t log in let b = total-Widens (count_log fl t log) g in omega arith

  total-Covers :
      (t : Totals fl) (g : List ExecLog) → All (λ log. Covers (total fl t g) log.total_duration) g
  unfolding total
  total-Covers t [] = tt
  total-Covers t (log ∷ g) =
      let a = count_log-Covers t log in
      let b = total-Widens (count_log fl t log) g in
      (omega arith, total-Covers (count_log fl t log) g)

  pub total-average :
      (t : Totals fl) (log : ExecLog) (g : List ExecLog)
      → (total fl t (log ∷ g)).avg_calculator.average
        ≡ mean fl (t.avg_calculator.list ++ durations (log ∷ g))
  unfolding total count_log
  total-average t log [] = (average-add fl t.avg_calculator log.total_duration).1
  total-average t log (next ∷ g) =
      total-average (count_log fl t log) next g
      ∙ ap (λ l. mean fl (l ++ durations (next ∷ g)))
          (average-add fl t.avg_calculator log.total_duration).0
      ∙ ap (mean fl)
          (append_assoc t.avg_calculator.list (log.total_duration ∷ []) (durations (next ∷ g)))

  -- A row that sums up `logs`: how many, how many from the cache as an `i32`, the longest and the shortest
  -- duration as bounds, and the mean.
  pub record Sums (row : MetricHistory) (logs : List ExecLog) : Type 0 where
    pub exec_count : row.exec_count ≡ length logs
    pub cache_hit_count : row.cache_hit_count ≡ signed 32 (hits logs % 4294967296)
    pub bounds :
        All
          (λ log.
            (row.min_duration ≤ℤ log.total_duration) × (log.total_duration ≤ℤ row.max_duration))
          logs
    pub mean_duration : logs ≢ [] → row.avg_duration ≡ fl.as_i32 (mean fl (durations logs))

  pub row_of-Sums :
      (port : Text) (now : ℤ) (k : Text) (g : List ExecLog) → Sums (row_of fl port now (k, g)) g
  unfolding row_of
  row_of-Sums port now k [] = record {
    exec_count = unfold total in refl;
    cache_hit_count = unfold total in refl;
    bounds = tt;
    mean_duration = λ h. absurd (h refl);
  }
  row_of-Sums port now k (log ∷ g) =
      let count = total-count (start_totals fl) (log ∷ g) in
      let hit = total-hits (start_totals fl) (log ∷ g) 0 refl in
      record {
        exec_count = count ∙ omega arith;
        cache_hit_count = ap (signed 32) (hit ∙ omega arith);
        bounds = total-Covers (start_totals fl) (log ∷ g);
        mean_duration = λ h. ap fl.as_i32 (total-average (start_totals fl) log g);
      }

  row_of-sql_str :
      (port : Text) (now : ℤ) (p : Text × List ExecLog) → (row_of fl port now p).sql_str ≡ p.0
  unfolding row_of
  row_of-sql_str port now p = refl

  rows-Sums :
      (port : Text) (now : ℤ) (logs : List ExecLog) (groups : List (Text × List ExecLog))
      → Splits logs groups
      → All (λ row. Sums row (logs_of row.sql_str logs)) (map (row_of fl port now) groups)
  unfolding row_of
  rows-Sums port now logs [] s = tt
  rows-Sums port now logs ((k, g) ∷ groups) s = (
    subst (λ l. Sums (row_of fl port now (k, g)) l) s.0 (row_of-Sums port now k g),
    rows-Sums port now logs groups s.1,
  )

  rows-executions :
      (port : Text) (now : ℤ) (groups : List (Text × List ExecLog))
      → executions (map (row_of fl port now) groups) ≡ total_length groups
  rows-executions port now [] = refl
  rows-executions port now ((k, g) ∷ groups) =
      let h = row_of-Sums port now k g in
      omega (arith, h.exec_count, rows-executions port now groups)

  rows-later :
      (port : Text) (now : ℤ) (k : Text) (groups : List (Text × List ExecLog))
      → All (λ p. Before k p.0) groups
      → All (λ row. Before k row.sql_str) (map (row_of fl port now) groups)
  unfolding row_of
  rows-later port now k [] h = tt
  rows-later port now k ((j, g) ∷ groups) h = (h.0, rows-later port now k groups h.1)

  rows-AreSorted :
      (port : Text) (now : ℤ) (groups : List (Text × List ExecLog))
      → IsIncreasing groups
      → AreSorted (map (row_of fl port now) groups)
  unfolding row_of
  rows-AreSorted port now [] h = tt
  rows-AreSorted port now ((k, g) ∷ groups) h =
      (rows-later port now k groups h.0, rows-AreSorted port now groups h.1)

  -- The rows that the proxy registers for a batch of logs: their statements strictly increase, so no
  -- statement has two rows; each row counts all the logs of its statement and, as an `i32`, those
  -- served from the cache, its minimum and maximum bound their durations, and its average is the mean of the durations
  -- in the order of the logs; the counts add up to the number of logs.
  pub metric_history_list-Sums :
      (port : Text) (now : ℤ) (logs : List ExecLog)
      → let rows = metric_history_list fl port now logs in
        AreSorted rows
        × All (λ row. Sums row (logs_of row.sql_str logs)) rows
        × (executions rows ≡ length logs)
  unfolding metric_history_list
  metric_history_list-Sums port now logs =
      let (increasing, splits) = group-sorted logs in
      let groups = group (sorted logs) in
      (
        rows-AreSorted port now groups increasing,
        rows-Sums port now logs groups splits,
        rows-executions port now groups ∙ total_length-group-sorted logs,
      )
