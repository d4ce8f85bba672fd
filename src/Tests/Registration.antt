-- ===== src/Tests/Registration.antt =====
-- A batch of logs that is registered with the admin service.
use virt_db.Prelude.{◌+◌, ◌≡◌, refl, some, List, [], ◌∷◌, ◌++◌, Text, codes, arith}
use virt_db.Prelude.Int.{ℤ, pos}
use virt_db.Text.Order.{text_leb}
use virt_db.Admin.Error.{Result, ok}
use virt_db.Admin.Node.{empty, ActiveModel, Metrics, AppState}
use virt_db.Registration.{register_batch}
use virt_db.Registration.Counts.{Table, counted, counted-register_batch}
use virt_db.Tests.Metric.{float, logs}

-- A table that takes every row.
abbrev metrics : Metrics
metrics = record {
  Date = ℤ;
  timestamp_millis_opt = λ v. some v;
  State = List (ActiveModel ℤ);
  insert_row = λ s row. ok (s ++ row ∷ []);
}

taken :
    (s t : List (ActiveModel ℤ))
    → ◌≡◌ {A = Result Text (List (ActiveModel ℤ))} (ok s) (ok t)
    → t ≡ s
taken s t h = cc

table : Table metrics
table = record { rows = λ s. s; rows-insert_row = λ s s' row h. taken (s ++ row ∷ []) s' h }

abbrev state : AppState metrics
state = record { vt_nodes = empty; metrics = [] }

counted-register_batch_example :
    let (s', reply) =
      register_batch float metrics (codes "3306") (pos 7) logs 5 (some (codes "10.0.0.1")) state in
    counted (table.rows s'.metrics) ≡ counted (table.rows []) + 3
unfolding register_batch text_leb
counted-register_batch_example =
    counted-register_batch metrics table (codes "10.0.0.1") float (codes "3306") (pos 7) logs 5
      state (omega arith) refl
