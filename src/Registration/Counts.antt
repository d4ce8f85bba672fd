-- ===== src/Registration/Counts.antt =====
-- No execution is lost on the way to the table.
use virt_db.Prelude.{
  ℕ, ◌+◌, ◌≤◌, ◌≡◌, refl, sym, ap, ◌∙◌, some, List, [], ◌∷◌, ◌++◌, map, append-nil, Text, length,
  arith,
}
use virt_db.Prelude.Int.{ℤ, pos, pos_part}
use virt_db.Server.Handler.{ExecLog}
use virt_db.Server.Metric.{Float, metric_history_list}
use virt_db.Server.Metric as Proxy
use virt_db.Server.Metric.Rows.{executions, metric_history_list-Sums}
use virt_db.Admin.Error.{ok}
use virt_db.Admin.Node.{MetricHistory, ActiveModel, Metrics, row_of, to_i32, AppState}
use virt_db.Admin.Node.Register.{
  Inserts, no_rows, one_row, success, Stops-success, register-SavesUpTo,
}
use virt_db.Registration.{received, register_batch}

-- What the table holds: a row that is inserted without an error is there afterwards, behind those
-- that were there.
pub record Table (ms : Metrics) : Type 0 where
  pub rows : ms.State → List (ActiveModel ms.Date)
  pub rows-insert_row :
      (s s' : ms.State) (row : ActiveModel ms.Date)
      → ms.insert_row s row ≡ ok s'
      → rows s' ≡ rows s ++ row ∷ []

-- The executions that saved rows count.
abbrev pub counted : {D : Type 0} → List (ActiveModel D) → ℕ
counted [] = 0
counted (row ∷ rows) = pos_part row.exec_count + counted rows

-- The executions that rows count once they are saved.
abbrev saved_executions : List MetricHistory → ℕ
saved_executions [] = 0
saved_executions (row ∷ rows) = pos_part (to_i32 row.exec_count) + saved_executions rows

counted-append :
    {D : Type 0} (s t : List (ActiveModel D)) → counted (s ++ t) ≡ counted s + counted t
counted-append [] t = omega arith
counted-append (row ∷ s) t = omega (arith, counted-append s t)

to_i32-small : (n : ℕ) → n ≤ 2147483647 → to_i32 (pos n) ≡ pos n
to_i32-small n h = ground arith

saved_executions-received :
    (rows : List Proxy.MetricHistory)
    → executions rows ≤ 2147483647
    → saved_executions (map received rows) ≡ executions rows
unfolding received
saved_executions-received [] h = refl
saved_executions-received (row ∷ rows) h =
    let small = ap pos_part (to_i32-small row.exec_count (omega arith)) in
    omega (arith, small, saved_executions-received rows (omega arith))

module _ (ms : Metrics) (table : Table ms) (remote_ip : Text) where
  counted-Inserts :
      (l : List MetricHistory) (s s' : ms.State)
      → Inserts ms remote_ip l s s'
      → counted (table.rows s') ≡ counted (table.rows s) + saved_executions l
  unfolding row_of
  counted-Inserts _ _ _ (no_rows s) = omega arith
  counted-Inserts _ _ _ (one_row x rest d s s' s'' t q inserts) =
      let row = row_of ms remote_ip x d in
      let more = counted-Inserts rest s' s'' inserts in
      let one =
        ap counted (table.rows-insert_row s s' row q) ∙ counted-append (table.rows s) (row ∷ []) in
      omega arith

  -- Where a proxy's registration is answered with success, the rows that were saved for it count all
  -- the logs of the batch, if these are at most 2147483647.
  pub counted-register_batch :
      (fl : Float) (port : Text) (created_at : ℤ) (logs : List ExecLog) (now : ℕ) (s : AppState ms)
      → length logs ≤ 2147483647
      → let (s', reply) = register_batch fl ms port created_at logs now (some remote_ip) s in
        reply ≡ success ms remote_ip
        → counted (table.rows s'.metrics) ≡ counted (table.rows s.metrics) + length logs
  unfolding register_batch
  counted-register_batch fl port created_at logs now s small accepted =
      let rows = metric_history_list fl port created_at logs in
      let count = (metric_history_list-Sums fl port created_at logs).2 in
      let (done, rest, shape, inserts, stops) =
        (register-SavesUpTo ms remote_ip now port (map received rows) s).1 in
      let whole : map received rows ≡ done =
        shape
        ∙ ap (λ l. done ++ l) (Stops-success ms remote_ip rest _ _ stops accepted)
        ∙ append-nil done in
      let sum = counted-Inserts done s.metrics _ inserts in
      let sent : saved_executions (map received rows) ≡ executions rows =
        saved_executions-received rows (omega arith) in
      sum
      ∙ ap (λ n. counted (table.rows s.metrics) + n)
          (ap saved_executions (sym whole) ∙ sent ∙ count)
