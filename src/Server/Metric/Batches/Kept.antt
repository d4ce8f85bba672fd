-- ===== src/Server/Metric/Batches/Kept.antt =====
-- What becomes of each log that is sent to `handle_messages`.
use virt_db.Prelude.{◌≡◌, ◌≢◌, true, some, List, [], ◌∷◌, ◌++◌, Text}
use virt_db.Prelude.Int.{ℤ}
use virt_db.Server.Handler.{ExecLog}
use virt_db.Server.Metric.{Float, MetricHistory, metric_history_list}
use virt_db.Server.Metric.Batches.{Reply, response, MetricEvent, sent, ticked, Recorder}

-- The logs that are sent, in order.
abbrev pub sent_logs : List MetricEvent → List ExecLog
sent_logs [] = []
sent_logs (sent log ∷ events) = log ∷ sent_logs events
sent_logs (ticked now reply ∷ events) = sent_logs events

-- What `register` would give at each tick.
abbrev pub replies_of : List MetricEvent → List Reply
replies_of [] = []
replies_of (sent log ∷ events) = replies_of events
replies_of (ticked now reply ∷ events) = reply ∷ replies_of events

-- The logs that came behind the last tick, or behind `w` if there is none.
abbrev pub since_tick : List ExecLog → List MetricEvent → List ExecLog
since_tick w [] = w
since_tick w (sent log ∷ events) = since_tick (w ++ (log ∷ [])) events
since_tick w (ticked now reply ∷ events) = since_tick [] events

-- Logs in the order in which they came, cut into batches at ticks: the rows of those that the admin
-- service took, which answers 200 and success, and the logs of those that were lost.
pub data Batched (fl : Float) (port : Text)
    : List Reply → List ExecLog → List MetricHistory → List ExecLog → Type 0 where
  no_tick : Batched fl port [] [] [] []
  idle :
      {rs : List Reply} {logs lost : List ExecLog} {rows : List MetricHistory}
      → Batched fl port rs logs rows lost
      → (reply : Reply) → Batched fl port (rs ++ (reply ∷ [])) logs rows lost
  taken :
      {rs : List Reply} {logs lost : List ExecLog} {rows : List MetricHistory}
      → Batched fl port rs logs rows lost
      → (now : ℤ) (reply : Reply) (batch : List ExecLog) → reply ≡ response 200 (some true)
      → Batched fl port
          (rs ++ (reply ∷ []))
          (logs ++ batch)
          (rows ++ metric_history_list fl port now batch)
          lost
  dropped :
      {rs : List Reply} {logs lost : List ExecLog} {rows : List MetricHistory}
      → Batched fl port rs logs rows lost
      → (reply : Reply) (batch : List ExecLog) → reply ≢ response 200 (some true)
      → Batched fl port (rs ++ (reply ∷ [])) (logs ++ batch) rows (lost ++ batch)

module _ (fl : Float) (port : Text) where
  -- All logs so far, with the replies so far: the batches, and behind them those that wait.
  abbrev pub AreKnown : List Reply → List ExecLog → Recorder → Type 0
  AreKnown rs logs r =
      (batches : List ExecLog) × (logs ≡ batches ++ r.rx)
      × Batched fl port rs batches r.registered r.lost
