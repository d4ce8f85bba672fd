-- ===== src/Server/Metric/Batches.antt =====
-- `handle_messages` of server/src/sys_assistant_client.rs with `handle_metrics`: the logs that are in the
-- channel at a tick are registered as one batch, and are lost where the admin service does not take it.
-- The channel is taken to have room.
pub mod Kept
use virt_db.Prelude.{
  ℕ, Bool, true, false, Option, none, some, List, [], ◌∷◌, ◌++◌, Text, is_empty, ◌==◌,
  if◌then◌else◌,
}
use virt_db.Prelude.Int.{ℤ}
use virt_db.Server.Handler.{ExecLog}
use virt_db.Server.Metric.{Float, MetricHistory, metric_history_list}

-- What `register` gives: an error of the request, or a status with the `success` of the body, `none`
-- being a body that does not decode.
pub data Reply : Type 0 where
  send_error : Reply
  response : ℕ → Option Bool → Reply

-- No warning is logged.
abbrev pub is_success : Reply → Bool
is_success send_error = false
is_success (response status none) = false
is_success (response status (some success)) = if status == 200 then success else false

-- A log is sent into the channel, or the interval of the loop ticks, with the time of the rows and what
-- `register` gives for the batch.
pub data MetricEvent : Type 0 where
  sent : ExecLog → MetricEvent
  ticked : ℤ → Reply → MetricEvent

-- What is in the channel, the rows that the admin service took, and the logs of the batches for which
-- only a warning was logged: nothing sends them again.
pub record Recorder : Type 0 where
  pub rx : List ExecLog
  pub registered : List MetricHistory
  pub lost : List ExecLog

-- while let Ok(msg) = rx.try_recv() { messages.push(msg); }
unfoldable pub receive_all : List ExecLog → List ExecLog → List ExecLog
receive_all messages [] = messages
receive_all messages (msg ∷ rx) = receive_all (messages ++ (msg ∷ [])) rx

module _ (fl : Float) (port : Text) where
  -- `handle_metrics`, by what becomes of the batch.
  unfoldable pub handle_metrics : ℤ → Reply → List ExecLog → Recorder → Recorder
  unfolding metric_history_list
  handle_metrics now reply messages r =
      if is_success reply
      then record {
        rx = [];
        registered = r.registered ++ metric_history_list fl port now messages;
        lost = r.lost;
      }
      else record { rx = []; registered = r.registered; lost = r.lost ++ messages }

  unfoldable pub record_step : MetricEvent → Recorder → Recorder
  unfolding receive_all handle_metrics
  record_step (sent log) r = record r { rx = r.rx ++ (log ∷ []) }
  record_step (ticked now reply) r =
      let messages = receive_all [] r.rx in
      if is_empty messages then record r { rx = [] } else handle_metrics now reply messages r

  unfoldable pub handle_messages : List MetricEvent → Recorder → Recorder
  unfolding record_step
  handle_messages [] r = r
  handle_messages (e ∷ events) r = handle_messages events (record_step e r)
