-- ===== src/Admin/Node.antt =====
-- admin/src/controller/vt_node_controller.rs and admin/src/job/vt_node_job.rs: proxies that register
-- with their metrics, and the check that drops those that stopped. Times are nanoseconds.
pub mod Alive
pub mod Register
use virt_db.Prelude.{
  ℕ, ◌+◌, ◌*◌, ◌%◌, ◌≡◌, Bool, true, false, Option, none, some, List, [], ◌∷◌, ◌++◌, Text, codes,
  ltb, text_eq, if◌then◌else◌,
}
use virt_db.Prelude.Int.{ℤ, negsuc, signed, as_u64}
use virt_db.Admin.Error.{Result, ok, err, SysError, system, DataWrapper, result, success_of}

-- The hash map from a node to the time at which it expires.
abbrev pub Nodes : Type 0
Nodes = Text → Option ℕ

abbrev pub empty : Nodes
empty k = none

unfoldable pub insert : Text → ℕ → Nodes → Nodes
insert key expire_at nodes k = if text_eq k key then some expire_at else nodes k

abbrev pub unexpired : ℕ → Option ℕ → Option ℕ
unexpired now none = none
unexpired now (some expire_at) = if ltb now expire_at then some expire_at else none

-- A round of `enable_vt_node_alive_check`; the clock is taken to stand still during the round.
unfoldable pub alive_check : ℕ → Nodes → Nodes
alive_check now nodes k = unexpired now (nodes k)

-- Duration::seconds(60 * 2)
abbrev pub two_minutes : ℕ
two_minutes = 60 * 2 * 1000000000

unfoldable pub register_node : Text → ℕ → Nodes → Nodes
unfolding insert
register_node key now nodes = insert key (now + two_minutes) nodes

-- `as i32`
abbrev pub to_i32 : ℤ → ℤ
to_i32 v = signed 32 (as_u64 v % 4294967296)

-- `i64` multiplication, which wraps in a release build.
unfoldable pub times_1000 : ℤ → ℤ
times_1000 v = signed 64 (as_u64 v * 1000 % 18446744073709551616)

-- A row of metrics as a node sends it.
pub record MetricHistory : Type 0 where
  pub sql_str : Text
  pub db_server_port : Text
  pub database_name : Text
  pub avg_duration : ℤ
  pub max_duration : ℤ
  pub min_duration : ℤ
  pub exec_count : ℤ
  pub cache_hit_count : ℤ
  pub created_at : ℤ

-- The row that is saved; `D` is the type of a local time.
pub record ActiveModel (D : Type 0) : Type 0 where
  pub sql_str : Text
  pub db_server_ip : Text
  pub db_server_port : Text
  pub database_name : Text
  pub avg_duration : ℤ
  pub max_duration : ℤ
  pub min_duration : ℤ
  pub exec_count : ℤ
  pub cache_hit_count : ℤ
  pub created_at : D

-- The table of metrics, and the library's local times, of which a number of milliseconds may be out
-- of range.
pub record Metrics : Type 1 where
  pub Date : Type 0
  pub timestamp_millis_opt : ℤ → Option Date
  pub State : Type 0
  pub insert_row : State → ActiveModel Date → Result Text State

module _ (ms : Metrics) where
  unfoldable pub row_of : Text → MetricHistory → ms.Date → ActiveModel ms.Date
  row_of remote_ip x created_at = record {
    sql_str = x.sql_str;
    db_server_ip = remote_ip;
    db_server_port = x.db_server_port;
    database_name = x.database_name;
    avg_duration = to_i32 x.avg_duration;
    max_duration = to_i32 x.max_duration;
    min_duration = to_i32 x.min_duration;
    exec_count = to_i32 x.exec_count;
    cache_hit_count = to_i32 x.cache_hit_count;
    created_at = created_at;
  }

  -- How the loop over the rows ends: with a panic of `unwrap` at a time that is out of range, with an
  -- error of the database, or with all rows saved. The rows before are saved.
  pub data Saved : Type 0 where
    panicked : ms.State → Saved
    failed : ms.State → Text → Saved
    saved : ms.State → Saved

  unfoldable pub save_rows : Text → List MetricHistory → ms.State → Saved
  unfolding row_of times_1000
  save_rows remote_ip [] s = saved s
  save_rows remote_ip (x ∷ rest) s = elim (ms.timestamp_millis_opt (times_1000 x.created_at)) [
    | none ↦ panicked s
    | some created_at ↦ elim (ms.insert_row s (row_of remote_ip x created_at)) [
      | err e ↦ failed s e
      | ok s' ↦ save_rows remote_ip rest s'
    ]
  ]

  -- What `register` answers, if it does not panic.
  abbrev pub answer : Saved → Option (Result SysError (DataWrapper Text))
  answer (panicked s) = none
  answer (failed s e) = some (err (system e))
  answer (saved s) = some (ok (success_of Text []))

  abbrev pub state_of : Saved → ms.State
  state_of (panicked s) = s
  state_of (failed s e) = s
  state_of (saved s) = s

  abbrev pub node_key : Text → Text → Text
  node_key remote_ip port = remote_ip ++ codes ":" ++ port

  pub record AppState : Type 0 where
    pub vt_nodes : Nodes
    pub metrics : ms.State

  -- The handler; `remote_ip` is `none` where the connection has no peer address.
  unfoldable pub register :
      ℕ
      → Option Text
      → Text
      → List MetricHistory
      → AppState
      → AppState × Option (Result SysError (DataWrapper Text))
  unfolding save_rows register_node
  register now none port metric_history_list s =
      (s, some (ok (result Text (negsuc 0) (codes "无法获取客户端IP") (some []))))
  register now (some remote_ip) port metric_history_list s =
      let outcome = save_rows remote_ip metric_history_list s.metrics in
      (
        record {
          vt_nodes = register_node (node_key remote_ip port) now s.vt_nodes;
          metrics = state_of outcome;
        },
        answer outcome,
      )
