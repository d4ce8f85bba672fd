-- ===== src/Registration.antt =====
-- A batch of logs on its way from a proxy, `handle_metrics` and `register` of
-- server/src/sys_assistant_client.rs, to the table of the admin service, `register` of
-- admin/src/controller/vt_node_controller.rs. The JSON between them names the same fields on both sides.
pub mod Counts
use virt_db.Prelude.{ℕ, Option, List, map, Text}
use virt_db.Prelude.Int.{ℤ, pos}
use virt_db.Server.Handler.{ExecLog}
use virt_db.Server.Metric.{Float, metric_history_list}
use virt_db.Server.Metric as Proxy
use virt_db.Admin.Error.{Result, SysError, DataWrapper}
use virt_db.Admin.Node.{MetricHistory, Metrics, AppState, register}

-- A row as the admin service reads it.
unfoldable pub received : Proxy.MetricHistory → MetricHistory
received row = record {
  sql_str = row.sql_str;
  db_server_port = row.db_server_port;
  database_name = row.database_name;
  avg_duration = row.avg_duration;
  max_duration = row.max_duration;
  min_duration = row.min_duration;
  exec_count = pos row.exec_count;
  cache_hit_count = row.cache_hit_count;
  created_at = row.created_at;
}

-- The request that a proxy on `port` sends for its logs at `created_at`, as the admin service handles
-- it at `now`.
unfoldable pub register_batch :
    (fl : Float) (ms : Metrics)
    → Text
    → ℤ
    → List ExecLog
    → ℕ
    → Option Text
    → AppState ms
    → AppState ms × Option (Result SysError (DataWrapper Text))
unfolding received metric_history_list register
register_batch fl ms port created_at exec_log_list now remote_ip s =
    register ms now remote_ip port
      (map received (metric_history_list fl port created_at exec_log_list)) s
