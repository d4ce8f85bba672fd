-- ===== src/Tests/Node.antt =====
-- The theorems on registered nodes at concrete inputs.
use virt_db.Prelude.{◌≡◌, some, List, [], ◌∷◌, Text, codes, arith, ltb, length, if◌then◌else◌}
use virt_db.Prelude.Int.{ℤ, pos}
use virt_db.Admin.Error.{ok, err}
use virt_db.Admin.Node.{
  empty, alive_check, register_node, MetricHistory, ActiveModel, Metrics, node_key, AppState,
  register,
}
use virt_db.Admin.Node.Alive.{
  NodeEvent, registered, checked, run_nodes, IsAlive, alive_check-run_nodes,
}
use virt_db.Admin.Node.Register.{SavesUpTo, register-SavesUpTo}

abbrev node : Text
node = codes "10.0.0.1:3306"

abbrev events : List NodeEvent
events = registered node 5 ∷ checked 100 ∷ registered node 200000000000 ∷ []

alive_check-run_nodes_example :
    IsAlive 310000000000
      (some 320000000000)
      (alive_check 310000000000 (run_nodes events empty) node)
alive_check-run_nodes_example =
    alive_check-run_nodes node 310000000000 events empty (omega arith, tt)

-- A table that takes two rows.
abbrev pub metrics : Metrics
metrics = record {
  Date = ℤ;
  timestamp_millis_opt = λ v. some v;
  State = List (ActiveModel ℤ);
  insert_row = λ s row. if ltb (length s) 2 then ok (row ∷ s) else err (codes "full");
}

abbrev row : Text → MetricHistory
row sql_str = record {
  sql_str = sql_str;
  db_server_port = codes "3306";
  database_name = [];
  avg_duration = pos 3;
  max_duration = pos 4;
  min_duration = pos 2;
  exec_count = pos 2;
  cache_hit_count = pos 0;
  created_at = pos 1676628781;
}

abbrev pub rows : List MetricHistory
rows = row (codes "a") ∷ row (codes "b") ∷ row (codes "c") ∷ []

abbrev state : AppState metrics
state = record { vt_nodes = empty; metrics = [] }

register-SavesUpTo_example :
    let (s', reply) = register metrics 5 (some (codes "10.0.0.1")) (codes "3306") rows state in
    (s'.vt_nodes ≡ register_node (node_key metrics (codes "10.0.0.1") (codes "3306")) 5 empty)
    × SavesUpTo metrics (codes "10.0.0.1") rows [] s'.metrics reply
register-SavesUpTo_example =
    register-SavesUpTo metrics (codes "10.0.0.1") 5 (codes "3306") rows state
