-- ===== src/Server/System.antt =====
-- The whole proxy: server/src/server.rs accepts connections, each handled as in
-- server/src/serve/mod.rs with the configurations of server/src/meta.rs, and one task fills the cache
-- (server/src/sys_assistant_client.rs). What they share is here, and a schedule says who goes on. The
-- rounds of two connections do not overlap.
pub mod Provenance
pub mod Tracked
pub mod Sends
pub mod ClientRounds
pub mod RemoteRounds
pub mod Integrity
pub mod Preservation
pub mod Answers
use virt_db.Prelude.{
  ℕ, zero, suc, Bool, true, false, ◌&&◌, Option, none, some, List, [], ◌∷◌, ◌++◌, Text, take,
  get_elem?, if◌then◌else◌,
}
use virt_db.Server.Cache.{Unicode, CacheTaskInfo, Redis, handle_cache_task}
use virt_db.Server.Cache.Timed.{Times}
use virt_db.Server.Meta.{CacheConfigEntity, Answer, reload}
use virt_db.Server.Handler.{Env, Outbox}
use virt_db.Server.Proxy.{
  Conn, Round, running, closed, panicked, waiting, Arrival, Response, buffer_size, client_step,
  remote_step, receive,
}
use virt_db.Server.Proxy.Steps.{request_ctx}
use virt_db.Server.Serving.{replies_of}

-- A connection; the statements of the packets that were handled, and the bytes that the database sent,
-- are kept. It is not open any more after a loop has returned or panicked, or has come to wait for
-- room in the channel.
pub record Line : Type 0 where
  pub conn : Conn
  pub is_open : Bool
  pub asked : List Text
  pub received : List ℕ

-- `out` holds the two channels that all connections send into.
pub record System (r : Redis) : Type 0 where
  pub lines : List Line
  pub redis : r.State
  pub entities : List CacheConfigEntity
  pub out : Outbox

pub data SystemEvent : Type 0 where
  -- A client connects; whether Redis and the database can be reached for it.
  accepted : Bool → Bool → SystemEvent
  -- A round of one of the two loops of a connection. What a request sees of Redis and of the
  -- configurations is that of the moment.
  from_client : ℕ → Arrival → SystemEvent
  from_remote : ℕ → Response → SystemEvent
  -- The task that fills the cache takes a task from the channel.
  task_taken : SystemEvent
  -- The configurations are loaded.
  reloaded : Answer → SystemEvent
  -- Milliseconds pass.
  time_passed : ℕ → SystemEvent

abbrev pub set {ℓ} : {A : Type ℓ} → List A → ℕ → A → List A
set [] i v = []
set (x ∷ xs) zero v = v ∷ xs
set (x ∷ xs) (suc i) v = x ∷ set xs i v

-- The state of a new connection.
abbrev pub fresh_conn : Outbox → Conn
fresh_conn out = record {
  r_buf = [];
  ctx_channel = [];
  cached_buf = [];
  cached_ctx = none;
  to_remote = [];
  to_client = [];
  out = out;
}

abbrev pub fresh_line : Outbox → Line
fresh_line out = record { conn = fresh_conn out; is_open = true; asked = []; received = [] }

abbrev pub statements : Option Text → List Text
statements none = []
statements (some sql) = sql ∷ []

module _ (env : Env) (u : Unicode) (r : Redis) (t : Times r) where
  -- `parse().unwrap()` of the database's address and `unwrap` of the connection to Redis end the task
  -- of the connection with a panic; where the database cannot be reached `handle_client` returns.
  unfoldable pub accept : Bool → Bool → Bool → System r → System r
  accept address_parses redis_connects remote_connects s =
      if address_parses && redis_connects && remote_connects
      then record s { lines = s.lines ++ (fresh_line s.out ∷ []) }
      else s

  -- The arrival with what the request sees at this moment.
  abbrev pub seen : System r → Arrival → Arrival
  seen s a = record a { entities = s.entities; replies = replies_of r s.redis }

  abbrev pub shared : System r → Line → Conn
  shared s line = record line.conn { out = s.out }

  abbrev pub stop : ℕ → Line → Outbox → System r → System r
  stop i line out s = record s {
    lines = set s.lines i (record line { is_open = false });
    out = out;
  }

  abbrev pub after_client : ℕ → Line → Option Text → System r → Round → System r
  after_client i line sql s (running conn) = record s {
    lines = set s.lines i (record line { conn = conn; asked = line.asked ++ statements sql });
    out = conn.out;
  }
  after_client i line sql s (closed conn) = stop i line s.out s
  after_client i line sql s panicked = stop i line s.out s
  after_client i line sql s (waiting conn) = stop i line s.out s

  -- A panic comes after what was sent into the channels.
  abbrev pub after_remote : ℕ → Line → List ℕ → System r → Round → System r
  after_remote i line new s (running conn) = record s {
    lines = set s.lines i (record line { conn = conn; received = line.received ++ new });
    out = conn.out;
  }
  after_remote i line new s (closed conn) = stop i line s.out s
  after_remote i line new s panicked = stop i line (receive env (shared s line)).out s
  after_remote i line new s (waiting conn) = stop i line s.out s

  abbrev pub client_round : ℕ → Arrival → System r → Line → System r
  client_round i a s line =
      after_client i line (request_ctx env a (shared s line)).sql s
        (client_step env (seen s a) (shared s line))

  abbrev pub remote_round : ℕ → Response → System r → Line → System r
  remote_round i b s line =
      after_remote i line (take buffer_size b.chunk) s (remote_step env b (shared s line))

  -- The round of a connection, if it is open.
  abbrev pub at_line : ℕ → (Line → System r) → System r → System r
  at_line i round s = elim (get_elem? s.lines i) [
    | none ↦ s
    | some line ↦ if line.is_open then round line else s
  ]

  abbrev pub take_task : List CacheTaskInfo → System r → System r
  take_task [] s = s
  take_task (task ∷ rest) s = record s {
    redis = (handle_cache_task u r s.redis task).0;
    out = record s.out { cache_tasks = rest };
  }

  unfoldable pub system_step : Bool → SystemEvent → System r → System r
  unfolding accept client_step remote_step handle_cache_task reload
  system_step address_parses (accepted redis_connects remote_connects) s =
      accept address_parses redis_connects remote_connects s
  system_step address_parses (from_client i a) s = at_line i (client_round i a s) s
  system_step address_parses (from_remote i b) s = at_line i (remote_round i b s) s
  system_step address_parses task_taken s = take_task s.out.cache_tasks s
  system_step address_parses (reloaded answer) s =
      elim (reload env.upper env.tokenize answer s.entities) [
        | none ↦ s
        | some entities ↦ record s { entities = entities }
      ]
  system_step address_parses (time_passed ms) s = record s { redis = t.pass ms s.redis }

  unfoldable pub system_run : Bool → List SystemEvent → System r → System r
  unfolding system_step
  system_run address_parses [] s = s
  system_run address_parses (e ∷ events) s =
      system_run address_parses events (system_step address_parses e s)
