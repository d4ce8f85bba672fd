-- ===== src/Server/Proxy.antt =====
-- server/src/serve/mod.rs: `handle_client`, the two loops that carry bytes between a client and the
-- database. One step is one round of a loop, with what the outside gives it. The rounds of the two
-- loops do not overlap, and both directions of a connection share the state.
pub mod Steps
pub mod Invariant
pub mod Traffic
pub mod Unknown
pub mod Recording
pub mod Progress
pub mod Queries
use virt_db.Prelude.{
  ℕ, ◌+◌, ◌-◌, Bool, true, false, Option, none, some, List, [], ◌∷◌, ◌++◌, length, take, drop, ltb,
  is_empty, not, ◌==◌, if◌then◌else◌, Text,
}
use virt_db.Prelude.Int.{ℤ, pos}
use virt_db.Text.{from_utf8}
use virt_db.Server.Packet.{PacketType, Checked, panic, value, Packet, packet_type}
use virt_db.Server.Meta.{CacheConfigEntity}
use virt_db.Server.Handler.{
  Action, forward, responsed, ProxyContext, Clock, Replies, Env, Outbox, handle_request,
  handle_response, handle_remote_response_finished,
}
use virt_db.Server.Handler.{drop as drop_action}

abbrev pub buffer_size : ℕ
buffer_size = 8192

-- `r_buf` is the filled part of the client's buffer; the other loop always clears its own. The
-- channel holds at most one context. What was written to each side is kept.
pub record Conn : Type 0 where
  pub r_buf : List ℕ
  pub ctx_channel : List ProxyContext
  pub cached_buf : List ℕ
  pub cached_ctx : Option ProxyContext
  pub to_remote : List ℕ
  pub to_client : List ℕ
  pub out : Outbox

-- What ends a round: the loop goes on; the loop returns, and with it the connection ends; the task
-- panics; or it waits for room in the channel, holding the handler's lock.
pub data Round : Type 0 where
  running : Conn → Round
  closed : Conn → Round
  panicked : Round
  waiting : Conn → Round

-- What the outside gives a round of `client_to_remote`: the bytes that are there to be read, the
-- configurations, Redis, the clock, and whether the write of the round succeeds.
pub record Arrival : Type 0 where
  pub chunk : List ℕ
  pub entities : List CacheConfigEntity
  pub replies : Replies
  pub clock : Clock
  pub created : ℕ
  pub forwarded : ℕ
  pub ended : ℕ
  pub ended' : ℕ
  pub written : Bool

abbrev pub fresh : ℕ → ProxyContext
fresh now = record {
  sql = none;
  should_update_cache = false;
  fn_start_time = now;
  mysql_exec_start_time = none;
  redis_duration = pos 0;
  from_cache = false;
  cache_duration = pos 0;
  total_duration = pos 0;
  mysql_duration = pos 0;
  skip = false;
}

-- `read_buf` appends what there is room for.
abbrev pub read : Conn → List ℕ → List ℕ
read conn chunk = take (buffer_size - length conn.r_buf) chunk

-- remote_writer.write_all(data).await?; r_buf.clear()
abbrev pub write_remote : Bool → List ℕ → Conn → Round
write_remote true bytes conn =
    running (record conn { r_buf = []; to_remote = conn.to_remote ++ bytes })
write_remote false bytes conn = closed conn

-- The send into the channel of capacity 1, and the write that follows it.
abbrev pub send_ctx : Bool → List ℕ → ProxyContext → Conn → Round
send_ctx written bytes ctx conn =
    if is_empty conn.ctx_channel
    then write_remote written bytes (record conn { ctx_channel = ctx ∷ [] })
    else waiting conn

-- handle_response and handle_remote_response_finished after a request that was not forwarded.
abbrev pub finish_here : Env → Arrival → List ℕ → ProxyContext → Conn → Conn
finish_here env a response ctx conn = record conn {
  r_buf = [];
  out =
      handle_remote_response_finished env (handle_response a.ended a.ended' ctx) response conn.out;
}

-- The `match` on the action. A failing write to the client is only logged.
unfoldable pub perform : Env → Arrival → List ℕ → Conn → ProxyContext → Action → Round
perform env a bytes conn ctx forward =
    send_ctx a.written bytes (record ctx { mysql_exec_start_time = some a.forwarded }) conn
perform env a bytes conn ctx drop_action = running (finish_here env a [] ctx conn)
perform env a bytes conn ctx (responsed cached) = running (
    finish_here env a cached ctx
      (record conn { to_client = if a.written then conn.to_client ++ cached else conn.to_client }))

-- `&data[5..n]` panics where n is below 5.
unfoldable pub handle_typed : Env → Arrival → List ℕ → ℕ → Conn → PacketType → Round
unfolding perform
handle_typed env a bytes n conn packet_type =
    let ctx = record (fresh a.created) { sql = from_utf8 (take (n - 5) (drop 5 bytes)) } in
    let (ctx', action) = handle_request env a.replies a.entities a.clock packet_type ctx in
    if ltb n 5 then panicked else perform env a bytes conn ctx' action

-- A packet of no known type is written on, and stays in the buffer.
abbrev pub keep_buffer : Bool → List ℕ → Conn → Round
keep_buffer true bytes conn =
    running (record conn { r_buf = bytes; to_remote = conn.to_remote ++ bytes })
keep_buffer false bytes conn = closed conn

-- A round of `client_to_remote`.
unfoldable pub client_step : Env → Arrival → Conn → Round
unfolding handle_typed packet_type
client_step env a conn =
    let new = read conn a.chunk in
    let bytes = conn.r_buf ++ new in
    if is_empty new then closed conn else elim (packet_type (record { bytes = bytes })) [
      | panic ↦ panicked
      | value none ↦ keep_buffer a.written bytes conn
      | value (some t) ↦ handle_typed env a bytes (length new) conn t
    ]

-- What the outside gives a round of `remote_to_client`.
pub record Response : Type 0 where
  pub chunk : List ℕ
  pub ended : ℕ
  pub ended' : ℕ
  pub written : Bool

-- The response to the previous context is complete when the next context comes.
abbrev pub flush : Env → Conn → Conn
flush env conn = elim conn.cached_ctx [
  | none ↦ conn
  | some old_ctx ↦ record conn {
    out = handle_remote_response_finished env old_ctx conn.cached_buf conn.out;
    cached_buf = [];
  }
]

-- `if let Ok(current_ctx) = ctx_receiver.try_recv()`
abbrev pub receive_from : Env → List ProxyContext → Conn → Conn
receive_from env [] conn = conn
receive_from env (current_ctx ∷ rest) conn = record (flush env conn) {
  cached_ctx = some current_ctx;
  ctx_channel = rest;
}

unfoldable pub receive : Env → Conn → Conn
receive env conn = receive_from env conn.ctx_channel conn

abbrev pub touch : Response → Option ProxyContext → Option ProxyContext
touch r none = none
touch r (some ctx) = some (handle_response r.ended r.ended' ctx)

-- A round of `remote_to_client`; a failing write to the client is a panic.
unfoldable pub remote_step : Env → Response → Conn → Round
unfolding receive
remote_step env r conn =
    let new = take buffer_size r.chunk in
    let conn' = receive env conn in
    if is_empty new
    then closed conn
    else if r.written
    then running (record conn' {
      cached_buf = conn'.cached_buf ++ new;
      cached_ctx = touch r conn'.cached_ctx;
      to_client = conn'.to_client ++ new;
    })
    else panicked

pub data Event : Type 0 where
  from_client : Arrival → Event
  from_remote : Response → Event

abbrev pub step : Env → Event → Conn → Round
step env (from_client a) conn = client_step env a conn
step env (from_remote r) conn = remote_step env r conn

abbrev pub continue : Round → (Conn → Round) → Round
continue (running conn) f = f conn
continue (closed conn) f = closed conn
continue panicked f = panicked
continue (waiting conn) f = waiting conn

-- The rounds of a connection, up to the first that does not go on.
unfoldable pub run : Env → List Event → Conn → Round
run env [] conn = running conn
run env (e ∷ events) conn = continue (step env e conn) (λ conn'. run env events conn')
