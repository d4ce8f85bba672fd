-- ===== src/Tests/Proxy.antt =====
-- The theorems on connections at concrete packets.
use virt_db.Prelude.{ℕ, ◌≡◌, refl, true, none, some, List, [], ◌∷◌, ◌++◌, arith, inl, map}
use virt_db.Text.{from_utf8, is_whitespace, starts_with, contains, to_uppercase}
use virt_db.Sql.Comments.{remove_comments}
use virt_db.Sql.Tokens.{is_pattern_match}
use virt_db.Server.Packet.{packet_type, com_query}
use virt_db.Server.Cache.{read_key}
use virt_db.Server.Handler.{
  ProxyContext, Outbox, find_entity, handle_request, handle_response,
  handle_remote_response_finished,
}
use virt_db.Prelude.Int.{pos}
use virt_db.Server.Proxy.{
  Conn, Round, running, Arrival, Response, Event, from_client, from_remote, fresh, client_step,
  remote_step, run,
}
use virt_db.Server.Proxy.Invariant.{IsValid, run-IsValid}
use virt_db.Server.Proxy.Traffic.{client_bytes, remote_bytes, run-transparent}
use virt_db.Server.Proxy.Unknown.{brought, resent, run-unknown}
use virt_db.Server.Proxy.Progress.{client_step-runs}
use virt_db.Server.Serving.{replies_of}
use virt_db.Tests.World.{env, statement, entity, clock, redis}

abbrev pub outbox : Outbox
outbox = record { cache_tasks = []; cache_tasks_open = true; exec_logs = []; exec_logs_open = true }

abbrev pub start : Conn
start = record {
  r_buf = [];
  ctx_channel = [];
  cached_buf = [];
  cached_ctx = none;
  to_remote = [];
  to_client = [];
  out = outbox;
}

abbrev pub arrival : List ℕ → Arrival
arrival chunk = record {
  chunk = chunk;
  entities = entity ∷ [];
  replies = replies_of redis [];
  clock = clock;
  created = 0;
  forwarded = 4000000;
  ended = 5000000;
  ended' = 5000000;
  written = true;
}

abbrev pub response : List ℕ → Response
response chunk = record { chunk = chunk; ended = 9000000; ended' = 9000000; written = true }

abbrev pub query : List ℕ
query = 9 ∷ 0 ∷ 0 ∷ 0 ∷ 3 ∷ statement

abbrev result_of : Round → Conn
result_of (running conn) = conn
result_of _ = start

abbrev events : List Event
events = from_client (arrival query) ∷ from_remote (response (1 ∷ 2 ∷ [])) ∷ []

abbrev after : Conn
after = result_of (run env events start)

after_runs : run env events start ≡ running after
unfolding run client_step remote_step packet_type handle_request handle_response find_entity
    from_utf8 is_whitespace starts_with contains to_uppercase is_pattern_match remove_comments
    read_key
after_runs = refl

start-IsValid : IsValid start
start-IsValid = record { one_ctx = omega arith; fits = omega arith; clean = inl refl }

run-IsValid_example : IsValid after
run-IsValid_example = run-IsValid env events start after start-IsValid after_runs

run-transparent_example :
    (after.to_remote ≡ [] ++ client_bytes events) × (after.to_client ≡ [] ++ remote_bytes events)
unfolding packet_type
run-transparent_example =
    run-transparent env events start after
      (record { fits = omega arith; known = λ e. cc; no_key = λ k e. cc }, (omega arith, tt)) refl
      after_runs

abbrev greeting : Arrival
greeting = arrival (1 ∷ 0 ∷ 0 ∷ 1 ∷ 0x85 ∷ [])

run-unknown_example :
    run env (map from_client (greeting ∷ arrival query ∷ [])) start
    ≡ running (record start {
      r_buf = [] ++ brought (greeting ∷ arrival query ∷ []);
      to_remote = [] ++ resent [] (greeting ∷ arrival query ∷ []);
    })
unfolding packet_type
run-unknown_example =
    run-unknown env greeting (arrival query ∷ []) start ((refl, refl), ((refl, refl), tt))
      (omega arith) refl

client_step-runs_example : (conn' : Conn) × (client_step env (arrival query) start ≡ running conn')
unfolding packet_type
client_step-runs_example =
    client_step-runs env (arrival query) start com_query refl refl (omega arith) (omega arith) refl
      refl

abbrev pub missed : ProxyContext
missed = record (fresh 0) {
  sql = some statement;
  should_update_cache = true;
  cache_duration = pos 90;
  mysql_exec_start_time = some 0;
}

-- The context of the request waits in the channel; another was taken before.
abbrev pub asked_before : Conn
asked_before = record start {
  cached_ctx = some (fresh 0);
  cached_buf = 5 ∷ [];
  ctx_channel = missed ∷ [];
}

abbrev pub in_response : Conn
in_response = result_of (remote_step env (response (1 ∷ [])) asked_before)

pub in_response_runs : remote_step env (response (1 ∷ [])) asked_before ≡ running in_response
unfolding remote_step handle_response handle_remote_response_finished
in_response_runs = refl

abbrev pub collected : Conn
collected = result_of (remote_step env (response (2 ∷ [])) in_response)

pub collected_runs : remote_step env (response (2 ∷ [])) in_response ≡ running collected
unfolding remote_step
collected_runs = refl

abbrev pub next_asked : Conn
next_asked = result_of (client_step env (arrival query) collected)

pub next_asked_runs : client_step env (arrival query) collected ≡ running next_asked
unfolding client_step remote_step packet_type handle_request handle_response find_entity from_utf8
    is_whitespace starts_with contains to_uppercase is_pattern_match remove_comments read_key
next_asked_runs = refl

abbrev pub finished : Conn
finished = result_of (remote_step env (response (3 ∷ [])) next_asked)

pub finished_runs : remote_step env (response (3 ∷ [])) next_asked ≡ running finished
unfolding client_step remote_step packet_type handle_request handle_response find_entity from_utf8
    is_whitespace starts_with contains to_uppercase is_pattern_match remove_comments read_key
    handle_remote_response_finished
finished_runs = refl

abbrev pub next_ctx : ProxyContext
next_ctx = record (fresh 0) {
  sql = some statement;
  should_update_cache = true;
  mysql_exec_start_time = some 4000000;
  redis_duration = pos 2;
  cache_duration = pos 90;
}

-- The first context of a connection takes over what the database sent before, such as its greeting.
abbrev first_asked : Conn
first_asked = record start { cached_buf = 5 ∷ []; ctx_channel = missed ∷ [] }

greeting_kept :
    (result_of (remote_step env (response (1 ∷ [])) first_asked)).cached_buf ≡ 5 ∷ 1 ∷ []
unfolding remote_step handle_response
greeting_kept = refl
