-- ===== src/Server/Handler.antt =====
-- server/src/serve/mod.rs: `VirtDBConnectionHandler`, which decides what is done with a request and
-- what is recorded of a response. The clock's readings are arguments.
pub mod Requests
pub mod Outcomes
pub mod Configured
use virt_db.Prelude.{
  ℕ, zero, suc, ◌+◌, ◌-◌, ◌/◌, Bool, true, false, ◌&&◌, Option, none, some, List, [], ◌∷◌, ◌++◌,
  Text, codes, ltb, length, not, if◌then◌else◌,
}
use virt_db.Prelude.Int.{ℤ, pos, as_i64}
use virt_db.Text.{to_uppercase, trim, starts_with, contains}
use virt_db.Sql.Comments.{remove_comments}
use virt_db.Sql.Tokens.{Token, is_pattern_match}
use virt_db.Sql.Statement.{Statement, sql_to_pattern}
use virt_db.Server.Packet.{PacketType, com_query, com_stmt_execute, com_quit}
use virt_db.Server.Cache.{read_key, CacheTaskInfo}
use virt_db.Server.Meta.{CacheConfigEntity}

pub data Action : Type 0 where
  forward : Action
  drop : Action
  responsed : List ℕ → Action

-- An `Instant` is a number of nanoseconds since some moment in the past.
pub record ProxyContext : Type 0 where
  pub sql : Option Text
  pub should_update_cache : Bool
  pub fn_start_time : ℕ
  pub mysql_exec_start_time : Option ℕ
  pub redis_duration : ℤ
  pub from_cache : Bool
  pub cache_duration : ℤ
  pub total_duration : ℤ
  pub mysql_duration : ℤ
  pub skip : Bool

-- (later - earlier).as_millis() as i64; the difference of two instants stops at 0.
abbrev pub millis_since : ℕ → ℕ → ℤ
millis_since earlier later = as_i64 ((later - earlier) / 1000000)

-- The moments at which `handle_request` reads the clock.
pub record Clock : Type 0 where
  pub at_start : ℕ
  pub before_redis : ℕ
  pub after_redis : ℕ

-- The two commands that a request may send to Redis, with their replies at that moment.
pub record Replies : Type 0 where
  pub exists : Text → Option Bool
  pub get : Text → Option (List ℕ)

-- The tables and the foreign functions that the handler calls.
pub record Env : Type 0 where
  pub upper : ℕ → Text
  pub tokenize : Text → Option (List Token)
  pub parse : Text → Option (List Statement)
  pub print : Statement → Text

-- The loop over the configurations, up to the first that matches.
unfoldable pub find_entity : Env → List CacheConfigEntity → Text → Option CacheConfigEntity
unfolding is_pattern_match
find_entity env [] sql = none
find_entity env (entity ∷ rest) sql =
    let next = find_entity env rest sql in
    if is_pattern_match env.tokenize entity.cached_sql_parser_token
      (trim (to_uppercase env.upper sql))
    then some entity
    else next

-- The context that a request leaves behind when it was looked up and not answered.
abbrev pub looked_up : Clock → CacheConfigEntity → ProxyContext → ProxyContext
looked_up clock entity ctx = record ctx {
  cache_duration = entity.duration;
  redis_duration = millis_since clock.before_redis clock.after_redis;
}

-- From the first command to Redis on.
unfoldable pub look_up :
    Replies → Clock → CacheConfigEntity → Text → ProxyContext → ProxyContext × Action
look_up replies clock entity sql ctx =
    let cache_key = read_key sql in
    elim (replies.exists cache_key) [
      | none ↦ (looked_up clock entity ctx, forward)
      | some is_exists ↦
          if not is_exists
          then (record (looked_up clock entity ctx) { should_update_cache = true }, forward)
          else elim (replies.get cache_key) [
            | none ↦ (looked_up clock entity ctx, forward)
            | some cache_v ↦
                if ltb (length cache_v) 1 then (looked_up clock entity ctx, forward) else (
                  record ctx {
                    redis_duration = millis_since clock.before_redis clock.after_redis;
                    from_cache = true;
                  },
                  responsed cache_v,
                )
          ]
    ]

-- `PacketType::ComQuery`
unfoldable pub handle_query :
    Env → Replies → List CacheConfigEntity → Clock → Text → ProxyContext → ProxyContext × Action
unfolding look_up find_entity
handle_query env replies entities clock sql ctx =
    let upper_sql = to_uppercase env.upper sql in
    if not (starts_with (codes "SELECT") upper_sql)
    then (ctx, forward)
    else if contains (0 ∷ 0 ∷ 0 ∷ 3 ∷ []) upper_sql
    then (record ctx { skip = true }, forward)
    else if not (starts_with (codes "SELECT") upper_sql)
    then (ctx, forward)
    else elim (find_entity env entities sql) [
      | none ↦ (ctx, forward)
      | some entity ↦ look_up replies clock entity sql ctx
    ]

abbrev pub handle_packet :
    Env
    → Replies
    → List CacheConfigEntity
    → Clock
    → PacketType
    → Text
    → ProxyContext
    → ProxyContext × Action
handle_packet env replies entities clock com_query sql ctx =
    handle_query env replies entities clock sql ctx
handle_packet env replies entities clock com_stmt_execute sql ctx = (ctx, forward)
handle_packet env replies entities clock com_quit sql ctx = (ctx, forward)
handle_packet env replies entities clock _ sql ctx = (ctx, forward)

-- The early return of a request that is not text, and the rest.
abbrev pub handle_sql :
    Env
    → Replies
    → List CacheConfigEntity
    → Clock
    → PacketType
    → Option Text
    → ProxyContext
    → ProxyContext × Action
handle_sql env replies entities clock packet_type none ctx = (ctx, forward)
handle_sql env replies entities clock packet_type (some origin_sql) ctx =
    handle_packet env replies entities clock packet_type (remove_comments origin_sql) ctx

unfoldable pub handle_request :
    Env
    → Replies
    → List CacheConfigEntity
    → Clock
    → PacketType
    → ProxyContext
    → ProxyContext × Action
unfolding handle_query remove_comments
handle_request env replies entities clock packet_type ctx =
    handle_sql env replies entities clock packet_type ctx.sql
      (record ctx { fn_start_time = clock.at_start })

-- The clock is read once for each of the two durations.
unfoldable pub handle_response : ℕ → ℕ → ProxyContext → ProxyContext
handle_response now now' ctx =
    let total = record ctx { total_duration = millis_since ctx.fn_start_time now } in
    elim ctx.mysql_exec_start_time [
      | none ↦ total
      | some start ↦ record total { mysql_duration = millis_since start now' }
    ]

pub record ExecLog : Type 0 where
  pub sql_str : Text
  pub total_duration : ℤ
  pub mysql_duration : ℤ
  pub redis_duration : ℤ
  pub from_cache : Bool

-- The two channels out of the handler. A send waits for room; it fails only after the receiver is
-- gone, and then the message is dropped with a warning.
pub record Outbox : Type 0 where
  pub cache_tasks : List CacheTaskInfo
  pub cache_tasks_open : Bool
  pub exec_logs : List ExecLog
  pub exec_logs_open : Bool

abbrev pub send {ℓ} : {A : Type ℓ} → Bool → List A → A → List A
send is_open sent message = if is_open then sent ++ (message ∷ []) else sent

abbrev pub send_task : ProxyContext → Text → List ℕ → Outbox → Outbox
send_task ctx sql full_response out =
    if ctx.should_update_cache && not ctx.skip
    then record out {
      cache_tasks =
          send out.cache_tasks_open out.cache_tasks
            (record { sql = sql; body = full_response; duration = ctx.cache_duration });
    }
    else out

abbrev pub send_log : ProxyContext → Option Text → Outbox → Outbox
send_log ctx none out = out
send_log ctx (some sql_pattern) out = record out {
  exec_logs = send out.exec_logs_open out.exec_logs (record {
    sql_str = sql_pattern;
    total_duration = ctx.total_duration;
    mysql_duration = ctx.mysql_duration;
    redis_duration = ctx.redis_duration;
    from_cache = ctx.from_cache;
  });
}

unfoldable pub handle_remote_response_finished : Env → ProxyContext → List ℕ → Outbox → Outbox
unfolding sql_to_pattern
handle_remote_response_finished env ctx full_response out = elim ctx.sql [
  | none ↦ out
  | some sql ↦
      send_log ctx (sql_to_pattern env.parse env.print sql) (send_task ctx sql full_response out)
]
