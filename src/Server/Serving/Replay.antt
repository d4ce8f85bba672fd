-- ===== src/Server/Serving/Replay.antt =====
-- A response on its whole way: from the database through one connection (server/src/serve/mod.rs)
-- and the task (server/src/sys_assistant_client.rs) into the cache, and from there to another
-- connection.
use virt_db.Prelude.{
  ℕ, ◌≤◌, ◌<◌, ◌≡◌, ◌≢◌, refl, ap, ◌∙◌, true, false, some, none, List, [], ◌∷◌, ◌++◌, length, take,
  Text, All,
}
use virt_db.Prelude.Int.{pos, ◌≤ℤ◌}
use virt_db.Text.Encoding.{IsScalar}
use virt_db.Sql.Comments.{remove_comments}
use virt_db.Server.Packet.{com_query}
use virt_db.Server.Cache.{Unicode, escape, write_key, Redis, handle_cache_task}
use virt_db.Server.Cache.Timed.{Times, TimedLaws, CacheEvent, lifetime, elapsed, Untouched}
use virt_db.Server.Meta.{CacheConfigEntity}
use virt_db.Server.Handler.{Env, Replies, Action, responsed, ProxyContext, handle_request}
use virt_db.Server.Handler.Requests.{IsCacheable}
use virt_db.Server.Proxy.{
  Conn, running, Arrival, Response, buffer_size, perform, client_step, remote_step, finish_here,
}
use virt_db.Server.Proxy.Queries.{query_of, asked, client_step-query}
use virt_db.Server.Proxy.Recording.{Collects, kept, task_of, recorded-task}
use virt_db.Server.Serving.{replies_of}
use virt_db.Server.Serving.Fresh.{later, task-served_until}

-- The client was sent `v`; the database was not asked.
pub record IsAnswered (v : List ℕ) (conn conn' : Conn) : Type 0 where
  pub to_client : conn'.to_client ≡ conn.to_client ++ v
  pub to_remote : conn'.to_remote ≡ conn.to_remote
  pub ctx_channel : conn'.ctx_channel ≡ conn.ctx_channel
  pub r_buf : conn'.r_buf ≡ []

perform-IsAnswered :
    (env : Env) (a : Arrival) (bytes : List ℕ) (conn : Conn) (ctx : ProxyContext) (action : Action)
    (v : List ℕ)
    → action ≡ responsed v
    → a.written ≡ true
    → (conn' : Conn) × (perform env a bytes conn ctx action ≡ running conn')
      × IsAnswered v conn conn'
unfolding perform
perform-IsAnswered env a bytes conn ctx action v e w = (
  finish_here env a v ctx (record conn { to_client = conn.to_client ++ v }),
  rw (e, w),
  record { to_client = refl; to_remote = refl; ctx_channel = refl; r_buf = refl },
)

-- A query packet with the statement arrives whole at an empty buffer, and the client takes the answer.
pub record Asks (sql : Text) (a : Arrival) (conn : Conn) : Type 0 where
  pub h0 : ℕ
  pub h1 : ℕ
  pub h2 : ℕ
  pub h3 : ℕ
  pub empty : conn.r_buf ≡ []
  pub scalar : All IsScalar sql
  pub whole : a.chunk ≡ query_of h0 h1 h2 h3 sql
  pub fits : length a.chunk ≤ buffer_size
  pub written : a.written ≡ true

-- A statement that is its own key: no comment, no white space at its ends, nothing that is escaped.
abbrev pub IsPlain : Unicode → Text → Type 0
IsPlain u sql = (remove_comments sql ≡ sql) × (escape u sql ≡ sql)

-- The response that a connection records, and the connection that asks for it afterwards.
module _ (u : Unicode) (r : Redis) (t : Times r) (laws : TimedLaws r t) (env : Env)
    (ctx : ProxyContext) (sql : Text) (body : List ℕ) (s : r.State) (events : List CacheEvent)
    (done : (handle_cache_task u r s (task_of sql ctx body)).1 ≡ true)
    (small : ctx.cache_duration ≤ℤ pos 2147483647)
    (untouched : Untouched u r t (write_key u sql) events)
    (early : elapsed events < lifetime (task_of sql ctx body)) where
  abbrev pub cache : r.State
  cache = later u r t laws s (task_of sql ctx body) events done small untouched

  query-IsAnswered :
      (a : Arrival) (conn : Conn) (entity : CacheConfigEntity)
      → Asks sql a conn
      → a.replies ≡ replies_of r cache
      → r.exists cache (write_key u sql) ≢ none
      → r.get cache (write_key u sql) ≢ none
      → IsCacheable env a.entities com_query (asked a.created sql) sql entity
      → IsPlain u sql
      → 0 < length body
      → (conn' : Conn) × (client_step env a conn ≡ running conn') × IsAnswered body conn conn'
  query-IsAnswered a conn entity q now up up' c plain n =
      let handled =
        handle_request env a.replies a.entities a.clock com_query (asked a.created sql) in
      let served : handled.1 ≡ responsed body =
        ap
          (λ (x : Replies).
            (handle_request env x a.entities a.clock com_query (asked a.created sql)).1)
          now
        ∙ (task-served_until u r t laws s (task_of sql ctx body) events done small untouched env
              a.entities a.clock com_query (asked a.created sql) sql entity c plain.0 plain.1 n up
              up').0
            early in
      let (conn', runs, answered) =
        perform-IsAnswered env a a.chunk conn handled.0 handled.1 body served q.written in
      (
        conn',
        client_step-query env a conn q.h0 q.h1 q.h2 q.h3 sql q.empty q.scalar q.whole q.fits ∙ runs,
        answered,
      )

-- The response to a request that is to be stored, on a connection that has taken a context before, is
-- sent as a task when the next context comes: the bytes from the round on that took the request's
-- context. Once that task is stored, a query with the same statement that arrives whole at the empty
-- buffer of any connection, whose write succeeds, is answered with exactly those bytes, and the database
-- is not asked, until the time of the task is over, where the statement is its own key, some
-- configuration still matches it, no later task has its key, and Redis replies.
pub response-replayed :
    (u : Unicode) (r : Redis) (t : Times r) (laws : TimedLaws r t) (env : Env)
    (old ctx next : ProxyContext) (sql : Text) (bytes : List ℕ) (before start mid conn : Conn)
    (first response : Response) (s : r.State) (events : List CacheEvent) (a : Arrival)
    (other : Conn) (entity : CacheConfigEntity)
    → before.cached_ctx ≡ some old
    → before.ctx_channel ≡ ctx ∷ []
    → remote_step env first before ≡ running start
    → Collects env start bytes mid
    → mid.ctx_channel ≡ next ∷ []
    → remote_step env response mid ≡ running conn
    → ctx.sql ≡ some sql
    → ctx.should_update_cache ≡ true
    → ctx.skip ≡ false
    → mid.out.cache_tasks_open ≡ true
    → let body = take buffer_size first.chunk ++ bytes in
      (done : (handle_cache_task u r s (task_of sql ctx body)).1 ≡ true)
      → (small : ctx.cache_duration ≤ℤ pos 2147483647)
      → (untouched : Untouched u r t (write_key u sql) events)
      → (early : elapsed events < lifetime (task_of sql ctx body))
      → let now = cache u r t laws env ctx sql body s events done small untouched early in
        Asks sql a other
        → a.replies ≡ replies_of r now
        → r.exists now (write_key u sql) ≢ none
        → r.get now (write_key u sql) ≢ none
        → IsCacheable env a.entities com_query (asked a.created sql) sql entity
        → IsPlain u sql
        → 0 < length body
        → (conn.out.cache_tasks ≡ mid.out.cache_tasks ++ (task_of sql ctx body ∷ []))
          × ((other' : Conn) × (client_step env a other ≡ running other')
              × IsAnswered body other other')
response-replayed u r t laws env old ctx next sql bytes before start mid conn first response s
      events a other entity has_old o opens collects full step has_sql store no_skip opened done
      small untouched early q now up up' c plain n =
    (
      recorded-task env ctx next sql bytes before start mid conn first response o opens collects
            full step has_sql store no_skip opened
          ∙ ap
              (λ k.
                mid.out.cache_tasks
                ++ (task_of sql ctx
                      (kept k before.cached_buf ++ (take buffer_size first.chunk ++ bytes))
                    ∷ []))
              has_old,
      query-IsAnswered u r t laws env ctx sql (take buffer_size first.chunk ++ bytes) s events done
          small untouched early a other entity q now up up' c plain n,
    )
