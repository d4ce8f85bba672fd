-- ===== src/Server/Proxy/Recording.antt =====
-- What is recorded of a response: the bytes from the round that takes its context from the channel
-- up to the round that takes the next context.
use virt_db.Prelude.{
  ℕ, ◌≡◌, refl, sym, ap, ◌∙◌, subst, true, false, Option, none, some, List, [], ◌∷◌, ◌++◌,
  append_assoc, append-nil, Text, take, arith, Option-cases, inl, inr,
}
use virt_db.Server.Cache.{CacheTaskInfo}
use virt_db.Sql.Statement.{sql_to_pattern}
use virt_db.Server.Handler.{
  Env, ProxyContext, Outbox, handle_response, handle_remote_response_finished,
}
use virt_db.Server.Proxy.{Conn, running, Arrival, Response, buffer_size, client_step, remote_step}
use virt_db.Server.Proxy.Steps.{client_step-Effect, Effect, keep, pass, answer}

-- The parts of a context that the rounds of a response leave alone.
pub record SameRequest (a b : ProxyContext) : Type 0 where
  pub sql : a.sql ≡ b.sql
  pub store : a.should_update_cache ≡ b.should_update_cache
  pub skip : a.skip ≡ b.skip
  pub duration : a.cache_duration ≡ b.cache_duration
  pub start : a.fn_start_time ≡ b.fn_start_time

-- The connection is in the response to `ctx`, of which it has seen `bytes`.
pub record IsRecording (ctx : ProxyContext) (bytes : List ℕ) (conn : Conn) : Type 0 where
  pub current : ProxyContext
  pub is_current : conn.cached_ctx ≡ some current
  pub same : SameRequest current ctx
  pub seen : conn.cached_buf ≡ bytes

handle_response-SameRequest :
    (now now' : ℕ) (a b : ProxyContext)
    → SameRequest a b
    → SameRequest (handle_response now now' a) b
unfolding handle_response
handle_response-SameRequest now now' a b s = record {
  sql = ground (arith, s.sql);
  store = ground (arith, s.store);
  skip = ground (arith, s.skip);
  duration = ground (arith, s.duration);
  start = ground (arith, s.start);
}

module _ (env : Env) where
  client_step-IsRecording :
      (a : Arrival) (ctx : ProxyContext) (bytes : List ℕ) (conn conn' : Conn)
      → IsRecording ctx bytes conn
      → client_step env a conn ≡ running conn'
      → IsRecording ctx bytes conn'
  client_step-IsRecording a ctx bytes conn conn' s h = go (client_step-Effect env a conn conn' h)
    where
      go : Effect env a conn conn' → IsRecording ctx bytes conn'
      go (keep u e) =
          subst (IsRecording ctx bytes) (sym e) (record {
            current = s.current;
            is_current = s.is_current;
            same = s.same;
            seen = s.seen;
          })
      go (pass t k f empty e) =
          subst (IsRecording ctx bytes) (sym e) (record {
            current = s.current;
            is_current = s.is_current;
            same = s.same;
            seen = s.seen;
          })
      go (answer t v k r e) =
          subst (IsRecording ctx bytes) (sym e) (record {
            current = s.current;
            is_current = s.is_current;
            same = s.same;
            seen = s.seen;
          })

  remote_step-IsRecording :
      (r : Response) (ctx : ProxyContext) (bytes : List ℕ) (conn conn' : Conn)
      → IsRecording ctx bytes conn
      → conn.ctx_channel ≡ []
      → remote_step env r conn ≡ running conn'
      → IsRecording ctx (bytes ++ take buffer_size r.chunk) conn' × (conn'.out ≡ conn.out)
  unfolding remote_step
  remote_step-IsRecording r ctx bytes conn conn' s e h = (
    record {
      current = handle_response r.ended r.ended' s.current;
      is_current = ground (arith, s.is_current);
      same = handle_response-SameRequest r.ended r.ended' s.current ctx s.same;
      seen = ground (arith, s.is_current, s.seen);
    },
    ground arith,
  )

  -- The next context ends the response: it is handed over whole, and the next one begins.
  remote_step-next :
      (r : Response) (ctx next : ProxyContext) (bytes : List ℕ) (conn conn' : Conn)
      → (s : IsRecording ctx bytes conn) → conn.ctx_channel ≡ next ∷ []
      → remote_step env r conn ≡ running conn'
      → (conn'.out ≡ handle_remote_response_finished env s.current bytes conn.out)
        × IsRecording next (take buffer_size r.chunk) conn'
        × (conn'.ctx_channel ≡ [])
  unfolding remote_step
  remote_step-next r ctx next bytes conn conn' s e h = (
    ground (arith, s.is_current, s.seen),
    record {
      current = handle_response r.ended r.ended' next;
      is_current = ground (arith, s.is_current);
      same =
          handle_response-SameRequest r.ended r.ended' next next
            (record { sql = refl; store = refl; skip = refl; duration = refl; start = refl });
      seen = ground (arith, s.is_current);
    },
    ground (arith, s.is_current),
  )

-- Rounds that take no context from the channel, with the bytes that they read from the database.
pub data Collects (env : Env) (start : Conn) : List ℕ → Conn → Type 0 where
  done : Collects env start [] start
  by_client :
      {bytes : List ℕ} {mid end : Conn}
      → Collects env start bytes mid
      → (a : Arrival) → client_step env a mid ≡ running end
      → Collects env start bytes end
  by_remote :
      {bytes all : List ℕ} {mid end : Conn}
      → Collects env start bytes mid
      → (r : Response) → mid.ctx_channel ≡ []
      → remote_step env r mid ≡ running end
      → all ≡ bytes ++ take buffer_size r.chunk
      → Collects env start all end

module _ (env : Env) where
  Collects-IsRecording :
      (start : Conn) (ctx : ProxyContext) (before : List ℕ) {bytes : List ℕ} {end : Conn}
      → IsRecording ctx before start
      → Collects env start bytes end
      → IsRecording ctx (before ++ bytes) end
  Collects-IsRecording start ctx before {bytes} {end} s done =
      subst (λ b. IsRecording ctx b start) (sym (append-nil before)) s
  Collects-IsRecording start ctx before {bytes} {end} s (by_client {mid = m} c a h) =
      client_step-IsRecording env a ctx (before ++ bytes) m end
        (Collects-IsRecording start ctx before s c) h
  Collects-IsRecording start ctx before {bytes} {end} s
        (by_remote {bytes = b} {mid = m} c r e h q) =
      subst (λ l. IsRecording ctx l end)
        (append_assoc before b (take buffer_size r.chunk) ∙ ap (λ l. before ++ l) (sym q))
        (remote_step-IsRecording env r ctx (before ++ b) m end
          (Collects-IsRecording start ctx before s c) e h).0

-- The task that a finished response leaves.
abbrev pub task_of : Text → ProxyContext → List ℕ → CacheTaskInfo
task_of sql ctx body = record { sql = sql; body = body; duration = ctx.cache_duration }

finished-task :
    (env : Env) (ctx current : ProxyContext) (sql : Text) (bytes : List ℕ) (out : Outbox)
    → SameRequest current ctx
    → ctx.sql ≡ some sql
    → ctx.should_update_cache ≡ true
    → ctx.skip ≡ false
    → out.cache_tasks_open ≡ true
    → (handle_remote_response_finished env current bytes out).cache_tasks
      ≡ out.cache_tasks ++ (task_of sql ctx bytes ∷ [])
unfolding handle_remote_response_finished
finished-task env ctx current sql bytes out s has_sql store no_skip opened =
    elim (Option-cases (sql_to_pattern env.parse env.print sql)) [
      | inl n ↦ ground (arith, s.sql, s.store, s.skip, s.duration)
      | inr (p, q) ↦ ground (arith, s.sql, s.store, s.skip, s.duration)
    ]

-- What a context takes over of the bytes before it: nothing after another context, and all that came
-- since the connection was made if it is the first.
abbrev pub kept : Option ProxyContext → List ℕ → List ℕ
kept none buf = buf
kept (some old_ctx) buf = []

-- The round that takes a context from the channel begins its recording.
remote_step-opens :
    (env : Env) (r : Response) (ctx : ProxyContext) (conn start : Conn)
    → conn.ctx_channel ≡ ctx ∷ []
    → remote_step env r conn ≡ running start
    → IsRecording ctx (kept conn.cached_ctx conn.cached_buf ++ take buffer_size r.chunk) start
unfolding remote_step
remote_step-opens env r ctx conn start e h = record {
  current = handle_response r.ended r.ended' ctx;
  is_current = ground (arith, Option-cases conn.cached_ctx);
  same =
      handle_response-SameRequest r.ended r.ended' ctx ctx
        (record { sql = refl; store = refl; skip = refl; duration = refl; start = refl });
  seen = ground (arith, Option-cases conn.cached_ctx);
}

pub recorded-task :
    (env : Env) (ctx next : ProxyContext) (sql : Text) (bytes : List ℕ)
    (before start mid conn' : Conn) (first r : Response)
    → before.ctx_channel ≡ ctx ∷ []
    → remote_step env first before ≡ running start
    → Collects env start bytes mid
    → mid.ctx_channel ≡ next ∷ []
    → remote_step env r mid ≡ running conn'
    → ctx.sql ≡ some sql
    → ctx.should_update_cache ≡ true
    → ctx.skip ≡ false
    → mid.out.cache_tasks_open ≡ true
    → conn'.out.cache_tasks
      ≡ mid.out.cache_tasks
        ++ (task_of sql ctx
              (kept before.cached_ctx before.cached_buf ++ (take buffer_size first.chunk ++ bytes))
            ∷ [])
recorded-task env ctx next sql bytes before start mid conn' first r o opens c e h has_sql store
      no_skip opened =
    let held = kept before.cached_ctx before.cached_buf ++ take buffer_size first.chunk in
    let begun = remote_step-opens env first ctx before start o opens in
    let seen = Collects-IsRecording env start ctx held begun c in
    ap (λ (o : Outbox). o.cache_tasks)
      (remote_step-next env r ctx next (held ++ bytes) mid conn' seen e h).0
    ∙ finished-task env ctx seen.current sql (held ++ bytes) mid.out seen.same has_sql store no_skip
        opened
    ∙ ap (λ body. mid.out.cache_tasks ++ (task_of sql ctx body ∷ []))
        (append_assoc (kept before.cached_ctx before.cached_buf) (take buffer_size first.chunk)
          bytes)
