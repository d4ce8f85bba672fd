-- ===== src/Server/System/RemoteRounds.antt =====
-- What a round of the other loop leaves of the contexts, and the task that it sends.
use virt_db.Prelude.{
  ℕ, ◌≡◌, refl, sym, ap, ◌∙◌, subst, Option, none, some, List, [], ◌∷◌, ◌++◌, append_assoc,
  append-nil, Text, All, take, arith, Option-cases, inl, inr,
}
use virt_db.Server.Cache.{CacheTaskInfo}
use virt_db.Server.Handler.{Env, ProxyContext, Outbox, handle_remote_response_finished}
use virt_db.Server.Proxy.{
  Conn, running, Response, buffer_size, remote_step, flush, touch, receive_from, receive,
}
use virt_db.Server.System.Provenance.{Contains, HasPart}
use virt_db.Server.System.Tracked.{IsAsked, IsAskedIf, IsTracked, handle_response-sql}
use virt_db.Server.System.Sends.{Sends, nothing, one, finished-Sends}

-- The tasks after a round: the same, or one more, with a statement that was asked for and a part of
-- what the database sent.
pub data Adds (asked : List Text) (received : List ℕ) (old new : List CacheTaskInfo) : Type 0 where
  same : new ≡ old → Adds asked received old new
  one_task :
      (task : CacheTaskInfo)
      → Contains asked task.sql
      → HasPart received task.body
      → new ≡ old ++ (task ∷ [])
      → Adds asked received old new

module _ (env : Env) (asked : List Text) (received : List ℕ) (conn : Conn) where
  Adds-of_Sends :
      (old_ctx : ProxyContext) (new : List CacheTaskInfo)
      → IsTracked asked received conn
      → conn.cached_ctx ≡ some old_ctx
      → Sends old_ctx conn.cached_buf conn.out.cache_tasks new
      → Adds asked received conn.out.cache_tasks new
  Adds-of_Sends old_ctx new tr e (nothing h) = same h
  Adds-of_Sends old_ctx new tr e (one task has_sql body h) =
      one_task task ((subst (IsAskedIf asked) e tr.current) task.sql has_sql)
        (
          tr.before,
          [],
          tr.collected ∙ ap (λ l. tr.before ++ l) (sym body ∙ sym (append-nil task.body)),
        )
        h

  flush-none :
      conn.cached_ctx ≡ none
      → ((flush env conn).cached_buf ≡ conn.cached_buf) × ((flush env conn).out ≡ conn.out)
  flush-none e = (ground (arith, e), ground (arith, e))

  flush-some :
      (old_ctx : ProxyContext)
      → conn.cached_ctx ≡ some old_ctx
      → ((flush env conn).cached_buf ≡ [])
        × ((flush env conn).out
            ≡ handle_remote_response_finished env old_ctx conn.cached_buf conn.out)
  flush-some old_ctx e = (ground (arith, e), ground (arith, e))

  receive_from-IsTracked :
      (l : List ProxyContext)
      → IsTracked asked received conn
      → All (IsAsked asked) l
      → IsTracked asked received (receive_from env l conn)
        × Adds asked received conn.out.cache_tasks (receive_from env l conn).out.cache_tasks
  receive_from-IsTracked [] tr h = (tr, same refl)
  receive_from-IsTracked (ctx ∷ rest) tr h = elim (Option-cases conn.cached_ctx) [
    | inl n ↦
        let (buf, out) = flush-none n in
        (
          record {
            current = h.0;
            queued = h.1;
            before = tr.before;
            collected = tr.collected ∙ ap (λ b. tr.before ++ b) (sym buf);
          },
          same (ap (λ (o : Outbox). o.cache_tasks) out),
        )
    | inr (old_ctx, e) ↦
        let (buf, out) = flush-some old_ctx e in
        (
          record {
            current = h.0;
            queued = h.1;
            before = received;
            collected = sym (append-nil received) ∙ ap (λ b. received ++ b) (sym buf);
          },
          Adds-of_Sends old_ctx (flush env conn).out.cache_tasks tr e (
              subst
                (λ (o : Outbox). Sends old_ctx conn.cached_buf conn.out.cache_tasks o.cache_tasks)
                (sym out) (finished-Sends env old_ctx conn.cached_buf conn.out)),
        )
  ]

  -- Taking the next context from the channel keeps the connection tracked.
  pub receive-IsTracked :
      IsTracked asked received conn
      → IsTracked asked received (receive env conn)
        × Adds asked received conn.out.cache_tasks (receive env conn).out.cache_tasks
  unfolding receive
  receive-IsTracked tr = receive_from-IsTracked conn.ctx_channel tr tr.queued

abbrev copied : Response → Conn → Conn
copied b conn = record conn {
  cached_buf = conn.cached_buf ++ take buffer_size b.chunk;
  cached_ctx = touch b conn.cached_ctx;
  to_client = conn.to_client ++ take buffer_size b.chunk;
}

remote_step-copied :
    (env : Env) (b : Response) (conn conn' : Conn)
    → remote_step env b conn ≡ running conn'
    → conn' ≡ copied b (receive env conn)
unfolding remote_step
remote_step-copied env b conn conn' h = ground arith

touch-IsAskedIf :
    (asked : List Text) (b : Response) (o : Option ProxyContext)
    → IsAskedIf asked o
    → IsAskedIf asked (touch b o)
touch-IsAskedIf asked b none h = tt
touch-IsAskedIf asked b (some ctx) h =
    λ sql has_sql. h sql (sym (handle_response-sql b.ended b.ended' ctx) ∙ has_sql)

module _ (env : Env) (b : Response) (asked : List Text) (received : List ℕ) (conn : Conn) where
  -- The bytes after the round.
  abbrev pub received_more : List ℕ
  received_more = received ++ take buffer_size b.chunk

  abbrev Continues : Conn → Type 0
  Continues conn' =
      IsTracked asked received_more conn'
      × Adds asked received conn.out.cache_tasks conn'.out.cache_tasks

  -- A round of the other loop keeps the connection tracked, and sends at most the task of the
  -- response that is complete.
  pub remote_step-Continues :
      (conn' : Conn)
      → IsTracked asked received conn
      → remote_step env b conn ≡ running conn'
      → Continues conn'
  remote_step-Continues conn' tr h =
      let (mid, adds) = receive-IsTracked env asked received conn tr in
      subst Continues (sym (remote_step-copied env b conn conn' h)) (
        record {
          current = touch-IsAskedIf asked b (receive env conn).cached_ctx mid.current;
          queued = mid.queued;
          before = mid.before;
          collected =
              ap (λ l. l ++ take buffer_size b.chunk) mid.collected
              ∙ append_assoc mid.before (receive env conn).cached_buf (take buffer_size b.chunk);
        },
        adds,
      )
