-- ===== src/Server/System/Sends.antt =====
-- The task that a finished response sends.
use virt_db.Prelude.{
  ℕ, ◌≡◌, refl, sym, ◌∙◌, subst, Option, none, some, List, [], ◌∷◌, ◌++◌, Text, arith, Option-cases,
  Bool-cases, inl, inr, not, ◌&&◌,
}
use virt_db.Server.Cache.{CacheTaskInfo}
use virt_db.Sql.Statement.{sql_to_pattern}
use virt_db.Server.Handler.{
  Env, ProxyContext, Outbox, send_task, send_log, handle_remote_response_finished,
}

-- What a finished response sends: no task, or one for its statement with its bytes.
pub data Sends (ctx : ProxyContext) (body : List ℕ) (old new : List CacheTaskInfo) : Type 0 where
  nothing : new ≡ old → Sends ctx body old new
  one :
      (task : CacheTaskInfo)
      → ctx.sql ≡ some task.sql
      → task.body ≡ body
      → new ≡ old ++ (task ∷ [])
      → Sends ctx body old new

send_task-Sends :
    (ctx : ProxyContext) (sql : Text) (body : List ℕ) (out : Outbox)
    → ctx.sql ≡ some sql
    → Sends ctx body out.cache_tasks (send_task ctx sql body out).cache_tasks
send_task-Sends ctx sql body out has_sql =
    elim (Bool-cases (ctx.should_update_cache && not ctx.skip)) [
      | inr skips ↦ nothing (rw skips refl)
      | inl store ↦ elim (Bool-cases out.cache_tasks_open) [
        | inr gone ↦ nothing (rw (store, gone) refl)
        | inl here ↦
            one (record { sql = sql; body = body; duration = ctx.cache_duration }) has_sql refl
              (rw (store, here) refl)
      ]
    ]

pub send_log-cache_tasks :
    (ctx : ProxyContext) (o : Option Text) (out : Outbox)
    → (send_log ctx o out).cache_tasks ≡ out.cache_tasks
send_log-cache_tasks ctx none out = refl
send_log-cache_tasks ctx (some p) out = refl

pub finished-none :
    (env : Env) (ctx : ProxyContext) (body : List ℕ) (out : Outbox)
    → ctx.sql ≡ none
    → (handle_remote_response_finished env ctx body out).cache_tasks ≡ out.cache_tasks
unfolding handle_remote_response_finished
finished-none env ctx body out e = ground (arith, e)

pub finished-some :
    (env : Env) (ctx : ProxyContext) (sql : Text) (body : List ℕ) (out : Outbox)
    → ctx.sql ≡ some sql
    → (handle_remote_response_finished env ctx body out).cache_tasks
      ≡ (send_log ctx
          (sql_to_pattern env.parse env.print sql)
          (send_task ctx sql body out)).cache_tasks
unfolding handle_remote_response_finished
finished-some env ctx sql body out e = ground (arith, e)

pub finished-Sends :
    (env : Env) (ctx : ProxyContext) (body : List ℕ) (out : Outbox)
    → Sends ctx body out.cache_tasks (handle_remote_response_finished env ctx body out).cache_tasks
finished-Sends env ctx body out = elim (Option-cases ctx.sql) [
  | inl no_sql ↦ nothing (finished-none env ctx body out no_sql)
  | inr (sql, has_sql) ↦
      subst (Sends ctx body out.cache_tasks)
        (sym (
          finished-some env ctx sql body out has_sql
          ∙ send_log-cache_tasks ctx (sql_to_pattern env.parse env.print sql)
              (send_task ctx sql body out)))
        (send_task-Sends ctx sql body out has_sql)
]
