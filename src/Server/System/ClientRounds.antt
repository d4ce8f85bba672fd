-- ===== src/Server/System/ClientRounds.antt =====
-- What a round of the loop that reads from the client leaves of the contexts.
use virt_db.Prelude.{
  ℕ, ◌≡◌, refl, sym, ap, ◌∙◌, subst, true, false, Option, none, some, List, [], ◌∷◌, ◌++◌, Text,
  All, Option-cases, Bool-cases, inl, inr,
}
use virt_db.Server.Packet.{PacketType}
use virt_db.Sql.Comments.{remove_comments}
use virt_db.Server.Cache.{read_key}
use virt_db.Sql.Statement.{sql_to_pattern}
use virt_db.Server.Handler.{
  Env, responsed, ProxyContext, Outbox, send_task, handle_response, handle_remote_response_finished,
}
use virt_db.Server.Handler.Outcomes.{
  handle_request-frame, handle_request-responsed, handle_request-stored,
}
use virt_db.Server.Proxy.{Conn, running, Arrival, client_step}
use virt_db.Server.Proxy.Steps.{
  client_step-Effect, Effect, keep, pass, answer, handled, request_ctx,
}
use virt_db.Server.System.{statements}
use virt_db.Server.System.Provenance.{Extends, Contains-Extends, some_injective}
use virt_db.Server.System.Tracked.{IsAsked, IsAskedIf, IsTracked, handle_response-store}
use virt_db.Server.System.Sends.{send_log-cache_tasks, finished-none, finished-some}

IsAskedIf-Extends :
    (a b : List Text) (o : Option ProxyContext) → Extends a b → IsAskedIf a o → IsAskedIf b o
IsAskedIf-Extends a b none e h = tt
IsAskedIf-Extends a b (some ctx) e h = λ sql has_sql. Contains-Extends a b sql e (h sql has_sql)

queued-Extends :
    (a b : List Text) (l : List ProxyContext) → Extends a b → All (IsAsked a) l → All (IsAsked b) l
queued-Extends a b [] e h = tt
queued-Extends a b (ctx ∷ l) e h =
    (λ sql has_sql. Contains-Extends a b sql e (h.0 sql has_sql), queued-Extends a b l e h.1)

-- The statement of the packet is asked for now.
IsAsked-now :
    (asked : List Text) (o : Option Text) (ctx : ProxyContext)
    → ctx.sql ≡ o
    → IsAsked (asked ++ statements o) ctx
IsAsked-now asked o ctx e sql has_sql =
    (asked, [], ap (λ q. asked ++ statements q) (sym e ∙ has_sql))

-- An answer from the cache is not stored again.
responsed-not_stored :
    (env : Env) (a : Arrival) (conn : Conn) (t : PacketType) (v : List ℕ)
    → (handled env a conn t).1 ≡ responsed v
    → (handled env a conn t).0.should_update_cache ≡ false
responsed-not_stored env a conn t v h =
    let ctx = request_ctx env a conn in
    let hit = (handle_request-responsed env a.replies a.entities a.clock t ctx v).0 h in
    elim (Bool-cases (handled env a conn t).0.should_update_cache) [
      | inr not_stored ↦ not_stored
      | inl stored ↦
          let miss = (handle_request-stored env a.replies a.entities a.clock t ctx refl).0 stored in
          let same : miss.origin ≡ hit.origin =
            some_injective miss.origin hit.origin
              (sym miss.cacheable.has_sql ∙ hit.cacheable.has_sql) in
          let e : some false ≡ some true =
            sym miss.exists
            ∙ ap (λ o. a.replies.exists (read_key (remove_comments o))) same
            ∙ hit.exists in
          absurd (cc (e))
    ]

finished-not_stored :
    (env : Env) (ctx : ProxyContext) (body : List ℕ) (out : Outbox)
    → ctx.should_update_cache ≡ false
    → (handle_remote_response_finished env ctx body out).cache_tasks ≡ out.cache_tasks
finished-not_stored env ctx body out n = elim (Option-cases ctx.sql) [
  | inl no_sql ↦ finished-none env ctx body out no_sql
  | inr (sql, has_sql) ↦
      finished-some env ctx sql body out has_sql
      ∙ send_log-cache_tasks ctx (sql_to_pattern env.parse env.print sql)
          (send_task ctx sql body out)
      ∙ rw n refl
]

module _ (env : Env) (a : Arrival) (asked : List Text) (received : List ℕ) (conn : Conn) where
  -- The statements after the round.
  abbrev pub asked_more : List Text
  asked_more = asked ++ statements (request_ctx env a conn).sql

  abbrev Follows : Conn → Type 0
  Follows conn' =
      IsTracked asked_more received conn' × (conn'.out.cache_tasks ≡ conn.out.cache_tasks)

  -- A round of the client's loop keeps the connection tracked, and sends no task.
  pub client_step-Follows :
      (conn' : Conn)
      → IsTracked asked received conn
      → client_step env a conn ≡ running conn'
      → Follows conn'
  client_step-Follows conn' tr h = go (client_step-Effect env a conn conn' h)
    where
      more : Extends asked asked_more
      more = (statements (request_ctx env a conn).sql, refl)

      current : IsAskedIf asked_more conn.cached_ctx
      current = IsAskedIf-Extends asked asked_more conn.cached_ctx more tr.current

      queued : All (IsAsked asked_more) conn.ctx_channel
      queued = queued-Extends asked asked_more conn.ctx_channel more tr.queued

      now : (t : PacketType) → IsAsked asked_more (handled env a conn t).0
      now t =
          IsAsked-now asked (request_ctx env a conn).sql (handled env a conn t).0
            (handle_request-frame env a.replies a.entities a.clock t (request_ctx env a conn)).1

      go : Effect env a conn conn' → Follows conn'
      go (keep unknown e) = subst Follows (sym e) (
        record { current = current; queued = queued; before = tr.before; collected = tr.collected },
        refl,
      )
      go (pass t known forwards room e) = subst Follows (sym e) (
        record {
          current = current;
          queued = (λ sql q. now t sql q, tt);
          before = tr.before;
          collected = tr.collected;
        },
        refl,
      )
      go (answer t v known answers e) = subst Follows (sym e) (
        record { current = current; queued = queued; before = tr.before; collected = tr.collected },
        finished-not_stored env (handle_response a.ended a.ended' (handled env a conn t).0) v
            conn.out
            (handle_response-store a.ended a.ended' (handled env a conn t).0
              ∙ responsed-not_stored env a conn t v answers),
      )
