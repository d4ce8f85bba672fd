-- ===== src/Server/Serving/Fresh.antt =====
-- How old an answer from the cache can be: the tasks and the time between them
-- (server/src/sys_assistant_client.rs) and the request (server/src/serve/mod.rs).
use virt_db.Prelude.{
  ℕ, ◌-◌, ◌≤◌, ◌<◌, ◌≡◌, ◌≢◌, refl, sym, subst, ap, ◌∙◌, true, false, Bool, Option, none, some,
  List, Text, length, ltb, if◌then◌else◌, inl, inr, arith, Option-cases, text_eq_iff,
}
use virt_db.Prelude.Int.{pos, ◌≤ℤ◌}
use virt_db.Sql.Comments.{remove_comments}
use virt_db.Server.Packet.{PacketType}
use virt_db.Server.Cache.{
  Unicode, escape, read_key, write_key, CacheTaskInfo, Redis, handle_cache_task,
}
use virt_db.Server.Cache.Timed.{
  Times, TimedLaws, CacheEvent, lifetime, elapsed, cache_steps, Untouched,
}
use virt_db.Server.Cache.Freshness.{Origin, holds-Origin, holds-Untouched}
use virt_db.Server.Meta.{CacheConfigEntity}
use virt_db.Server.Handler.{Action, forward, responsed, ProxyContext, Clock, Env, handle_request}
use virt_db.Server.Handler.Requests.{IsCacheable}
use virt_db.Server.Handler.Outcomes.{handle_request-responsed, result-of_IsMiss}
use virt_db.Server.Serving.{replies_of, same_key}

lifetime_pos : (task : CacheTaskInfo) → task.duration ≤ℤ pos 2147483647 → 0 < lifetime task
lifetime_pos task h = ground arith

module _ (u : Unicode) (r : Redis) (t : Times r) (laws : TimedLaws r t) where
  pub get-holds :
      (s : r.State) (k : Text) (v : List ℕ)
      → r.get s k ≡ some v
      → 0 < length v
      → (left : ℕ) × (t.holds s k ≡ some (v, left))
  get-holds s k v got n = elim (Option-cases (t.holds s k)) [
    | inl empty ↦ let e = laws.get-none s k v empty got in absurd (omega (arith, ap length e))
    | inr ((w, left), held) ↦
        let e = laws.get-held s k v w left held got in
        (left, held ∙ ap (λ b. some (b, left)) (sym e))
  ]

  -- Where Redis was empty at first, an answer from the cache is the body of a task that was handled:
  -- its key is the request's, no command that succeeded has replaced it since, and at most the longer
  -- of 60 seconds and the configured duration has passed since.
  pub responsed-Origin :
      (env : Env) (exists : Text → Option Bool) (events : List CacheEvent) (start : r.State)
      (entities : List CacheConfigEntity) (clock : Clock) (packet_type : PacketType)
      (ctx : ProxyContext) (v : List ℕ)
      → ((k : Text) → t.holds start k ≡ none)
      → (handle_request env
          (record { exists = exists; get = r.get (cache_steps u r t events start) })
          entities
          clock
          packet_type
          ctx).1
        ≡ responsed v
      → (origin : Text) × (left : ℕ) × (ctx.sql ≡ some origin)
        × Origin u r t laws (read_key (remove_comments origin)) v left events start
  responsed-Origin env exists events start entities clock packet_type ctx v empty answered =
      let s = cache_steps u r t events start in
      let hit =
        (handle_request-responsed env (record { exists = exists; get = r.get s }) entities clock
            packet_type ctx v).0
          answered in
      let k = read_key (remove_comments hit.origin) in
      let (left, held) = get-holds s k v hit.get hit.not_empty in
      (
        hit.origin,
        left,
        hit.cacheable.has_sql,
        holds-Origin u r t laws k v left events start (empty k) held,
      )

  stored-held :
      (s : r.State) (task : CacheTaskInfo)
      → (handle_cache_task u r s task).1 ≡ true
      → t.holds (handle_cache_task u r s task).0 (write_key u task.sql)
        ≡ some (task.body, lifetime task)
  unfolding handle_cache_task
  stored-held s task done =
      let k = write_key u task.sql in
      laws.holds-set_ex s k task.body _ k done ∙ rw ((text_eq_iff k k).1 refl)

  -- What the key of a stored task holds, after events of which none has its key.
  holds-after :
      (s : r.State) (task : CacheTaskInfo) (events : List CacheEvent)
      → (handle_cache_task u r s task).1 ≡ true
      → task.duration ≤ℤ pos 2147483647
      → Untouched u r t (write_key u task.sql) events
      → t.holds (cache_steps u r t events (handle_cache_task u r s task).0) (write_key u task.sql)
        ≡ (if ltb (elapsed events) (lifetime task)
            then some (task.body, lifetime task - elapsed events)
            else none)
  holds-after s task events done small untouched =
      let k = write_key u task.sql in
      holds-Untouched u r t laws k task.body (lifetime task) events (handle_cache_task u r s task).0
        untouched (lifetime_pos task small) (stored-held s task done)

  exists-reply :
      (s : r.State) (k : Text)
      → r.exists s k ≢ none
      → ((t.holds s k ≢ none) → r.exists s k ≡ some true)
        × ((t.holds s k ≡ none) → r.exists s k ≡ some false)
  exists-reply s k up = elim (Option-cases (r.exists s k)) [
    | inl down ↦ absurd (up down)
    | inr (true, e) ↦ ((λ h. e), λ h. absurd (laws.exists-true s k e h))
    | inr (false, e) ↦ ((λ h. absurd (h (laws.exists-false s k e))), λ h. e)
  ]

  get-reply :
      (s : r.State) (k : Text) (v : List ℕ) (left : ℕ)
      → r.get s k ≢ none
      → t.holds s k ≡ some (v, left)
      → r.get s k ≡ some v
  get-reply s k v left up held = elim (Option-cases (r.get s k)) [
    | inl down ↦ absurd (up down)
    | inr (w, e) ↦ e ∙ ap (λ b. some b) (laws.get-held s k w v left held e)
  ]

  module _ (s : r.State) (task : CacheTaskInfo) (events : List CacheEvent)
      (done : (handle_cache_task u r s task).1 ≡ true) (small : task.duration ≤ℤ pos 2147483647)
      (untouched : Untouched u r t (write_key u task.sql) events) where
    -- The state in which the request is handled.
    abbrev pub later : r.State
    later = cache_steps u r t events (handle_cache_task u r s task).0

    -- A stored response answers a cacheable request for its statement, where nothing in that is
    -- escaped, Redis replies and no later task has the key, until the longer of 60 seconds and the
    -- configured duration has passed; from then on the request goes to the database, and its response
    -- is to be stored.
    pub task-served_until :
        (env : Env) (entities : List CacheConfigEntity) (clock : Clock) (packet_type : PacketType)
        (ctx : ProxyContext) (origin : Text) (entity : CacheConfigEntity)
        → IsCacheable env entities packet_type ctx origin entity
        → remove_comments origin ≡ task.sql
        → escape u task.sql ≡ task.sql
        → 0 < length task.body
        → r.exists later (write_key u task.sql) ≢ none
        → r.get later (write_key u task.sql) ≢ none
        → let result = handle_request env (replies_of r later) entities clock packet_type ctx in
          (elapsed events < lifetime task → result.1 ≡ responsed task.body)
          × (lifetime task ≤ elapsed events
              → (result.1 ≡ forward) × (result.0.should_update_cache ≡ true))
    task-served_until env entities clock packet_type ctx origin entity c e plain n up up' =
        let k = write_key u task.sql in
        let kept = holds-after s task events done small untouched in
        let same = same_key u origin task.sql e plain in
        let reply = exists-reply later k up in
        (
          (λ early.
              let held : t.holds later k ≡ some (task.body, lifetime task - elapsed events) =
                ground (arith, kept) in
              (handle_request-responsed env (replies_of r later) entities clock packet_type ctx
                  task.body).1
                (record {
                  origin = origin;
                  entity = entity;
                  cacheable = c;
                  exists = subst (λ j. r.exists later j ≡ some true) same (reply.0 (λ gone. cc));
                  get =
                      subst (λ j. r.get later j ≡ some task.body) same
                        (get-reply later k task.body _ up' held);
                  not_empty = n;
                })),
          λ late.
              let gone : t.holds later k ≡ none = ground (arith, kept) in
              let miss =
                result-of_IsMiss env (replies_of r later) entities clock packet_type ctx (record {
                  origin = origin;
                  entity = entity;
                  cacheable = c;
                  exists = subst (λ j. r.exists later j ≡ some false) same (reply.1 gone);
                }) in
              (
                ap (λ (o : ProxyContext × Action). o.1) miss,
                ap (λ (o : ProxyContext × Action). o.0.should_update_cache) miss,
              ),
        )
