-- ===== src/Server/Handler/Outcomes.antt =====
-- The outcomes of a request: answered from the cache, sent on to be stored, or sent on.
use virt_db.Prelude.{
  ℕ, ◌<◌, ◌≡◌, ◌≢◌, ◌↔◌, Bool, true, false, some, List, Text, length, arith, inl, inr, ◌∙◌, ap, sym,
}
use virt_db.Sql.Comments.{remove_comments}
use virt_db.Server.Packet.{PacketType}
use virt_db.Server.Cache.{read_key}
use virt_db.Server.Meta.{CacheConfigEntity}
use virt_db.Server.Handler.{
  Action, forward, drop, responsed, ProxyContext, Clock, Replies, Env, look_up, looked_up,
  millis_since, handle_request,
}
use virt_db.Server.Handler.Requests.{IsCacheable, handle_request_cases, handle_request-cacheable}

look_up-responsed :
    (replies : Replies) (clock : Clock) (entity : CacheConfigEntity) (sql : Text)
    (ctx : ProxyContext) (v : List ℕ)
    → (look_up replies clock entity sql ctx).1 ≡ responsed v
    → (replies.exists (read_key sql) ≡ some true)
      × (replies.get (read_key sql) ≡ some v)
      × (0 < length v)
unfolding look_up
look_up-responsed replies clock entity sql ctx v h = ground arith

look_up-answer :
    (replies : Replies) (clock : Clock) (entity : CacheConfigEntity) (sql : Text)
    (ctx : ProxyContext) (v : List ℕ)
    → replies.exists (read_key sql) ≡ some true
    → replies.get (read_key sql) ≡ some v
    → 0 < length v
    → look_up replies clock entity sql ctx ≡ (
      record ctx {
        redis_duration = millis_since clock.before_redis clock.after_redis;
        from_cache = true;
      },
      responsed v,
    )
unfolding look_up
look_up-answer replies clock entity sql ctx v h k n = ground arith

look_up-absent :
    (replies : Replies) (clock : Clock) (entity : CacheConfigEntity) (sql : Text)
    (ctx : ProxyContext)
    → replies.exists (read_key sql) ≡ some false
    → look_up replies clock entity sql ctx
      ≡ (record (looked_up clock entity ctx) { should_update_cache = true }, forward)
unfolding look_up
look_up-absent replies clock entity sql ctx h = ground arith

look_up-stored :
    (replies : Replies) (clock : Clock) (entity : CacheConfigEntity) (sql : Text)
    (ctx : ProxyContext)
    → ctx.should_update_cache ≡ false
    → (look_up replies clock entity sql ctx).0.should_update_cache ≡ true
    → replies.exists (read_key sql) ≡ some false
unfolding look_up
look_up-stored replies clock entity sql ctx n h = ground arith

look_up-frame :
    (replies : Replies) (clock : Clock) (entity : CacheConfigEntity) (sql : Text)
    (ctx : ProxyContext)
    → let r = look_up replies clock entity sql ctx in
      (r.1 ≢ drop)
      × (r.0.sql ≡ ctx.sql)
      × (r.0.mysql_exec_start_time ≡ ctx.mysql_exec_start_time)
      × (r.0.skip ≡ ctx.skip)
unfolding look_up
look_up-frame replies clock entity sql ctx =
    (λ e. ground arith, ground arith, ground arith, ground arith)

abbrev stored : ProxyContext × Action → Bool
stored (ctx, action) = ctx.should_update_cache

module _ (env : Env) (replies : Replies) (entities : List CacheConfigEntity) (clock : Clock)
    (packet_type : PacketType) (ctx : ProxyContext) where
  abbrev pub outcome : ProxyContext × Action
  outcome = handle_request env replies entities clock packet_type ctx

  -- The request is answered with `v`: it is cacheable, and Redis holds `v`, not empty, at its key.
  pub record IsHit (v : List ℕ) : Type 0 where
    pub origin : Text
    pub entity : CacheConfigEntity
    pub cacheable : IsCacheable env entities packet_type ctx origin entity
    pub exists : replies.exists (read_key (remove_comments origin)) ≡ some true
    pub get : replies.get (read_key (remove_comments origin)) ≡ some v
    pub not_empty : 0 < length v

  -- The response is to be stored: the request is cacheable, and Redis has not its key.
  pub record IsMiss : Type 0 where
    pub origin : Text
    pub entity : CacheConfigEntity
    pub cacheable : IsCacheable env entities packet_type ctx origin entity
    pub exists : replies.exists (read_key (remove_comments origin)) ≡ some false

  IsHit-of_result : (v : List ℕ) → outcome.1 ≡ responsed v → IsHit v
  IsHit-of_result v h = elim (handle_request_cases env replies entities clock packet_type ctx) [
    | inl e ↦ absurd (cc)
    | inr (inl e) ↦ absurd (cc)
    | inr (inr (origin, entity, c, e)) ↦
        let (exists, get, not_empty) =
          look_up-responsed replies clock entity (remove_comments origin)
            (record ctx { fn_start_time = clock.at_start }) v
            (ap (λ (r : ProxyContext × Action). r.1) (sym e) ∙ h) in
        record {
          origin = origin;
          entity = entity;
          cacheable = c;
          exists = exists;
          get = get;
          not_empty = not_empty;
        }
  ]

  result-of_IsHit : (v : List ℕ) → IsHit v → outcome.1 ≡ responsed v
  result-of_IsHit v h =
      ap (λ (r : ProxyContext × Action). r.1)
        (handle_request-cacheable env replies entities clock packet_type ctx h.cacheable
          ∙ look_up-answer replies clock h.entity (remove_comments h.origin)
              (record ctx { fn_start_time = clock.at_start }) v h.exists h.get h.not_empty)

  -- A request is answered with `v` exactly when it is a query whose statement without comments begins
  -- with SELECT, holds no three zero bytes with a 3 behind them, and is matched by some configuration,
  -- and Redis says that its key exists and holds `v`, not empty, at it.
  pub handle_request-responsed : (v : List ℕ) → (outcome.1 ≡ responsed v) ↔ IsHit v
  handle_request-responsed v = (IsHit-of_result v, result-of_IsHit v)

  IsMiss-of_result : ctx.should_update_cache ≡ false → outcome.0.should_update_cache ≡ true → IsMiss
  IsMiss-of_result n h = elim (handle_request_cases env replies entities clock packet_type ctx) [
    | inl e ↦ absurd (cc (ap stored e))
    | inr (inl e) ↦ absurd (cc (ap stored e))
    | inr (inr (origin, entity, c, e)) ↦ record {
      origin = origin;
      entity = entity;
      cacheable = c;
      exists =
          look_up-stored replies clock entity (remove_comments origin)
            (record ctx { fn_start_time = clock.at_start }) n (ap stored (sym e) ∙ h);
    }
  ]

  pub result-of_IsMiss :
      (m : IsMiss)
      → outcome ≡ (
        record (looked_up clock m.entity (record ctx { fn_start_time = clock.at_start })) {
          should_update_cache = true;
        },
        forward,
      )
  result-of_IsMiss m =
      handle_request-cacheable env replies entities clock packet_type ctx m.cacheable
      ∙ look_up-absent replies clock m.entity (remove_comments m.origin)
          (record ctx { fn_start_time = clock.at_start }) m.exists

  -- From a context that is not marked, the response is marked to be stored exactly when the request is
  -- a query whose statement without comments begins with SELECT, holds no three zero bytes with a 3
  -- behind them, and is matched by some configuration, and Redis says that its key is not there.
  pub handle_request-stored :
      ctx.should_update_cache ≡ false → (outcome.0.should_update_cache ≡ true) ↔ IsMiss
  handle_request-stored n = (IsMiss-of_result n, λ m. ap stored (result-of_IsMiss m))

  -- A request is never dropped, and keeps its statement and the time at which the database was
  -- asked.
  pub handle_request-frame :
      (outcome.1 ≢ drop)
      × (outcome.0.sql ≡ ctx.sql)
      × (outcome.0.mysql_exec_start_time ≡ ctx.mysql_exec_start_time)
  handle_request-frame = elim (handle_request_cases env replies entities clock packet_type ctx) [
    | inl e ↦ (λ d. cc, cc, cc)
    | inr (inl e) ↦ (λ d. cc, cc, cc)
    | inr (inr (origin, entity, c, e)) ↦
        let (no_drop, sql, start, _) =
          look_up-frame replies clock entity (remove_comments origin)
            (record ctx { fn_start_time = clock.at_start }) in
        (λ d. no_drop (cc), cc, cc)
  ]
