-- ===== src/Server/Serving.antt =====
-- From the task that fills the cache (server/src/sys_assistant_client.rs) to the request that reads
-- it (server/src/serve/mod.rs).
pub mod Fresh
pub mod Replay
use virt_db.Prelude.{
  ◌<◌, ◌≡◌, ◌≢◌, refl, sym, ap, ◌∙◌, true, some, List, Text, length, arith, inl, inr, text_eq,
  text_eq_iff, if◌then◌else◌, Option-cases,
}
use virt_db.Sql.Comments.{remove_comments}
use virt_db.Server.Packet.{PacketType, com_query}
use virt_db.Server.Cache.{
  Unicode, escape, read_key, write_key, CacheTaskInfo, Redis, RedisLaws, handle_cache_task,
}
use virt_db.Server.Cache.Keys.{write_key-eq-read_key}
use virt_db.Server.Meta.{CacheConfigEntity}
use virt_db.Server.Handler.{
  responsed, ProxyContext, Clock, Replies, Env, find_entity, look_up, handle_query, handle_packet,
  handle_sql, handle_request,
}
use virt_db.Server.Handler.Requests.{IsCacheable}
use virt_db.Server.Handler.Outcomes.{handle_request-responsed}

-- What a request sees of Redis in a state.
abbrev pub replies_of : (r : Redis) → r.State → Replies
replies_of r s = record { exists = r.exists s; get = r.get s }

look_up-congr :
    (a b : Replies) (clock : Clock) (entity : CacheConfigEntity) (sql : Text) (ctx : ProxyContext)
    → a.exists (read_key sql) ≡ b.exists (read_key sql)
    → a.get (read_key sql) ≡ b.get (read_key sql)
    → look_up a clock entity sql ctx ≡ look_up b clock entity sql ctx
unfolding look_up
look_up-congr a b clock entity sql ctx h k = ground arith

handle_query-congr :
    (env : Env) (a b : Replies) (entities : List CacheConfigEntity) (clock : Clock) (sql : Text)
    (ctx : ProxyContext)
    → a.exists (read_key sql) ≡ b.exists (read_key sql)
    → a.get (read_key sql) ≡ b.get (read_key sql)
    → handle_query env a entities clock sql ctx ≡ handle_query env b entities clock sql ctx
unfolding handle_query
handle_query-congr env a b entities clock sql ctx h k =
    elim (Option-cases (find_entity env entities sql)) [
      | inl missing ↦ ground arith
      | inr (entity, found) ↦ ground (arith, look_up-congr a b clock entity sql ctx h k)
    ]

handle_packet-congr :
    (env : Env) (a b : Replies) (entities : List CacheConfigEntity) (clock : Clock)
    (packet_type : PacketType) (sql : Text) (ctx : ProxyContext)
    → a.exists (read_key sql) ≡ b.exists (read_key sql)
    → a.get (read_key sql) ≡ b.get (read_key sql)
    → handle_packet env a entities clock packet_type sql ctx
      ≡ handle_packet env b entities clock packet_type sql ctx
handle_packet-congr env a b entities clock com_query sql ctx h k =
    handle_query-congr env a b entities clock sql ctx h k
handle_packet-congr env a b entities clock _ sql ctx h k = refl

pub same_key :
    (u : Unicode) (origin sql : Text)
    → remove_comments origin ≡ sql
    → escape u sql ≡ sql
    → write_key u sql ≡ read_key (remove_comments origin)
unfolding write_key read_key
same_key u origin sql e plain = cc

module _ (u : Unicode) (env : Env) (r : Redis) (laws : RedisLaws r) where
  module _ (s : r.State) (task : CacheTaskInfo) (k : Text)
      (done : (handle_cache_task u r s task).1 ≡ true) where
    abbrev pub filled : r.State
    filled = (handle_cache_task u r s task).0

    exists-filled :
        r.exists filled k ≡ (if text_eq (write_key u task.sql) k then some true else r.exists s k)
    unfolding handle_cache_task
    exists-filled = laws.exists-set_ex s (write_key u task.sql) task.body _ k done

    get-filled :
        r.get filled k ≡ (if text_eq (write_key u task.sql) k then some task.body else r.get s k)
    unfolding handle_cache_task
    get-filled = laws.get-set_ex s (write_key u task.sql) task.body _ k done

    exists-filled_self : write_key u task.sql ≡ k → r.exists filled k ≡ some true
    exists-filled_self e = exists-filled ∙ rw ((text_eq_iff (write_key u task.sql) k).1 e)

    get-filled_self : write_key u task.sql ≡ k → r.get filled k ≡ some task.body
    get-filled_self e = get-filled ∙ rw ((text_eq_iff (write_key u task.sql) k).1 e)

    exists-filled_ne : write_key u task.sql ≢ k → r.exists filled k ≡ r.exists s k
    exists-filled_ne e = ground (arith, exists-filled, text_eq_iff (write_key u task.sql) k)

    get-filled_ne : write_key u task.sql ≢ k → r.get filled k ≡ r.get s k
    get-filled_ne e = ground (arith, get-filled, text_eq_iff (write_key u task.sql) k)

  -- After a task was stored, a cacheable request whose statement, without its comments, is that of
  -- the task is answered with the body of the task, if nothing in the statement is escaped.
  pub task-served :
      (s : r.State) (task : CacheTaskInfo) (entities : List CacheConfigEntity) (clock : Clock)
      (packet_type : PacketType) (ctx : ProxyContext) (origin : Text) (entity : CacheConfigEntity)
      → IsCacheable env entities packet_type ctx origin entity
      → remove_comments origin ≡ task.sql
      → escape u task.sql ≡ task.sql
      → 0 < length task.body
      → (handle_cache_task u r s task).1 ≡ true
      → (handle_request env
          (replies_of r (handle_cache_task u r s task).0)
          entities
          clock
          packet_type
          ctx).1
        ≡ responsed task.body
  task-served s task entities clock packet_type ctx origin entity c e plain n done =
      (handle_request-responsed env (replies_of r (handle_cache_task u r s task).0) entities clock
          packet_type ctx task.body).1
        (record {
          origin = origin;
          entity = entity;
          cacheable = c;
          exists =
              exists-filled_self s task (read_key (remove_comments origin)) done
                (same_key u origin task.sql e plain);
          get =
              get-filled_self s task (read_key (remove_comments origin)) done
                (same_key u origin task.sql e plain);
          not_empty = n;
        })

  -- A statement that holds a comment, white space at its ends or a character that `Debug` escapes
  -- is not served by the task that its own response fills the cache with: the request goes as if
  -- that had not been stored.
  pub task-not_served :
      (s : r.State) (task : CacheTaskInfo) (entities : List CacheConfigEntity) (clock : Clock)
      (packet_type : PacketType) (ctx : ProxyContext)
      → ctx.sql ≡ some task.sql
      → ¬ ((escape u task.sql ≡ task.sql) × (remove_comments task.sql ≡ task.sql))
      → (handle_cache_task u r s task).1 ≡ true
      → handle_request env
          (replies_of r (handle_cache_task u r s task).0)
          entities
          clock
          packet_type
          ctx
        ≡ handle_request env (replies_of r s) entities clock packet_type ctx
  unfolding handle_request
  task-not_served s task entities clock packet_type ctx has_sql differs done =
      let k = read_key (remove_comments task.sql) in
      let a = replies_of r (handle_cache_task u r s task).0 in
      let b = replies_of r s in
      let ctx' = record ctx { fn_start_time = clock.at_start } in
      let other : write_key u task.sql ≢ k =
        λ e. differs ((write_key-eq-read_key u task.sql).0 e) in
      ap (λ o. handle_sql env a entities clock packet_type o ctx') has_sql
      ∙ handle_packet-congr env a b entities clock packet_type (remove_comments task.sql) ctx'
          (exists-filled_ne s task k done other) (get-filled_ne s task k done other)
      ∙ ap (λ o. handle_sql env b entities clock packet_type o ctx') (sym has_sql)
