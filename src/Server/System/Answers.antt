-- ===== src/Server/System/Answers.antt =====
-- What a client of the whole proxy is answered from the cache.
use virt_db.Prelude.{ℕ, ◌≡◌, sym, ◌∙◌, subst, Bool, none, some, [], List, Text}
use virt_db.Sql.Comments.{remove_comments}
use virt_db.Server.Packet.{PacketType}
use virt_db.Server.Cache.{Unicode, Redis, write_key, read_key}
use virt_db.Server.Cache.Timed.{Times, TimedLaws}
use virt_db.Server.Meta.{CacheConfigEntity}
use virt_db.Server.Handler.{Env, Outbox, responsed}
use virt_db.Server.Handler.Outcomes.{handle_request-responsed}
use virt_db.Server.Proxy.{Arrival}
use virt_db.Server.Proxy.Steps.{handled, request_ctx}
use virt_db.Server.Serving.Fresh.{get-holds}
use virt_db.Server.System.{Line, System, SystemEvent, seen, shared, system_run}
use virt_db.Server.System.Provenance.{IsSourced}
use virt_db.Server.System.Integrity.{AreSourced, IsIntegral}
use virt_db.Server.System.Preservation.{system_run-IsIntegral}

module _ (env : Env) (u : Unicode) (r : Redis) (t : Times r) (laws : TimedLaws r t) where
  -- The proxy before its first connection.
  abbrev pub new_system : r.State → List CacheConfigEntity → Outbox → System r
  new_system redis entities out = record {
    lines = [];
    redis = redis;
    entities = entities;
    out = out;
  }

  new_system-IsIntegral :
      (redis : r.State) (entities : List CacheConfigEntity) (out : Outbox)
      → ((k : Text) → t.holds redis k ≡ none)
      → out.cache_tasks ≡ []
      → IsIntegral env u r t laws (new_system redis entities out)
  new_system-IsIntegral redis entities out empty no_tasks = record {
    lines = tt;
    tasks = subst (λ l. AreSourced [] l) (sym no_tasks) tt;
    held = λ k v left e. absurd (let q = sym (empty k) ∙ e in cc);
  }

  -- In whatever order connections are accepted, their packets and responses come, tasks are stored,
  -- configurations are loaded and time passes, from an empty cache on: where a request is answered from
  -- the cache, the bytes stand in one piece in what the database sent on one connection, whose client
  -- asked for a statement that is stored under the very key that the request reads.
  pub responsed-IsSourced :
      (address_parses : Bool) (events : List SystemEvent) (redis : r.State)
      (entities : List CacheConfigEntity) (out : Outbox) (line : Line) (a : Arrival)
      (packet_type : PacketType) (v : List ℕ)
      → ((k : Text) → t.holds redis k ≡ none)
      → out.cache_tasks ≡ []
      → let s = system_run env u r t address_parses events (new_system redis entities out) in
        (handled env (seen env u r t s a) (shared env u r t s line) packet_type).1 ≡ responsed v
        → (origin : Text) × (sql : Text) × ((request_ctx env a (shared env u r t s line)).sql
            ≡ some origin)
          × (write_key u sql ≡ read_key (remove_comments origin))
          × IsSourced s.lines sql v
  responsed-IsSourced address_parses events redis entities out line a packet_type v empty no_tasks
        answered =
      let s = system_run env u r t address_parses events (new_system redis entities out) in
      let h =
        system_run-IsIntegral env u r t laws address_parses events (new_system redis entities out)
          (new_system-IsIntegral redis entities out empty no_tasks) in
      let a' = seen env u r t s a in
      let hit =
        (handle_request-responsed env a'.replies a'.entities a'.clock packet_type
            (request_ctx env a' (shared env u r t s line)) v).0
          answered in
      let k = read_key (remove_comments hit.origin) in
      let (left, held) = get-holds u r t laws s.redis k v hit.get hit.not_empty in
      let (sql, key, sourced) = h.held k v left held in
      (hit.origin, sql, hit.cacheable.has_sql, key, sourced)
