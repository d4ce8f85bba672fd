-- ===== src/Server/Handler/Requests.antt =====
-- When a request is answered from the cache, and when its response is to be stored.
use virt_db.Prelude.{
  ◌≡◌, ◌↔◌, refl, Bool, true, false, Option, none, some, List, [], ◌∷◌, Text, codes, arith, All,
  Bool-cases, Option-cases, inl, inr, ◌⊎◌, ◌∙◌, ap,
}
use virt_db.Text.{to_uppercase, trim, starts_with, contains}
use virt_db.Sql.Comments.{remove_comments}
use virt_db.Sql.Tokens.{is_pattern_match}
use virt_db.Server.Packet.{PacketType, com_query}
use virt_db.Server.Meta.{CacheConfigEntity}
use virt_db.Server.Handler.{
  Action, forward, ProxyContext, Clock, Replies, Env, find_entity, look_up, handle_sql,
  handle_query, handle_packet, handle_request,
}

module _ (env : Env) where
  abbrev matches_entity : Text → CacheConfigEntity → Bool
  matches_entity sql entity =
      is_pattern_match env.tokenize entity.cached_sql_parser_token
        (trim (to_uppercase env.upper sql))

  -- The configuration that is found matches the statement.
  pub find_entity-matches :
      (entities : List CacheConfigEntity) (sql : Text) (entity : CacheConfigEntity)
      → find_entity env entities sql ≡ some entity
      → matches_entity sql entity ≡ true
  unfolding find_entity
  find_entity-matches [] sql entity h = cc
  find_entity-matches (e ∷ rest) sql entity h = ground (arith, find_entity-matches rest sql entity)

  -- None is found exactly when none matches.
  pub find_entity-none :
      (entities : List CacheConfigEntity) (sql : Text)
      → (find_entity env entities sql ≡ none)
        ↔ All (λ entity. matches_entity sql entity ≡ false) entities
  unfolding find_entity
  find_entity-none [] sql = (λ h. tt, λ h. refl)
  find_entity-none (e ∷ rest) sql = (
    λ h. (ground arith, (find_entity-none rest sql).0 (ground arith)),
    λ h. ground (arith, (find_entity-none rest sql).1 h.1),
  )

-- A statement that the cache is asked for, with the configuration that applies to it.
pub record IsCacheable (env : Env) (entities : List CacheConfigEntity) (packet_type : PacketType)
    (ctx : ProxyContext) (origin : Text) (entity : CacheConfigEntity) : Type 0 where
  pub has_sql : ctx.sql ≡ some origin
  pub is_query : packet_type ≡ com_query
  pub is_select :
      starts_with (codes "SELECT") (to_uppercase env.upper (remove_comments origin)) ≡ true
  pub one_packet :
      contains (0 ∷ 0 ∷ 0 ∷ 3 ∷ []) (to_uppercase env.upper (remove_comments origin)) ≡ false
  pub found : find_entity env entities (remove_comments origin) ≡ some entity

handle_query_cases :
    (env : Env) (replies : Replies) (entities : List CacheConfigEntity) (clock : Clock) (sql : Text)
    (ctx : ProxyContext)
    → (handle_query env replies entities clock sql ctx ≡ (ctx, forward))
      ⊎ (handle_query env replies entities clock sql ctx ≡ (record ctx { skip = true }, forward))
      ⊎ ((entity : CacheConfigEntity) × (starts_with (codes "SELECT") (to_uppercase env.upper sql)
            ≡ true)
          × (contains (0 ∷ 0 ∷ 0 ∷ 3 ∷ []) (to_uppercase env.upper sql) ≡ false)
          × (find_entity env entities sql ≡ some entity)
          × (handle_query env replies entities clock sql ctx
              ≡ look_up replies clock entity sql ctx))
unfolding handle_query
handle_query_cases env replies entities clock sql ctx =
    elim (Bool-cases (starts_with (codes "SELECT") (to_uppercase env.upper sql))) [
      | inr no_select ↦ inl (rw no_select)
      | inl select ↦
          elim (Bool-cases (contains (0 ∷ 0 ∷ 0 ∷ 3 ∷ []) (to_uppercase env.upper sql))) [
            | inl several ↦ inr (inl (rw (select, several)))
            | inr one ↦ elim (Option-cases (find_entity env entities sql)) [
              | inl missing ↦ inl (rw (select, one, missing))
              | inr (entity, found) ↦
                  inr (inr (entity, select, one, found, rw (select, one, found)))
            ]
          ]
    ]

handle_query-found :
    (env : Env) (replies : Replies) (entities : List CacheConfigEntity) (clock : Clock) (sql : Text)
    (ctx : ProxyContext) (entity : CacheConfigEntity)
    → starts_with (codes "SELECT") (to_uppercase env.upper sql) ≡ true
    → contains (0 ∷ 0 ∷ 0 ∷ 3 ∷ []) (to_uppercase env.upper sql) ≡ false
    → find_entity env entities sql ≡ some entity
    → handle_query env replies entities clock sql ctx ≡ look_up replies clock entity sql ctx
unfolding handle_query
handle_query-found env replies entities clock sql ctx entity select one found =
    rw (select, one, found)

handle_packet_cases :
    (env : Env) (replies : Replies) (entities : List CacheConfigEntity) (clock : Clock)
    (packet_type : PacketType) (sql : Text) (ctx : ProxyContext)
    → (handle_packet env replies entities clock packet_type sql ctx ≡ (ctx, forward))
      ⊎ ((packet_type ≡ com_query)
          × (handle_packet env replies entities clock packet_type sql ctx
              ≡ handle_query env replies entities clock sql ctx))
handle_packet_cases env replies entities clock com_query sql ctx = inr (refl, refl)
handle_packet_cases env replies entities clock _ sql ctx = inl refl

module _ (env : Env) (replies : Replies) (entities : List CacheConfigEntity) (clock : Clock)
    (packet_type : PacketType) (ctx : ProxyContext) where
  abbrev pub result : ProxyContext × Action
  result = handle_request env replies entities clock packet_type ctx

  abbrev pub started : ProxyContext
  started = record ctx { fn_start_time = clock.at_start }

  result-sql :
      {o : Option Text}
      → ctx.sql ≡ o
      → result ≡ handle_sql env replies entities clock packet_type o started
  unfolding handle_request
  result-sql h = ap (λ o. handle_sql env replies entities clock packet_type o started) h

  -- A request goes to the database as it came, or marked to be skipped, or it is looked up.
  pub handle_request_cases :
      (result ≡ (started, forward))
      ⊎ (result ≡ (record started { skip = true }, forward))
      ⊎ ((origin : Text) × (entity : CacheConfigEntity) × IsCacheable env entities packet_type ctx
            origin entity
          × (result ≡ look_up replies clock entity (remove_comments origin) started))
  handle_request_cases = elim (Option-cases ctx.sql) [
    | inl no_sql ↦ inl (result-sql no_sql)
    | inr (origin, has_sql) ↦
        let sql = remove_comments origin in
        elim (handle_packet_cases env replies entities clock packet_type sql started) [
          | inl other ↦ inl (result-sql has_sql ∙ other)
          | inr (is_query, queried) ↦
              let here = result-sql has_sql ∙ queried in
              elim (handle_query_cases env replies entities clock sql started) [
                | inl passed ↦ inl (here ∙ passed)
                | inr (inl several) ↦ inr (inl (here ∙ several))
                | inr (inr (entity, select, one, found, eq)) ↦
                    let cacheable : IsCacheable env entities packet_type ctx origin entity =
                      record {
                        has_sql = has_sql;
                        is_query = is_query;
                        is_select = select;
                        one_packet = one;
                        found = found;
                      } in
                    inr (inr (origin, entity, cacheable, here ∙ eq))
              ]
        ]
  ]

  pub handle_request-cacheable :
      {origin : Text} {entity : CacheConfigEntity}
      → IsCacheable env entities packet_type ctx origin entity
      → result ≡ look_up replies clock entity (remove_comments origin) started
  handle_request-cacheable {origin} {entity} c =
      let sql = remove_comments origin in
      result-sql c.has_sql
      ∙ ap (λ t. handle_packet env replies entities clock t sql started) c.is_query
      ∙ handle_query-found env replies entities clock sql started entity c.is_select c.one_packet
          c.found
