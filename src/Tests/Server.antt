-- ===== src/Tests/Server.antt =====
-- The theorems on packets, keys and requests at concrete inputs.
use virt_db.Prelude.{◌≡◌, ◌↔◌, List, map, refl, true, none, some, [], ◌∷◌, Text, codes}
use virt_db.Text.{is_whitespace, trim, trim_start, starts_with, contains, to_uppercase}
use virt_db.Sql.Comments.{remove_comments}
use virt_db.Sql.Tokens.{is_pattern_match, is_same, trim_tokens, word}
use virt_db.Server.Packet.{com_query}
use virt_db.Server.Cache.{escape, read_key, write_key, CacheTaskInfo, handle_cache_task}
use virt_db.Server.Cache.Keys.{write_key-eq-read_key}
use virt_db.Server.Handler.{ProxyContext, Replies, responsed, find_entity, handle_request}
use virt_db.Server.Handler.Requests.{IsCacheable}
use virt_db.Server.Handler.Outcomes.{IsHit, IsMiss, handle_request-responsed, handle_request-stored}
use virt_db.Server.Meta.{CacheConfigEntity, Row, rows, reload, entity_of_row}
use virt_db.Server.Handler.Configured.{IsFirst, reload-find_entity}
use virt_db.Server.Proxy.{fresh}
use virt_db.Server.Serving.{replies_of, task-not_served}
use virt_db.Tests.World.{unicode, env, statement, entity, clock, redis, redis_laws}
use virt_db.Prelude.Int.{pos, negsuc}

write_key-eq-read_key_example :
    (write_key unicode statement ≡ read_key (remove_comments statement))
    ↔ ((escape unicode statement ≡ statement) × (remove_comments statement ≡ statement))
write_key-eq-read_key_example = write_key-eq-read_key unicode statement

abbrev request : ProxyContext
request = record (fresh 0) { sql = some statement }

abbrev replies : Replies
replies = replies_of redis []

-- Redis holds a response at the key of the statement.
abbrev hit : Replies
hit = record { exists = λ key. some true; get = λ key. some (1 ∷ []) }

handle_request-responsed_example :
    ((handle_request env hit (entity ∷ []) clock com_query request).1 ≡ responsed (1 ∷ []))
    ↔ IsHit env hit (entity ∷ []) clock com_query request (1 ∷ [])
handle_request-responsed_example =
    handle_request-responsed env hit (entity ∷ []) clock com_query request (1 ∷ [])

answers : (handle_request env hit (entity ∷ []) clock com_query request).1 ≡ responsed (1 ∷ [])
unfolding handle_request find_entity is_whitespace starts_with contains to_uppercase
    is_pattern_match read_key
answers = refl

handle_request-stored_example :
    ((handle_request env replies (entity ∷ []) clock com_query request).0.should_update_cache
      ≡ true)
    ↔ IsMiss env replies (entity ∷ []) clock com_query request
handle_request-stored_example =
    handle_request-stored env replies (entity ∷ []) clock com_query request refl

stored :
    (handle_request env replies (entity ∷ []) clock com_query request).0.should_update_cache ≡ true
unfolding handle_request find_entity is_whitespace starts_with contains to_uppercase
    is_pattern_match read_key
stored = refl

abbrev task : CacheTaskInfo
task = record { sql = statement; body = 7 ∷ []; duration = pos 5 }

cacheable : IsCacheable env (entity ∷ []) com_query request statement entity
unfolding find_entity is_whitespace starts_with contains to_uppercase is_pattern_match
    remove_comments
cacheable = record {
  has_sql = refl;
  is_query = refl;
  is_select = refl;
  one_packet = refl;
  found = refl;
}

abbrev quoted : Text
quoted = codes "SELECT \"a\""

abbrev quoted_task : CacheTaskInfo
quoted_task = record { sql = quoted; body = 7 ∷ []; duration = pos 5 }

quoted-escaped : ¬ ((escape unicode quoted ≡ quoted) × (remove_comments quoted ≡ quoted))
unfolding escape
quoted-escaped h = cc h.0

task-not_served_example :
    let r = record (fresh 0) { sql = some quoted } in
    handle_request env
      (replies_of redis (handle_cache_task unicode redis [] quoted_task).0)
      (entity ∷ [])
      clock
      com_query
      r
    ≡ handle_request env (replies_of redis []) (entity ∷ []) clock com_query r
unfolding handle_cache_task
task-not_served_example =
    task-not_served unicode env redis redis_laws [] quoted_task (entity ∷ []) clock com_query
      (record (fresh 0) { sql = some quoted }) refl quoted-escaped refl

abbrev table : List Row
table = (pos 1, codes "select 2", pos 60) ∷ (pos 2, codes " select 1", pos 90) ∷ []

abbrev loaded : CacheConfigEntity
loaded = record {
  id = pos 2;
  sql_template = statement;
  duration = pos 90;
  cache_name = [];
  remark = [];
  enabled = negsuc 0;
  created_by = negsuc 0;
  updated_by = negsuc 0;
  cached_sql_parser_token =
      word (record { value = statement; quote_style = none; keyword = 0 }) ∷ [];
}

reload-find_entity_example :
    (entities : List CacheConfigEntity) × (reload env.upper env.tokenize (rows table) (entity ∷ [])
      ≡ some entities)
    × ((find_entity env entities statement ≡ some loaded) ↔ IsFirst env statement table loaded)
reload-find_entity_example = reload-find_entity env statement table (entity ∷ []) loaded

-- The template is found for its statement.
finds_loaded :
    find_entity env (map (entity_of_row env.upper env.tokenize) table) statement ≡ some loaded
unfolding find_entity entity_of_row to_uppercase trim trim_start is_whitespace is_pattern_match
    is_same trim_tokens
finds_loaded = refl
