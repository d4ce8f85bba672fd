-- ===== src/Server/Meta.antt =====
-- server/src/meta.rs: the cache configurations that the proxy holds, and the job that reloads them.
use virt_db.Prelude.{ℕ, Option, none, some, List, [], ◌∷◌, ◌++◌, map, Text}
use virt_db.Prelude.Int.{ℤ, negsuc}
use virt_db.Text.{to_uppercase, trim}
use virt_db.Sql.Tokens.{Token, trim_tokens, unwrap_or_default}

pub record CacheConfigEntity : Type 0 where
  pub id : ℤ
  pub sql_template : Text
  pub duration : ℤ
  pub cache_name : Text
  pub remark : Text
  pub enabled : ℤ
  pub created_by : ℤ
  pub updated_by : ℤ
  pub cached_sql_parser_token : List Token

-- A row of `select id,sql_template,duration from cache_config where enabled = true`.
abbrev pub Row : Type 0
Row = ℤ × Text × ℤ

-- The static list after its `clear`, with each entity pushed in turn.
unfoldable pub push_all : List CacheConfigEntity → List CacheConfigEntity → List CacheConfigEntity
push_all entities [] = entities
push_all entities (entity ∷ rest) = push_all (entities ++ (entity ∷ [])) rest

unfoldable pub set_cache_config_entity_list :
    List CacheConfigEntity → List CacheConfigEntity → List CacheConfigEntity
unfolding push_all
set_cache_config_entity_list current entity_list = push_all [] entity_list

-- What one query of the database gives: no connection, an error, or rows.
pub data Answer : Type 0 where
  no_connection : Answer
  query_error : Answer
  rows : List Row → Answer

module _ (upper : ℕ → Text) (tokenize : Text → Option (List Token)) where
  -- The closure that makes an entity of a row.
  unfoldable pub entity_of_row : Row → CacheConfigEntity
  entity_of_row (id, sql_template, duration) =
      let sql_pattern = trim (to_uppercase upper sql_template) in
      record {
        id = id;
        sql_template = sql_pattern;
        duration = duration;
        cache_name = [];
        remark = [];
        enabled = negsuc 0;
        created_by = negsuc 0;
        updated_by = negsuc 0;
        cached_sql_parser_token = trim_tokens (unwrap_or_default (tokenize sql_pattern));
      }

  -- One round of the job; `none` is the panic of `unwrap` at a query that fails, which ends the
  -- thread.
  unfoldable pub reload : Answer → List CacheConfigEntity → Option (List CacheConfigEntity)
  unfolding entity_of_row set_cache_config_entity_list
  reload no_connection entities = some entities
  reload query_error entities = none
  reload (rows rs) entities = some (set_cache_config_entity_list entities (map entity_of_row rs))
