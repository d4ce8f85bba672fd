-- ===== src/Tests/Caching.antt =====
-- A configuration that is enabled through the admin service, at a concrete table.
use virt_db.Prelude.{◌≡◌, refl, none, some, [], ◌∷◌, ◌++◌, Text, codes, inl}
use virt_db.Prelude.Int.{pos}
use virt_db.Text.{to_uppercase, trim, trim_start, is_whitespace, starts_with}
use virt_db.Sql.Tokens.{trim_tokens}
use virt_db.Sql.Tokens.Matching.{words}
use virt_db.Server.Meta.{
  CacheConfigEntity, rows, reload, set_cache_config_entity_list, push_all, entity_of_row,
}
use virt_db.Server.Handler.{find_entity}
use virt_db.Server.Handler.Configured.{MatchesTemplate}
use virt_db.Admin.Error.{ok, success_of}
use virt_db.Admin.Token.{
  CurrentUser, Header, value, from_request, parse_current_user, verify_and_parse_token, remove_all,
}
use virt_db.Admin.CacheConfig.Change.{CacheConfigCreateParam, to_active_model, create, enabled_rows}
use virt_db.Admin.Service.{AppState, answered, current_user, dispatch, handle}
use virt_db.Admin.Service.Caching.{create_request, create-used}
use virt_db.Tests.World.{env, statement, entity}
use virt_db.Tests.Admin.{token}
use virt_db.Tests.Unused.{config, table_laws}
use virt_db.Tests.Service.{backend, state, at}

abbrev disabled : AppState backend
disabled = record state { configs = record (config (pos 1)) { enabled = pos 0 } ∷ [] }

abbrev enabling : CacheConfigCreateParam
enabling = record {
  id = some (pos 1);
  cache_name = none;
  sql_template = some statement;
  remark = none;
  duration = none;
  enabled = some (pos 1);
}

abbrev header : Header
header = value (codes "Bearer " ++ token)

matches : MatchesTemplate env statement statement
unfolding to_uppercase trim trim_start is_whitespace trim_tokens
matches = (words _ _ refl, tt)

saved :
    (handle backend (at 100) disabled (create_request backend header none enabling)).1
    ≡ answered (success_of Text [])
unfolding handle dispatch create to_active_model from_request parse_current_user
    verify_and_parse_token remove_all trim trim_start is_whitespace starts_with
saved = refl

reloaded :
    reload env.upper env.tokenize
      (rows (
        enabled_rows
          (handle backend
            (at 100)
            disabled
            (create_request backend header none enabling)).0.configs))
      []
    ≡ some (entity ∷ [])
unfolding handle dispatch create to_active_model from_request parse_current_user
    verify_and_parse_token remove_all starts_with reload set_cache_config_entity_list push_all
    entity_of_row enabled_rows to_uppercase trim trim_start is_whitespace trim_tokens
reloaded = refl

create-used_example :
    ((u : CurrentUser) × (current_user backend
          (at 100)
          (create_request backend header none enabling)
        ≡ ok u))
    × ((e : CacheConfigEntity) × (find_entity env (entity ∷ []) statement ≡ some e))
create-used_example =
    create-used backend table_laws env statement (at 100) disabled header none enabling (pos 1)
      statement [] (entity ∷ []) saved refl refl refl (inl refl) matches reloaded
