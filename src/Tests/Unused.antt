-- ===== src/Tests/Unused.antt =====
-- A configuration that is disabled or deleted, at a concrete table.
use virt_db.Prelude.{◌≡◌, ◌≢◌, refl, none, some, List, [], ◌∷◌, map, Text, codes, ap, ◌∙◌, sym}
use virt_db.Prelude.Int.{ℤ, pos, negsuc}
use virt_db.Text.{to_uppercase, trim, trim_start, is_whitespace}
use virt_db.Sql.Tokens.{is_pattern_match, is_same, trim_tokens, word}
use virt_db.Server.Meta.{
  CacheConfigEntity, rows, reload, entity_of_row, push_all, set_cache_config_entity_list,
}
use virt_db.Server.Handler.{find_entity}
use virt_db.Admin.Error.{Result, ok, err}
use virt_db.Admin.CacheConfig.{Model}
use virt_db.Admin.CacheConfig.Change.{
  ActiveValue, set, not_set, ActiveModel, CacheConfigCreateParam, to_active_model, Configs,
  ConfigsLaws, apply_at, without, create, enabled_rows,
}
use virt_db.Admin.CacheConfig.Unused.{create-unused}
use virt_db.Tests.World.{env, statement}

abbrev save : List Model → ActiveValue ℤ → ActiveModel → Result Text (List Model)
save s (set i) m = ok (map (apply_at m i) s)
save s not_set m = err (codes "no insertion here")

abbrev saved : List Model → Result Text (List Model)
saved s = ok s

saved-injective : {s t : List Model} → saved s ≡ saved t → s ≡ t
saved-injective h = cc

abbrev pub table : Configs
table = record {
  State = List Model;
  rows = λ s. s;
  save = λ s m. save s m.id m;
  delete_by_id = λ s i. ok (without i s);
}

pub table_laws : ConfigsLaws table
table_laws = record {
  rows-save = λ s s' m i h e. sym (saved-injective (sym (ap (λ v. save s v m) h) ∙ e));
  rows-delete_by_id = λ s s' i e. sym (saved-injective e);
}

abbrev pub config : ℤ → Model
config id = record {
  id = id;
  sql_template = statement;
  duration = pos 90;
  cache_name = [];
  remark = [];
  enabled = pos 1;
  created_by = pos 0;
  updated_by = pos 0;
}

abbrev pub configs : List Model
configs = config (pos 1) ∷ config (pos 2) ∷ []

abbrev disabling : CacheConfigCreateParam
disabling = record {
  id = some (pos 1);
  cache_name = none;
  sql_template = none;
  remark = none;
  duration = none;
  enabled = some (pos 0);
}

abbrev disabled : List Model
disabled = record (config (pos 1)) { enabled = pos 0 } ∷ config (pos 2) ∷ []

abbrev found : CacheConfigEntity
found = record {
  id = pos 2;
  sql_template = statement;
  duration = pos 90;
  cache_name = [];
  remark = [];
  enabled = negsuc 0;
  created_by = negsuc 0;
  updated_by = negsuc 0;
  cached_sql_parser_token =
      word (record { value = statement; quote_style = none; keyword = 0 }) ∷ [];
}

reloads_disabled :
    reload env.upper env.tokenize (rows (enabled_rows disabled)) [] ≡ some (found ∷ [])
unfolding reload set_cache_config_entity_list push_all entity_of_row enabled_rows to_uppercase trim
    trim_start is_whitespace trim_tokens
reloads_disabled = refl

reloads_deleted :
    reload env.upper env.tokenize (rows (enabled_rows (config (pos 2) ∷ []))) [] ≡ some (found ∷ [])
unfolding reload set_cache_config_entity_list push_all entity_of_row enabled_rows to_uppercase trim
    trim_start is_whitespace trim_tokens
reloads_deleted = refl

finds : find_entity env (found ∷ []) statement ≡ some found
unfolding find_entity to_uppercase trim trim_start is_whitespace is_pattern_match is_same
    trim_tokens
finds = refl

create-unused_example : pos 2 ≢ pos 1
create-unused_example =
    create-unused table table_laws env statement configs disabled disabling (pos 1) [] (found ∷ [])
      found (unfold create to_active_model in refl) refl refl reloads_disabled finds
