-- ===== src/Admin/CacheConfig/Change.antt =====
-- `create` and `delete` of admin/src/controller/cache_config_controller.rs, and `to_active_model` of
-- admin/src/model/cache_config_model.rs. The table `cache_config` is a parameter.
use virt_db.Prelude.{◌≡◌, Option, none, some, List, [], ◌∷◌, map, Text, if◌then◌else◌}
use virt_db.Prelude.Int.{ℤ, pos}
use virt_db.Server.Meta.{Row}
use virt_db.Admin.Error.{Result, ok, err, SysError, system, DataWrapper, success_of}
use virt_db.Admin.CacheConfig.{Model, same_number}

-- `ActiveValue` of sea-orm: a column that is set, or left as it is.
pub data ActiveValue (A : Type 0) : Type 0 where
  set : A → ActiveValue A
  not_set : ActiveValue A

abbrev pub option_to_active_value : {V : Type 0} → Option V → ActiveValue V
option_to_active_value none = not_set
option_to_active_value (some v) = set v

-- The other columns are never set.
pub record ActiveModel : Type 0 where
  pub id : ActiveValue ℤ
  pub sql_template : ActiveValue Text
  pub duration : ActiveValue ℤ
  pub cache_name : ActiveValue Text
  pub remark : ActiveValue Text
  pub enabled : ActiveValue ℤ

pub record CacheConfigCreateParam : Type 0 where
  pub id : Option ℤ
  pub cache_name : Option Text
  pub sql_template : Option Text
  pub remark : Option Text
  pub duration : Option ℤ
  pub enabled : Option ℤ

unfoldable pub to_active_model : CacheConfigCreateParam → ActiveModel
to_active_model p = record {
  id = option_to_active_value p.id;
  sql_template = option_to_active_value p.sql_template;
  duration = option_to_active_value p.duration;
  cache_name = option_to_active_value p.cache_name;
  remark = option_to_active_value p.remark;
  enabled = option_to_active_value p.enabled;
}

-- The table: its rows, a save, and a deletion by the primary key.
pub record Configs : Type 1 where
  pub State : Type 0
  pub rows : State → List Model
  pub save : State → ActiveModel → Result Text State
  pub delete_by_id : State → ℤ → Result Text State

abbrev pub set_or : {A : Type 0} → ActiveValue A → A → A
set_or (set v) old = v
set_or not_set old = old

abbrev pub apply : ActiveModel → Model → Model
apply m row = record row {
  sql_template = set_or m.sql_template row.sql_template;
  duration = set_or m.duration row.duration;
  cache_name = set_or m.cache_name row.cache_name;
  remark = set_or m.remark row.remark;
  enabled = set_or m.enabled row.enabled;
}

abbrev pub apply_at : ActiveModel → ℤ → Model → Model
apply_at m i row = if same_number row.id i then apply m row else row

abbrev pub without : ℤ → List Model → List Model
without i [] = []
without i (row ∷ rows) = if same_number row.id i then without i rows else row ∷ without i rows

-- A save with a primary key is an UPDATE of the columns that are set in the row with that key; a
-- deletion is a DELETE of that row.
pub record ConfigsLaws (table : Configs) : Type 0 where
  pub rows-save :
      (s s' : table.State) (m : ActiveModel) (i : ℤ)
      → m.id ≡ set i
      → table.save s m ≡ ok s'
      → table.rows s' ≡ map (apply_at m i) (table.rows s)
  pub rows-delete_by_id :
      (s s' : table.State) (i : ℤ)
      → table.delete_by_id s i ≡ ok s'
      → table.rows s' ≡ without i (table.rows s)

module _ (table : Configs) where
  abbrev pub finish :
      table.State → Result Text table.State → table.State × Result SysError (DataWrapper Text)
  finish s (err e) = (s, err (system e))
  finish s (ok s') = (s', ok (success_of Text []))

  unfoldable pub create :
      table.State → CacheConfigCreateParam → table.State × Result SysError (DataWrapper Text)
  unfolding to_active_model
  create s req = finish s (table.save s (to_active_model req))

  unfoldable pub delete : table.State → ℤ → table.State × Result SysError (DataWrapper Text)
  delete s id = finish s (table.delete_by_id s id)

-- What the proxy selects: id, sql_template and duration where enabled is true.
unfoldable pub enabled_rows : List Model → List Row
enabled_rows [] = []
enabled_rows (row ∷ rows) =
    let rest = enabled_rows rows in
    if same_number row.enabled (pos 1)
    then (row.id, row.sql_template, row.duration) ∷ rest
    else rest
