-- ===== src/Admin/CacheConfig/Unused.antt =====
-- A configuration that was disabled or deleted is not used by the proxy after its next reload.
use virt_db.Prelude.{
  some_injective, ◌≡◌, ◌≢◌, sym, ap, subst, ◌∙◌, Bool, true, false, Bool-cases, some, List, [], ◌∷◌,
  ◌++◌, map, Text, All, inl, inr, if◌then◌else◌,
}
use virt_db.Prelude.Int.{ℤ, pos}
use virt_db.Server.Meta.{CacheConfigEntity, Row, rows, reload, entity_of_row}
use virt_db.Server.Handler.{Env, find_entity}
use virt_db.Server.Handler.Configured.{IsFirst, reload-find_entity}
use virt_db.Admin.Error.{Result, ok, err, SysError, DataWrapper, success_of}
use virt_db.Admin.CacheConfig.{Model, same_number, same_number_refl}
use virt_db.Admin.CacheConfig.Change.{
  ActiveModel, set, CacheConfigCreateParam, to_active_model, Configs, ConfigsLaws, apply, apply_at,
  set_or, option_to_active_value, finish, without, create, delete, enabled_rows,
}

-- No row that the proxy selects has the id `i`.
abbrev IsUnused : ℤ → List Row → Type 0
IsUnused i rs = All (λ r. same_number r.0 i ≡ false) rs

IsUnused-if :
    (i : ℤ) (b : Bool) (r : Row) (rest : List Row)
    → same_number r.0 i ≡ false
    → IsUnused i rest
    → IsUnused i (if b then r ∷ rest else rest)
IsUnused-if i true r rest n h = (n, h)
IsUnused-if i false r rest n h = h

IsUnused-cons :
    (i : ℤ) (row : Model) (l : List Model)
    → same_number row.id i ≡ false
    → IsUnused i (enabled_rows l)
    → IsUnused i (enabled_rows (row ∷ l))
unfolding enabled_rows
IsUnused-cons i row l n h =
    IsUnused-if i (same_number row.enabled (pos 1)) (row.id, row.sql_template, row.duration)
      (enabled_rows l) n h

enabled_rows-disabled :
    (row : Model) (l : List Model) → row.enabled ≡ pos 0 → enabled_rows (row ∷ l) ≡ enabled_rows l
unfolding enabled_rows
enabled_rows-disabled row l h =
    ap
      (λ v.
        if same_number v (pos 1)
        then (row.id, row.sql_template, row.duration) ∷ enabled_rows l
        else enabled_rows l)
      h

without-IsUnused : (i : ℤ) (l : List Model) → IsUnused i (enabled_rows (without i l))
without-IsUnused i [] = unfold enabled_rows in tt
without-IsUnused i (row ∷ l) =
    let kept : Bool → List Model = λ b. if b then without i l else row ∷ without i l in
    let rest = without-IsUnused i l in
    elim (Bool-cases (same_number row.id i)) [
      | inl e ↦ subst (λ b. IsUnused i (enabled_rows (kept b))) (sym e) rest
      | inr n ↦
          subst (λ b. IsUnused i (enabled_rows (kept b))) (sym n)
            (IsUnused-cons i row (without i l) n rest)
    ]

apply-IsUnused :
    (m : ActiveModel) (i : ℤ) (l : List Model)
    → m.enabled ≡ set (pos 0)
    → IsUnused i (enabled_rows (map (apply_at m i) l))
apply-IsUnused m i [] h = unfold enabled_rows in tt
apply-IsUnused m i (row ∷ l) h =
    let done = map (apply_at m i) l in
    let rest = apply-IsUnused m i l h in
    let saved : Bool → Model = λ b. if b then apply m row else row in
    elim (Bool-cases (same_number row.id i)) [
      | inl e ↦
          let skip = enabled_rows-disabled (apply m row) done (ap (λ v. set_or v row.enabled) h) in
          subst (λ b. IsUnused i (enabled_rows (saved b ∷ done))) (sym e)
            (subst (IsUnused i) (sym skip) rest)
      | inr n ↦
          subst (λ b. IsUnused i (enabled_rows (saved b ∷ done))) (sym n)
            (IsUnused-cons i row done n rest)
    ]

All-middle :
    (i : ℤ) (before : List Row) (row : Row) (after : List Row)
    → IsUnused i (before ++ row ∷ after)
    → same_number row.0 i ≡ false
All-middle i [] row after h = h.0
All-middle i (r ∷ before) row after h = All-middle i before row after h.1

module _ (table : Configs) (laws : ConfigsLaws table) where
  abbrev pub success : Result SysError (DataWrapper Text)
  success = ok (success_of Text [])

  finish-ok :
      (s s' : table.State) (r : Result Text table.State)
      → finish table s r ≡ (s', success)
      → r ≡ ok s'
  finish-ok s s' (ok t) h = cc
  finish-ok s s' (err e) h = cc

  create-IsUnused :
      (s s' : table.State) (req : CacheConfigCreateParam) (i : ℤ)
      → create table s req ≡ (s', success)
      → req.id ≡ some i
      → req.enabled ≡ some (pos 0)
      → IsUnused i (enabled_rows (table.rows s'))
  unfolding create to_active_model
  create-IsUnused s s' req i h a b =
      let m = to_active_model req in
      let e =
        laws.rows-save s s' m i (ap option_to_active_value a) (finish-ok s s' (table.save s m) h) in
      subst (λ l. IsUnused i (enabled_rows l)) (sym e)
        (apply-IsUnused m i (table.rows s) (ap option_to_active_value b))

  delete-IsUnused :
      (s s' : table.State) (i : ℤ)
      → delete table s i ≡ (s', success)
      → IsUnused i (enabled_rows (table.rows s'))
  unfolding delete
  delete-IsUnused s s' i h =
      let e = laws.rows-delete_by_id s s' i (finish-ok s s' (table.delete_by_id s i) h) in
      subst (λ l. IsUnused i (enabled_rows l)) (sym e) (without-IsUnused i (table.rows s))

  -- What the proxy finds for a statement after it reloaded rows without the id `i` has another id.
  found-other :
      (env : Env) (sql : Text) (i : ℤ) (rs : List Row) (entity : CacheConfigEntity)
      → IsUnused i rs
      → IsFirst env sql rs entity
      → same_number entity.id i ≡ false
  unfolding entity_of_row
  found-other env sql i rs entity h (before, row, after, shape, none_before, m, e) =
      ap (λ x. same_number x.id i) e ∙ All-middle i before row after (subst (IsUnused i) shape h)

  reload-other :
      (env : Env) (sql : Text) (i : ℤ) (rs : List Row) (current entities : List CacheConfigEntity)
      (entity : CacheConfigEntity)
      → IsUnused i rs
      → reload env.upper env.tokenize (rows rs) current ≡ some entities
      → find_entity env entities sql ≡ some entity
      → entity.id ≢ i
  reload-other env sql i rs current entities entity h r f q =
      let (loaded, r', found) = reload-find_entity env sql rs current entity in
      let same : loaded ≡ entities = some_injective (sym r' ∙ r) in
      let first = found.0 (ap (λ l. find_entity env l sql) same ∙ f) in
      let other = found-other env sql i rs entity h first in
      let self = ap (λ x. same_number x i) q ∙ same_number_refl i in cc

  -- After a configuration was saved with `enabled` 0, the proxy does not use it for any statement once
  -- it has reloaded the enabled rows of the table.
  pub create-unused :
      (env : Env) (sql : Text) (s s' : table.State) (req : CacheConfigCreateParam) (i : ℤ)
      (current entities : List CacheConfigEntity) (entity : CacheConfigEntity)
      → create table s req ≡ (s', success)
      → req.id ≡ some i
      → req.enabled ≡ some (pos 0)
      → reload env.upper env.tokenize (rows (enabled_rows (table.rows s'))) current ≡ some entities
      → find_entity env entities sql ≡ some entity
      → entity.id ≢ i
  create-unused env sql s s' req i current entities entity h a b =
      reload-other env sql i (enabled_rows (table.rows s')) current entities entity
        (create-IsUnused s s' req i h a b)

  -- After a configuration was deleted, the proxy does not use it for any statement once it has reloaded
  -- the enabled rows of the table.
  pub delete-unused :
      (env : Env) (sql : Text) (s s' : table.State) (i : ℤ)
      (current entities : List CacheConfigEntity) (entity : CacheConfigEntity)
      → delete table s i ≡ (s', success)
      → reload env.upper env.tokenize (rows (enabled_rows (table.rows s'))) current ≡ some entities
      → find_entity env entities sql ≡ some entity
      → entity.id ≢ i
  delete-unused env sql s s' i current entities entity h =
      reload-other env sql i (enabled_rows (table.rows s')) current entities entity
        (delete-IsUnused s s' i h)
