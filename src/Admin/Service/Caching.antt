-- ===== src/Admin/Service/Caching.antt =====
-- A configuration that is enabled through the admin service is used by the proxy after its next reload.
use virt_db.Prelude.{
  some_injective, ◌≡◌, ◌⊎◌, inl, inr, refl, sym, ap, ◌∙◌, subst, Bool, true, false, Option, some,
  List, [], ◌∷◌, map, Text, arith, if◌then◌else◌,
}
use virt_db.Prelude.Int.{ℤ, pos}
use virt_db.Server.Meta.{CacheConfigEntity, Row, rows, reload}
use virt_db.Server.Handler.{Env, find_entity}
use virt_db.Server.Handler.Configured.{
  HasTemplate, MatchesTemplate, IsFirst-HasTemplate, reload-find_entity,
}
use virt_db.Admin.Error.{Result, ok, err, SysError, success_of, Result-cases}
use virt_db.Admin.CacheConfig.{Model, same_number, same_number_refl}
use virt_db.Admin.Token.{CurrentUser, Header}
use virt_db.Admin.CacheConfig.Change.{
  ActiveModel, set, CacheConfigCreateParam, to_active_model, ConfigsLaws, apply, apply_at, create,
  enabled_rows, option_to_active_value, set_or,
}
use virt_db.Admin.Service.{
  Backend, Moment, HttpRequest, AppState, answered, create_call, dispatch, handle, current_user,
}

-- A row of the table with this id.
abbrev pub HasId : ℤ → List Model → Type 0
HasId i [] = ⊥
HasId i (row ∷ table) = (row.id ≡ i) ⊎ HasId i table

HasTemplate-if :
    (b : Bool) (t : Text) (r : Row) (rest : List Row)
    → HasTemplate t rest
    → HasTemplate t (if b then r ∷ rest else rest)
HasTemplate-if true t r rest h = inr h
HasTemplate-if false t r rest h = h

-- A row that is enabled with this template is selected.
selected :
    (t : Text) (row : Model) (table : List Model)
    → row.enabled ≡ pos 1
    → row.sql_template ≡ t
    → HasTemplate t (enabled_rows (row ∷ table))
unfolding enabled_rows
selected t row table e h =
    subst
      (λ b. HasTemplate t (
        if b
        then (row.id, row.sql_template, row.duration) ∷ enabled_rows table
        else enabled_rows table))
      (sym (ap (λ x. same_number x (pos 1)) e ∙ same_number_refl (pos 1))) (inl h)

selected-later :
    (t : Text) (row : Model) (table : List Model)
    → HasTemplate t (enabled_rows table)
    → HasTemplate t (enabled_rows (row ∷ table))
unfolding enabled_rows
selected-later t row table h =
    HasTemplate-if (same_number row.enabled (pos 1)) t (row.id, row.sql_template, row.duration)
      (enabled_rows table) h

module _ (m : ActiveModel) (i : ℤ) (t : Text) where
  applied : (row : Model) → row.id ≡ i → apply_at m i row ≡ apply m row
  applied row h = ground (arith, ap (λ x. same_number x i) h ∙ same_number_refl i)

  apply-HasTemplate :
      (table : List Model)
      → m.enabled ≡ set (pos 1)
      → m.sql_template ≡ set t
      → HasId i table
      → HasTemplate t (enabled_rows (map (apply_at m i) table))
  apply-HasTemplate [] e h p = absurd p
  apply-HasTemplate (row ∷ table) e h (inl p) =
      subst (λ x. HasTemplate t (enabled_rows (x ∷ map (apply_at m i) table))) (sym (applied row p))
        (selected t (apply m row) (map (apply_at m i) table) (ap (λ v. set_or v row.enabled) e)
          (ap (λ v. set_or v row.sql_template) h))
  apply-HasTemplate (row ∷ table) e h (inr p) =
      selected-later t (apply_at m i row) (map (apply_at m i) table) (apply-HasTemplate table e h p)

module _ (b : Backend) where
  abbrev pub create_request : Header → Option Text → CacheConfigCreateParam → HttpRequest
  create_request header peer_addr req = record {
    authorization = header;
    peer_addr = peer_addr;
    call = create_call req;
  }

  dispatch-created :
      (m : Moment) (s : AppState b) (user : Result SysError CurrentUser) (peer_addr : Option Text)
      (req : CacheConfigCreateParam)
      → (dispatch b m s user peer_addr (create_call req)).1 ≡ answered (success_of Text [])
      → b.configs.save s.configs (to_active_model req)
        ≡ ok (dispatch b m s user peer_addr (create_call req)).0.configs
  unfolding dispatch create
  dispatch-created m s (err e) peer_addr req h = absurd cc
  dispatch-created m s (ok u) peer_addr req h =
      elim (Result-cases (b.configs.save s.configs (to_active_model req))) [
        | inl (e, x) ↦ absurd (ground (arith, h, x))
        | inr (s', x) ↦ ground (arith, x)
      ]

  dispatch-user :
      (m : Moment) (s : AppState b) (user : Result SysError CurrentUser) (peer_addr : Option Text)
      (req : CacheConfigCreateParam)
      → (dispatch b m s user peer_addr (create_call req)).1 ≡ answered (success_of Text [])
      → (u : CurrentUser) × (user ≡ ok u)
  unfolding dispatch
  dispatch-user m s (err e) peer_addr req h = absurd cc
  dispatch-user m s (ok u) peer_addr req h = (u, refl)

  handle-HasTemplate :
      (laws : ConfigsLaws b.configs) (m : Moment) (s : AppState b) (header : Header)
      (peer_addr : Option Text) (req : CacheConfigCreateParam) (i : ℤ) (t : Text)
      → (handle b m s (create_request header peer_addr req)).1 ≡ answered (success_of Text [])
      → req.id ≡ some i
      → req.enabled ≡ some (pos 1)
      → req.sql_template ≡ some t
      → HasId i (b.configs.rows s.configs)
      → HasTemplate t (
          enabled_rows
            (b.configs.rows (handle b m s (create_request header peer_addr req)).0.configs))
  unfolding handle to_active_model
  handle-HasTemplate laws m s header peer_addr req i t h a e q p =
      let r = create_request header peer_addr req in
      let s' = (dispatch b m s (current_user b m r) peer_addr (create_call req)).0.configs in
      let saved = dispatch-created m s (current_user b m r) peer_addr req h in
      let same =
        laws.rows-save s.configs s' (to_active_model req) i (ap option_to_active_value a) saved in
      subst (λ l. HasTemplate t (enabled_rows l)) (sym same)
        (apply-HasTemplate (to_active_model req) i t (b.configs.rows s.configs)
          (ap option_to_active_value e) (ap option_to_active_value q) p)

  handle-user :
      (m : Moment) (s : AppState b) (header : Header) (peer_addr : Option Text)
      (req : CacheConfigCreateParam)
      → (handle b m s (create_request header peer_addr req)).1 ≡ answered (success_of Text [])
      → (u : CurrentUser) × (current_user b m (create_request header peer_addr req) ≡ ok u)
  unfolding handle
  handle-user m s header peer_addr req h =
      dispatch-user m s (current_user b m (create_request header peer_addr req)) peer_addr req h

  -- Where a request to save a configuration that is in the table, enabled and with a template, is
  -- answered with success, it carried a user's token; and once the proxy has reloaded the enabled rows,
  -- it finds a configuration for each statement that the template matches.
  pub create-used :
      (laws : ConfigsLaws b.configs) (env : Env) (sql : Text) (m : Moment) (s : AppState b)
      (header : Header) (peer_addr : Option Text) (req : CacheConfigCreateParam) (i : ℤ) (t : Text)
      (current entities : List CacheConfigEntity)
      → (handle b m s (create_request header peer_addr req)).1 ≡ answered (success_of Text [])
      → req.id ≡ some i
      → req.enabled ≡ some (pos 1)
      → req.sql_template ≡ some t
      → HasId i (b.configs.rows s.configs)
      → MatchesTemplate env sql t
      → reload env.upper env.tokenize
          (rows (
            enabled_rows
              (b.configs.rows (handle b m s (create_request header peer_addr req)).0.configs)))
          current
        ≡ some entities
      → ((u : CurrentUser) × (current_user b m (create_request header peer_addr req) ≡ ok u))
        × ((entity : CacheConfigEntity) × (find_entity env entities sql ≡ some entity))
  create-used laws env sql m s header peer_addr req i t current entities h a e q p match loaded =
      let r = create_request header peer_addr req in
      let rs = enabled_rows (b.configs.rows (handle b m s r).0.configs) in
      let has = handle-HasTemplate laws m s header peer_addr req i t h a e q p in
      let (entity, first) = IsFirst-HasTemplate env sql t rs has match in
      let (loaded', r', found) = reload-find_entity env sql rs current entity in
      let same : loaded' ≡ entities = some_injective (sym r' ∙ loaded) in
      (
        handle-user m s header peer_addr req h,
        (entity, ap (λ l. find_entity env l sql) (sym same) ∙ found.1 first),
      )
