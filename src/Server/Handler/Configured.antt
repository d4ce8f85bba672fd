-- ===== src/Server/Handler/Configured.antt =====
-- The configurations that a reload leaves, as requests see them.
use virt_db.Prelude.{
  ◌≡◌, ◌⊎◌, ◌↔◌, subst, refl, sym, ap, ◌∙◌, Bool, true, false, some, List, [], ◌∷◌, ◌++◌, map,
  append_assoc, append-nil, Text, All, Bool-cases, inl, inr,
}
use virt_db.Text.{to_uppercase, trim}
use virt_db.Sql.Tokens.{is_pattern_match}
use virt_db.Sql.Tokens.Matching.{AllAgree, statement_tokens, is_pattern_match_iff}
use virt_db.Server.Meta.{
  CacheConfigEntity, Row, push_all, set_cache_config_entity_list, rows, entity_of_row, reload,
}
use virt_db.Server.Handler.{Env, find_entity}

pub push_all-append :
    (entities rest : List CacheConfigEntity) → push_all entities rest ≡ entities ++ rest
unfolding push_all
push_all-append entities [] = sym (append-nil entities)
push_all-append entities (e ∷ rest) =
    push_all-append (entities ++ (e ∷ [])) rest ∙ append_assoc entities (e ∷ []) rest

-- One of the rows has this template.
abbrev pub HasTemplate : Text → List Row → Type 0
HasTemplate t [] = ⊥
HasTemplate t (r ∷ rs) = (r.1 ≡ t) ⊎ HasTemplate t rs

module _ (env : Env) (sql : Text) where
  abbrev significant : Text → Text
  significant s = trim (to_uppercase env.upper s)

  -- The tokens of a row's template and of the statement agree, in capital letters.
  abbrev pub Matches : Row → Type 0
  Matches (id, sql_template, duration) =
      AllAgree (statement_tokens env.tokenize (significant sql_template))
        (statement_tokens env.tokenize (significant sql))

  -- The first row that matches, and its entity.
  abbrev pub IsFirst : List Row → CacheConfigEntity → Type 0
  IsFirst rs entity =
      (before : List Row) × (row : Row) × (after : List Row) × (rs ≡ before ++ row ∷ after)
      × All (λ r. ¬ Matches r) before
      × Matches row
      × (entity ≡ entity_of_row env.upper env.tokenize row)

  abbrev match_row : Row → Bool
  match_row r =
      is_pattern_match env.tokenize (entity_of_row env.upper env.tokenize r).cached_sql_parser_token
        (significant sql)

  match_row_iff : (r : Row) → (match_row r ≡ true) ↔ Matches r
  unfolding entity_of_row
  match_row_iff (id, sql_template, duration) =
      is_pattern_match_iff env.tokenize (statement_tokens env.tokenize (significant sql_template))
        (significant sql)

  no_match_iff : (r : Row) → (match_row r ≡ false) ↔ (¬ Matches r)
  no_match_iff r = (
    (λ n m. let t = (match_row_iff r).1 m in cc),
    λ no. elim (Bool-cases (match_row r)) [
      | inl t ↦ absurd (no ((match_row_iff r).0 t))
      | inr n ↦ n
    ],
  )

  abbrev entities_of : List Row → List CacheConfigEntity
  entities_of rs = map (entity_of_row env.upper env.tokenize) rs

  find_entity-skip :
      (r : Row) (rs : List Row)
      → match_row r ≡ false
      → find_entity env (entities_of (r ∷ rs)) sql ≡ find_entity env (entities_of rs) sql
  unfolding find_entity
  find_entity-skip r rs h = rw h refl

  find_entity-take :
      (r : Row) (rs : List Row)
      → match_row r ≡ true
      → find_entity env (entities_of (r ∷ rs)) sql ≡ some (entity_of_row env.upper env.tokenize r)
  unfolding find_entity
  find_entity-take r rs h = rw h refl

  IsFirst-of_find_entity :
      (rs : List Row) (entity : CacheConfigEntity)
      → find_entity env (entities_of rs) sql ≡ some entity
      → IsFirst rs entity
  IsFirst-of_find_entity [] entity h = absurd (unfold find_entity in cc)
  IsFirst-of_find_entity (r ∷ rs) entity h = elim (Bool-cases (match_row r)) [
    | inl m ↦
        let e : some entity ≡ some (entity_of_row env.upper env.tokenize r) =
          sym h ∙ find_entity-take r rs m in
        ([], r, rs, refl, tt, (match_row_iff r).0 m, cc)
    | inr n ↦
        let (before, row, after, shape, none_before, m, e) =
          IsFirst-of_find_entity rs entity (sym (find_entity-skip r rs n) ∙ h) in
        (r ∷ before, row, after, ap (λ l. r ∷ l) shape, ((no_match_iff r).0 n, none_before), m, e)
  ]

  find_entity-IsFirst :
      (rs : List Row) (entity : CacheConfigEntity)
      → IsFirst rs entity
      → find_entity env (entities_of rs) sql ≡ some entity
  find_entity-IsFirst rs entity ([], row, after, shape, none_before, m, e) =
      ap (λ l. find_entity env (entities_of l) sql) shape
      ∙ find_entity-take row after ((match_row_iff row).1 m)
      ∙ ap (λ x. some x) (sym e)
  find_entity-IsFirst rs entity (r ∷ before, row, after, shape, none_before, m, e) =
      let n = (no_match_iff r).1 none_before.0 in
      ap (λ l. find_entity env (entities_of l) sql) shape
      ∙ find_entity-skip r (before ++ row ∷ after) n
      ∙ find_entity-IsFirst (before ++ row ∷ after) entity
          (before, row, after, refl, none_before.1, m, e)

  -- After a reload that got rows, the entity that is found for a statement is that of the first row
  -- whose template has the tokens of the statement, in capital letters and up to placeholders; nothing
  -- of the configurations before is left.
  pub reload-find_entity :
      (rs : List Row) (current : List CacheConfigEntity) (entity : CacheConfigEntity)
      → (entities : List CacheConfigEntity) × (reload env.upper env.tokenize (rows rs) current
          ≡ some entities)
        × ((find_entity env entities sql ≡ some entity) ↔ IsFirst rs entity)
  unfolding reload set_cache_config_entity_list
  reload-find_entity rs current entity = (
    entities_of rs,
    ap (λ l. some l) (push_all-append [] (entities_of rs)),
    (IsFirst-of_find_entity rs entity, find_entity-IsFirst rs entity),
  )

  -- A template has the tokens of the statement, in capital letters and up to placeholders.
  abbrev pub MatchesTemplate : Text → Type 0
  MatchesTemplate t =
      AllAgree (statement_tokens env.tokenize (significant t))
        (statement_tokens env.tokenize (significant sql))

  found-HasTemplate :
      (t : Text) (rs : List Row)
      → HasTemplate t rs
      → MatchesTemplate t
      → (entity : CacheConfigEntity) × (find_entity env (entities_of rs) sql ≡ some entity)
  found-HasTemplate t [] h m = absurd h
  found-HasTemplate t (r ∷ rs) h m = elim (Bool-cases (match_row r)) [
    | inl y ↦ (entity_of_row env.upper env.tokenize r, find_entity-take r rs y)
    | inr n ↦ elim h [
      | inl e ↦ absurd ((no_match_iff r).0 n (subst MatchesTemplate (sym e) m))
      | inr later ↦
          let (entity, f) = found-HasTemplate t rs later m in (entity, find_entity-skip r rs n ∙ f)
    ]
  ]

  pub IsFirst-HasTemplate :
      (t : Text) (rs : List Row)
      → HasTemplate t rs
      → MatchesTemplate t
      → (entity : CacheConfigEntity) × IsFirst rs entity
  IsFirst-HasTemplate t rs h m =
      let (entity, f) = found-HasTemplate t rs h m in (entity, IsFirst-of_find_entity rs entity f)
