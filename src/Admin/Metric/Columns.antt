-- ===== src/Admin/Metric/Columns.antt =====
-- When the columns of a result belong together.
use virt_db.Prelude.{
  ap, ℕ, ◌≤◌, ◌≡◌, ◌↔◌, refl, sym, ◌∙◌, Option, none, some, Option-cases, List, [], ◌∷◌, Text,
  length, All, subst, arith, inl, inr,
}
use virt_db.Admin.Metric.{QueryResult, MetricResult, column, fill}

module _ {Decimal A : Type 0} (try_get : QueryResult Decimal → Option A) where
  abbrev pub Decodes : QueryResult Decimal → Type 0
  Decodes row = (v : A) × (try_get row ≡ some v)

  length-column_le :
      (rows : List (QueryResult Decimal)) → length (column try_get rows) ≤ length rows
  unfolding column
  length-column_le [] = omega arith
  length-column_le (row ∷ rows) = ground (arith, length-column_le rows, Option-cases (try_get row))

  -- A column has a value for each row exactly when it decodes in each row.
  length-column :
      (rows : List (QueryResult Decimal))
      → (length (column try_get rows) ≡ length rows) ↔ All Decodes rows
  unfolding column
  length-column [] = (λ h. tt, λ h. refl)
  length-column (row ∷ rows) = elim (Option-cases (try_get row)) [
    | inl n ↦
        ((λ h. absurd (ground (arith, n, length-column_le rows))), λ h. absurd (ground (arith, n)))
    | inr (v, s) ↦ (
      (λ h. ((v, s), (length-column rows).0 (ground (arith, s)))),
      λ h. ground (arith, s, (length-column rows).1 h.1),
    )
  ]

-- The values of one column in the rows in which it decodes, in order.
pub data IsColumn {Decimal A : Type 0} (try_get : QueryResult Decimal → Option A)
    : List (QueryResult Decimal) → List A → Type 0 where
  no_row : IsColumn try_get [] []
  undecoded :
      (row : QueryResult Decimal) (rows : List (QueryResult Decimal)) (vs : List A)
      → try_get row ≡ none
      → IsColumn try_get rows vs
      → IsColumn try_get (row ∷ rows) vs
  decoded :
      (row : QueryResult Decimal) (rows : List (QueryResult Decimal)) (v : A) (vs : List A)
      → try_get row ≡ some v
      → IsColumn try_get rows vs
      → IsColumn try_get (row ∷ rows) (v ∷ vs)

module _ {Decimal A : Type 0} (try_get : QueryResult Decimal → Option A) where
  column-none :
      (row : QueryResult Decimal) (rows : List (QueryResult Decimal))
      → try_get row ≡ none
      → column try_get (row ∷ rows) ≡ column try_get rows
  unfolding column
  column-none row rows n = ground (arith, n)

  column-some :
      (row : QueryResult Decimal) (rows : List (QueryResult Decimal)) (v : A)
      → try_get row ≡ some v
      → column try_get (row ∷ rows) ≡ v ∷ column try_get rows
  unfolding column
  column-some row rows v s = ground (arith, s)

  column-IsColumn :
      (rows : List (QueryResult Decimal)) → IsColumn try_get rows (column try_get rows)
  column-IsColumn [] = unfold column in no_row
  column-IsColumn (row ∷ rows) = elim (Option-cases (try_get row)) [
    | inl n ↦
        subst (IsColumn try_get (row ∷ rows)) (sym (column-none row rows n))
          (undecoded row rows (column try_get rows) n (column-IsColumn rows))
    | inr (v, s) ↦
        subst (IsColumn try_get (row ∷ rows)) (sym (column-some row rows v s))
          (decoded row rows v (column try_get rows) s (column-IsColumn rows))
  ]

  IsColumn-column :
      (rows : List (QueryResult Decimal)) (vs : List A)
      → IsColumn try_get rows vs
      → vs ≡ column try_get rows
  IsColumn-column [] [] no_row = unfold column in refl
  IsColumn-column [] (v ∷ vs) h = elim h [ ]
  IsColumn-column (row ∷ rows) vs (undecoded _ _ _ n h) =
      IsColumn-column rows vs h ∙ sym (column-none row rows n)
  IsColumn-column (row ∷ rows) (v ∷ vs) (decoded _ _ _ _ s h) =
      ap (λ l. v ∷ l) (IsColumn-column rows vs h) ∙ sym (column-some row rows v s)

module _ {Decimal : Type 0} where
  -- All six columns of a result have a value for each of `n` rows.
  pub record IsAligned (r : MetricResult Decimal) (n : ℕ) : Type 0 where
    pub dates : length r.dates ≡ n
    pub avg_durations : length r.avg_durations ≡ n
    pub min_durations : length r.min_durations ≡ n
    pub max_durations : length r.max_durations ≡ n
    pub exec_counts : length r.exec_counts ≡ n
    pub cache_hit_counts : length r.cache_hit_counts ≡ n

  -- Each column decodes in each row.
  pub record AllDecode (rows : List (QueryResult Decimal)) : Type 0 where
    pub dates : All (Decodes (λ x. x.date)) rows
    pub avg_durations : All (Decodes (λ x. x.avg_duration)) rows
    pub min_durations : All (Decodes (λ x. x.min_duration)) rows
    pub max_durations : All (Decodes (λ x. x.max_duration)) rows
    pub exec_counts : All (Decodes (λ x. x.exec_count)) rows
    pub cache_hit_counts : All (Decodes (λ x. x.cache_hit_count)) rows

  pub fill-IsAligned :
      (sql_str : Text) (rows : List (QueryResult Decimal))
      → IsAligned (fill sql_str rows) (length rows) ↔ AllDecode rows
  unfolding fill
  fill-IsAligned sql_str rows = (
    (λ h. record {
      dates = (length-column (λ x. x.date) rows).0 h.dates;
      avg_durations = (length-column (λ x. x.avg_duration) rows).0 h.avg_durations;
      min_durations = (length-column (λ x. x.min_duration) rows).0 h.min_durations;
      max_durations = (length-column (λ x. x.max_duration) rows).0 h.max_durations;
      exec_counts = (length-column (λ x. x.exec_count) rows).0 h.exec_counts;
      cache_hit_counts = (length-column (λ x. x.cache_hit_count) rows).0 h.cache_hit_counts;
    }),
    λ h. record {
      dates = (length-column (λ x. x.date) rows).1 h.dates;
      avg_durations = (length-column (λ x. x.avg_duration) rows).1 h.avg_durations;
      min_durations = (length-column (λ x. x.min_duration) rows).1 h.min_durations;
      max_durations = (length-column (λ x. x.max_duration) rows).1 h.max_durations;
      exec_counts = (length-column (λ x. x.exec_count) rows).1 h.exec_counts;
      cache_hit_counts = (length-column (λ x. x.cache_hit_count) rows).1 h.cache_hit_counts;
    },
  )

  -- Each list of a result is the column of its name in the rows of the query.
  pub record IsFilled (sql_str : Text) (rows : List (QueryResult Decimal))
      (r : MetricResult Decimal) : Type 0 where
    pub named : r.sql_str ≡ sql_str
    pub dates : IsColumn (λ x. x.date) rows r.dates
    pub avg_durations : IsColumn (λ x. x.avg_duration) rows r.avg_durations
    pub min_durations : IsColumn (λ x. x.min_duration) rows r.min_durations
    pub max_durations : IsColumn (λ x. x.max_duration) rows r.max_durations
    pub exec_counts : IsColumn (λ x. x.exec_count) rows r.exec_counts
    pub cache_hit_counts : IsColumn (λ x. x.cache_hit_count) rows r.cache_hit_counts

  pub fill-IsFilled :
      (sql_str : Text) (rows : List (QueryResult Decimal))
      → IsFilled sql_str rows (fill sql_str rows)
  unfolding fill
  fill-IsFilled sql_str rows = record {
    named = refl;
    dates = column-IsColumn (λ x. x.date) rows;
    avg_durations = column-IsColumn (λ x. x.avg_duration) rows;
    min_durations = column-IsColumn (λ x. x.min_duration) rows;
    max_durations = column-IsColumn (λ x. x.max_duration) rows;
    exec_counts = column-IsColumn (λ x. x.exec_count) rows;
    cache_hit_counts = column-IsColumn (λ x. x.cache_hit_count) rows;
  }

  pub IsFilled-fill :
      (sql_str : Text) (rows : List (QueryResult Decimal)) (r : MetricResult Decimal)
      → IsFilled sql_str rows r
      → r ≡ fill sql_str rows
  unfolding fill
  IsFilled-fill sql_str rows r h =
      let n = h.named in
      let a = IsColumn-column (λ x. x.date) rows r.dates h.dates in
      let b = IsColumn-column (λ x. x.avg_duration) rows r.avg_durations h.avg_durations in
      let c = IsColumn-column (λ x. x.min_duration) rows r.min_durations h.min_durations in
      let d = IsColumn-column (λ x. x.max_duration) rows r.max_durations h.max_durations in
      let e = IsColumn-column (λ x. x.exec_count) rows r.exec_counts h.exec_counts in
      let f = IsColumn-column (λ x. x.cache_hit_count) rows r.cache_hit_counts h.cache_hit_counts in
      λ i. record {
        sql_str = n i;
        dates = a i;
        avg_durations = b i;
        min_durations = c i;
        max_durations = d i;
        exec_counts = e i;
        cache_hit_counts = f i;
      }
