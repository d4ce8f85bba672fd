-- ===== src/Admin/Metric/Results.antt =====
-- The loop of `list_sql` over the statements of a page: which results it gives.
use virt_db.Prelude.{
  ap, ◌≡◌, ◌↔◌, refl, sym, ◌∙◌, List, [], ◌∷◌, ◌++◌, append_assoc, Text, length, All, subst,
  append-nil, arith, inl, inr,
}
use virt_db.Admin.Error.{Result, ok, err, SysError, system, Result-cases}
use virt_db.Admin.Metric.{QueryResult, MetricResult, fill, fill_all}
use virt_db.Admin.Metric.Columns.{
  IsAligned, AllDecode, IsFilled, fill-IsAligned, fill-IsFilled, IsFilled-fill,
}

module _ {Decimal : Type 0} where
  abbrev filled : List (MetricResult Decimal) → Result SysError (List (MetricResult Decimal))
  filled out = ok out

  abbrev filled_err : SysError → Result SysError (List (MetricResult Decimal))
  filled_err e = err e

  ok_injective : {s t : List (MetricResult Decimal)} → filled s ≡ filled t → s ≡ t
  ok_injective h = cc

  failed : {e : SysError} {t : List (MetricResult Decimal)} → filled_err e ≡ filled t → ⊥
  failed h = cc

  module _ (query_all : Text → Result Text (List (QueryResult Decimal))) where
    -- One result for each statement, in order, from the rows of its query; all six lists of it have a
    -- value for each row exactly when each column decodes in each row.
    abbrev pub Answers : List Text → List (MetricResult Decimal) → Type 0
    Answers [] [] = Unit
    Answers (sql_str ∷ rest) (r ∷ results) =
        ((rows : List (QueryResult Decimal)) × (query_all sql_str ≡ ok rows)
          × (r.sql_str ≡ sql_str)
          × (IsAligned r (length rows) ↔ AllDecode rows))
        × Answers rest results
    Answers _ _ = ⊥

    fill_all-next :
        (done : List (MetricResult Decimal)) (sql_str : Text) (rest : List Text)
        (rows : List (QueryResult Decimal))
        → query_all sql_str ≡ ok rows
        → fill_all query_all done (sql_str ∷ rest)
          ≡ fill_all query_all (done ++ (fill sql_str rows ∷ [])) rest
    unfolding fill_all
    fill_all-next done sql_str rest rows h = ground (arith, h)

    fill_all-failed :
        (done : List (MetricResult Decimal)) (sql_str : Text) (rest : List Text) (e : Text)
        → query_all sql_str ≡ err e
        → fill_all query_all done (sql_str ∷ rest) ≡ err (system e)
    unfolding fill_all
    fill_all-failed done sql_str rest e h = ground (arith, h)

    fill-sql_str :
        (sql_str : Text) (rows : List (QueryResult Decimal)) → (fill sql_str rows).sql_str ≡ sql_str
    unfolding fill
    fill-sql_str sql_str rows = refl

    -- One result for each statement, in order, filled from the rows of its query.
    abbrev pub Filled : List Text → List (MetricResult Decimal) → Type 0
    Filled [] [] = Unit
    Filled (sql_str ∷ rest) (r ∷ results) =
        ((rows : List (QueryResult Decimal)) × (query_all sql_str ≡ ok rows)
          × IsFilled sql_str rows r)
        × Filled rest results
    Filled _ _ = ⊥

    fill_all-from :
        (done : List (MetricResult Decimal)) (sqls : List Text) (out : List (MetricResult Decimal))
        → fill_all query_all done sqls ≡ ok out
        → (results : List (MetricResult Decimal)) × (out ≡ done ++ results) × Filled sqls results
    fill_all-from done [] out h =
        unfold fill_all in ([], ok_injective (sym h) ∙ sym (append-nil done), tt)
    fill_all-from done (sql_str ∷ rest) out h = elim (Result-cases (query_all sql_str)) [
      | inl (e, q) ↦ absurd (failed (sym (fill_all-failed done sql_str rest e q) ∙ h))
      | inr (rows, q) ↦
          let r = fill sql_str rows in
          let (results, shape, filled) =
            fill_all-from (done ++ (r ∷ [])) rest out
              (sym (fill_all-next done sql_str rest rows q) ∙ h) in
          (
            r ∷ results,
            shape ∙ append_assoc done (r ∷ []) results,
            ((rows, q, fill-IsFilled sql_str rows), filled),
          )
    ]

    pub fill_all-Filled :
        (sqls : List Text) (out : List (MetricResult Decimal))
        → fill_all query_all [] sqls ≡ ok out
        → Filled sqls out
    fill_all-Filled sqls out h =
        let (results, shape, filled) = fill_all-from [] sqls out h in
        subst (Filled sqls) (sym shape) filled

    pub Filled-fill_all :
        (done : List (MetricResult Decimal)) (sqls : List Text) (out : List (MetricResult Decimal))
        → Filled sqls out
        → fill_all query_all done sqls ≡ ok (done ++ out)
    Filled-fill_all done [] [] h = unfold fill_all in ap ok (sym (append-nil done))
    Filled-fill_all done [] (r ∷ out) h = absurd h
    Filled-fill_all done (sql_str ∷ rest) [] h = absurd h
    Filled-fill_all done (sql_str ∷ rest) (r ∷ out) ((rows, q, e), h) =
        fill_all-next done sql_str rest rows q
        ∙ ap (λ x. fill_all query_all (done ++ (x ∷ [])) rest)
            (sym (IsFilled-fill sql_str rows r e))
        ∙ Filled-fill_all (done ++ (r ∷ [])) rest out h
        ∙ ap ok (append_assoc done (r ∷ []) out)

    aligned :
        (sql_str : Text) (r : MetricResult Decimal) (rows : List (QueryResult Decimal))
        → r ≡ fill sql_str rows
        → (r.sql_str ≡ sql_str) × (IsAligned r (length rows) ↔ AllDecode rows)
    aligned sql_str r rows e =
        subst (λ x. (x.sql_str ≡ sql_str) × (IsAligned x (length rows) ↔ AllDecode rows)) (sym e)
          (fill-sql_str sql_str rows, fill-IsAligned sql_str rows)

    pub Filled-Answers :
        (sqls : List Text) (out : List (MetricResult Decimal)) → Filled sqls out → Answers sqls out
    Filled-Answers [] [] h = tt
    Filled-Answers [] (r ∷ out) h = absurd h
    Filled-Answers (sql_str ∷ rest) [] h = absurd h
    Filled-Answers (sql_str ∷ rest) (r ∷ out) ((rows, q, e), h) =
        let (named, lists) = aligned sql_str r rows (IsFilled-fill sql_str rows r e) in
        ((rows, q, named, lists), Filled-Answers rest out h)

    abbrev Succeeds : Text → Type 0
    Succeeds sql_str = (rows : List (QueryResult Decimal)) × (query_all sql_str ≡ ok rows)

    fill_all-ok :
        (done : List (MetricResult Decimal)) (sqls : List Text)
        → All Succeeds sqls
        → (out : List (MetricResult Decimal)) × (fill_all query_all done sqls ≡ ok out)
    fill_all-ok done [] h = unfold fill_all in (done, refl)
    fill_all-ok done (sql_str ∷ rest) ((rows, q), h) =
        let (out, e) = fill_all-ok (done ++ (fill sql_str rows ∷ [])) rest h in
        (out, fill_all-next done sql_str rest rows q ∙ e)

    Succeeds-of_Answers :
        (sqls : List Text) (out : List (MetricResult Decimal))
        → Answers sqls out
        → All Succeeds sqls
    Succeeds-of_Answers [] [] h = tt
    Succeeds-of_Answers [] (r ∷ out) h = absurd h
    Succeeds-of_Answers (sql_str ∷ rest) [] h = absurd h
    Succeeds-of_Answers (sql_str ∷ rest) (r ∷ out) h =
        ((h.0.0, h.0.1), Succeeds-of_Answers rest out h.1)

    -- The metrics of a page are answered exactly when the query of each of its statements succeeds; and
    -- then there is one result for each statement, in order, of which all six lists have a value for
    -- each row of its query exactly when each column decodes in each row.
    fill_all-Answers :
        (sqls : List Text)
        → ((out : List (MetricResult Decimal)) × (fill_all query_all [] sqls ≡ ok out)
            × Answers sqls out)
          ↔ All Succeeds sqls
    fill_all-Answers sqls = (
      (λ (out, e, answers). Succeeds-of_Answers sqls out answers),
      λ h.
          let (out, e) = fill_all-ok [] sqls h in
          (out, e, Filled-Answers sqls out (fill_all-Filled sqls out e)),
    )
