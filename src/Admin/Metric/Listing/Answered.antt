-- ===== src/Admin/Metric/Listing/Answered.antt =====
-- When a page of metrics is answered, and with what.
use virt_db.Prelude.{All, Option, none, ◌++◌, ℕ, ◌≡◌, ◌≢◌, none, some, List, [], ◌∷◌, Text, codes}
use virt_db.Admin.Error.{Result, ok, DataWrapper}
use virt_db.Admin.CacheConfig.{PageResponse, get_page_no, get_limit}
use virt_db.Admin.Metric.{QueryResult, MetricResult}
use virt_db.Admin.Metric.Results.{Answers, Filled}
use virt_db.Admin.Metric.Listing.{
  MetricQueryParam, Json, MetricReads, page_statement, sub_sql, Statement, metric_page,
}

-- All statements that were recorded, or those that hold the given text; the text is bound.
abbrev pub IsPageStatement : Option Text → Statement → Type 0
IsPageStatement none st =
    (st.sql ≡ codes "select sql_str from metric_history group by sql_str") × (st.values ≡ [])
IsPageStatement (some text) st =
    (st.sql
      ≡ codes
          "select sql_str from metric_history where sql_str like concat('%',?,'%') group by sql_str")
    × (st.values ≡ text ∷ [])

-- The columns that the query for one statement selects, each under its own name.
abbrev pub wanted : Text
wanted =
    codes "      ifnull(avg_duration, 0) AS avg_duration,\n"
    ++ codes "      ifnull(max_duration, 0) AS max_duration,\n"
    ++ codes "      ifnull(min_duration, 0) AS min_duration,\n"
    ++ codes "      ifnull(exec_count, 0) AS exec_count,\n"
    ++ codes "      ifnull(cache_hit_count, 0) AS cache_hit_count\n"

-- What each is of the rows of one minute.
abbrev pub aggregates : Text
aggregates =
    codes "          avg(avg_duration) as avg_duration,\n"
    ++ codes "          max(max_duration) as max_duration,\n"
    ++ codes "          min(min_duration) as min_duration,\n"
    ++ codes "          sum(exec_count) as exec_count,\n"
    ++ codes "          sum(cache_hit_count) as cache_hit_count,\n"

-- The rows are those of the statement in the last thirty minutes.
abbrev pub restriction : Text → Text → Text
restriction now_str sql_str =
    codes "            where\n"
    ++ codes "              sql_str = \""
    ++ sql_str
    ++ codes "\"\n"
    ++ codes "              and created_at > DATE_SUB(\""
    ++ now_str
    ++ codes "\", INTERVAL 30 MINUTE)\n"

-- A query with these columns, sums and condition.
abbrev pub IsQuery : Text → Text → Text → Type 0
IsQuery now_str sql_str q =
    (a : Text) × (m : Text) × (n : Text) × (z : Text) × (q
      ≡ a ++ wanted ++ m ++ aggregates ++ n ++ restriction now_str sql_str ++ z)

module _ (json : Json) where
  -- The row is an object that has this text as its `sql_str`.
  abbrev pub HasStatement : json.Value → Text → Type 0
  HasStatement x sql_str =
      (o : json.Object) × (v : json.Value) × (json.as_object x ≡ some o)
      × (json.get o (codes "sql_str") ≡ some v)
      × (json.as_str v ≡ some sql_str)

  -- The statements of the rows that have one, in the order of the rows.
  pub data Selects : List json.Value → List Text → Type 0 where
    no_row : Selects [] []
    left_out :
        (x : json.Value) (list : List json.Value) (sqls : List Text)
        → ((sql_str : Text) → HasStatement x sql_str → ⊥)
        → Selects list sqls
        → Selects (x ∷ list) sqls
    selected :
        (x : json.Value) (list : List json.Value) (sql_str : Text) (sqls : List Text)
        → HasStatement x sql_str
        → Selects list sqls
        → Selects (x ∷ list) (sql_str ∷ sqls)

module _ (json : Json) {State Decimal : Type 0} (reads : MetricReads json State Decimal)
    (now_str : Text) (s : State) where
  abbrev pub query : Text → Result Text (List (QueryResult Decimal))
  query sql_str = reads.query_all s (sub_sql now_str sql_str)

  -- What `w` answers: the number of all statements that are asked for, and of those on the page one
  -- result each, in order.
  pub record IsListing (p : MetricQueryParam)
      (w : DataWrapper (PageResponse (MetricResult Decimal))) : Type 0 where
    pub total : ℕ
    pub list : List json.Value
    pub sqls : List Text
    pub results : List (MetricResult Decimal)
    pub limit : get_limit p.page_param ≢ 0
    pub statement : IsPageStatement p.sql (page_statement p.sql)
    pub queries : All (λ sql_str. IsQuery now_str sql_str (sub_sql now_str sql_str)) sqls
    pub num_items : reads.num_items s (page_statement p.sql) ≡ ok total
    pub fetch_page :
        reads.fetch_page s
          (page_statement p.sql)
          (get_limit p.page_param)
          (get_page_no p.page_param)
        ≡ ok list
    pub selects : Selects json list sqls
    pub filled : Filled query sqls results
    pub aligned : Answers query sqls results
    pub same : w ≡ metric_page json reads total results
