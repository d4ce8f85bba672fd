-- ===== src/Admin/Metric/Listing.antt =====
-- `list_sql` of admin/src/controller/metric_history_controller.rs, with `MetricQueryParam` of
-- admin/src/model/metric.rs: the statements of a page and the query for each. serde_json, sea-orm and
-- the database are parameters; the local time is an argument.
pub mod Answered
use virt_db.Prelude.{
  ℕ, ◌≡◌, Option, none, some, List, [], ◌∷◌, ◌++◌, Text, codes, ◌==◌, if◌then◌else◌,
}
use virt_db.Prelude.Int.{as_i64}
use virt_db.Admin.Error.{Result, ok, err, SysError, system, DataWrapper, success_of}
use virt_db.Admin.CacheConfig.{PageParam, PageResponse, get_page_no, get_limit}
use virt_db.Admin.Metric.{QueryResult, MetricResult, fill_all}

pub record MetricQueryParam : Type 0 where
  pub page_param : PageParam
  pub sql : Option Text

-- A text of SQL and the values that are bound to its question marks.
pub record Statement : Type 0 where
  pub sql : Text
  pub values : List Text

-- What the handler calls of serde_json.
pub record Json : Type 1 where
  pub Value : Type 0
  pub Object : Type 0
  pub as_object : Value → Option Object
  pub get : Object → Text → Option Value
  pub as_str : Value → Option Text

-- The reads of the database: the number of rows of a statement; a page of them, by its size and its
-- number from zero; and the rows of a query without values.
pub record MetricReads (json : Json) (State Decimal : Type 0) : Type 0 where
  pub num_items : State → Statement → Result Text ℕ
  pub fetch_page : State → Statement → ℕ → ℕ → Result Text (List json.Value)
  pub query_all : State → Text → Result Text (List (QueryResult Decimal))

unfoldable pub page_statement : Option Text → Statement
page_statement none = record {
  sql = codes "select sql_str from metric_history group by sql_str";
  values = [];
}
page_statement (some sql_condition) = record {
  sql =
      codes
        "select sql_str from metric_history where sql_str like concat('%',?,'%') group by sql_str";
  values = sql_condition ∷ [];
}

-- The query for the last thirty minutes of one statement, in parts: up to the columns, which are the
-- next part, and up to the sums.
abbrev pub heading : Text
heading =
    codes "\n"
    ++ codes "    SELECT\n"
    ++ codes "      DATE_FORMAT(str_to_date(date,\"%Y-%m-%d %H:%i:00\"),\"%H:%i:00\") as date,\n"

abbrev pub columns : Text
columns =
    codes "      ifnull(avg_duration, 0) AS avg_duration,\n"
    ++ codes "      ifnull(max_duration, 0) AS max_duration,\n"
    ++ codes "      ifnull(min_duration, 0) AS min_duration,\n"
    ++ codes "      ifnull(exec_count, 0) AS exec_count,\n"
    ++ codes "      ifnull(cache_hit_count, 0) AS cache_hit_count\n"

abbrev pub minutes : Text → Text
minutes now_str =
    codes "    FROM\n"
    ++ codes "      (\n"
    ++ codes "        SELECT\n"
    ++ codes "          date_format(\n"
    ++ codes "            DATE_SUB(\""
    ++ now_str
    ++ codes "\", INTERVAL t.help_topic_id MINUTE),\n"
    ++ codes "            \"%Y-%m-%d %H:%i:00\"\n"
    ++ codes "          ) AS 'date'\n"
    ++ codes "        FROM\n"
    ++ codes "          mysql.help_topic t\n"
    ++ codes "        WHERE\n"
    ++ codes "          t.help_topic_id < timestampdiff(\n"
    ++ codes "            minute,\n"
    ++ codes "            DATE_SUB(\""
    ++ now_str
    ++ codes "\", INTERVAL 30 MINUTE),\n"
    ++ codes "            \""
    ++ now_str
    ++ codes "\"\n"
    ++ codes "          )\n"
    ++ codes "      ) t1\n"
    ++ codes "      LEFT JOIN (\n"
    ++ codes "        select\n"

abbrev pub sums : Text
sums =
    codes "          avg(avg_duration) as avg_duration,\n"
    ++ codes "          max(max_duration) as max_duration,\n"
    ++ codes "          min(min_duration) as min_duration,\n"
    ++ codes "          sum(exec_count) as exec_count,\n"
    ++ codes "          sum(cache_hit_count) as cache_hit_count,\n"

-- The rows that the sums are of, and their condition.
abbrev pub from_rows : Text
from_rows =
    codes "          created_at\n"
    ++ codes "        from\n"
    ++ codes "          (\n"
    ++ codes "            select\n"
    ++ codes "              id,\n"
    ++ codes "              sql_str,\n"
    ++ codes "              avg_duration,\n"
    ++ codes "              max_duration,\n"
    ++ codes "              min_duration,\n"
    ++ codes "              exec_count,\n"
    ++ codes "              cache_hit_count,\n"
    ++ codes "              DATE_FORMAT(created_at, \"%Y-%m-%d %H:%i:00\") as created_at\n"
    ++ codes "            from\n"
    ++ codes "              metric_history\n"

abbrev pub condition : Text → Text → Text
condition now_str sql_str =
    codes "            where\n"
    ++ codes "              sql_str = \""
    ++ sql_str
    ++ codes "\"\n"
    ++ codes "              and created_at > DATE_SUB(\""
    ++ now_str
    ++ codes "\", INTERVAL 30 MINUTE)\n"

abbrev pub ending : Text
ending =
    codes "          ) as t\n"
    ++ codes "        group by\n"
    ++ codes "          created_at\n"
    ++ codes "      ) t2 ON t1.date = t2.created_at\n"
    ++ codes "\t\t\torder by date asc\n"
    ++ codes "        "

unfoldable pub sub_sql : Text → Text → Text
sub_sql now_str sql_str =
    heading
    ++ columns
    ++ minutes now_str
    ++ sums
    ++ from_rows
    ++ condition now_str sql_str
    ++ ending

module _ (json : Json) where
  abbrev pub str_of : Option json.Value → Option Text
  str_of none = none
  str_of (some v) = json.as_str v

  abbrev pub sql_str_of : Option json.Object → Option Text
  sql_str_of none = none
  sql_str_of (some o) = str_of (json.get o (codes "sql_str"))

  -- The chain of filters: a row that is no object, or has no text as its `sql_str`, is left out.
  unfoldable pub statements : List json.Value → List Text
  statements [] = []
  statements (x ∷ list) = elim (sql_str_of (json.as_object x)) [
    | none ↦ statements list
    | some sql_str ↦ sql_str ∷ statements list
  ]

module _ (json : Json) {State Decimal : Type 0} (reads : MetricReads json State Decimal) where
  abbrev pub Answer : Type 0
  Answer = Result SysError (DataWrapper (PageResponse (MetricResult Decimal)))

  abbrev pub metric_page :
      ℕ → List (MetricResult Decimal) → DataWrapper (PageResponse (MetricResult Decimal))
  metric_page total list =
      success_of (PageResponse (MetricResult Decimal))
        (record { list = list; total = as_i64 total })

  -- The loop over the statements of the page, and what is answered.
  unfoldable pub list_results : Text → State → ℕ → List json.Value → Answer
  unfolding statements fill_all sub_sql
  list_results now_str s total list =
      elim (fill_all (λ sql_str. reads.query_all s (sub_sql now_str sql_str)) []
        (statements json list)) [
          | err e ↦ err e
          | ok final_metric_result_vec ↦ ok (metric_page total final_metric_result_vec)
        ]

  -- `none` is the panic of the paginator at pages of size zero. The database is taken to stay as it is
  -- during the request.
  unfoldable pub list_sql : Text → State → MetricQueryParam → Option Answer
  unfolding list_results page_statement get_limit get_page_no
  list_sql now_str s metric_param =
      let statement = page_statement metric_param.sql in
      let limit = get_limit metric_param.page_param in
      if limit == 0
      then none
      else some (elim (reads.num_items s statement) [
        | err e ↦ err (system e)
        | ok total ↦
            elim (reads.fetch_page s statement limit (get_page_no metric_param.page_param)) [
              | err e ↦ err (system e)
              | ok list ↦ list_results now_str s total list
            ]
      ])
