-- ===== src/Sql/Statement.antt =====
-- server/src/utils/sys_sql.rs: `sql_to_pattern` and `replace_expr`. The syntax trees are those of
-- the crate sqlparser, as far as the code looks into them; its parser and its printer are
-- parameters.
pub mod Shape
use virt_db.Prelude.{
  ℕ, Bool, true, false, Option, none, some, List, [], ◌∷◌, Text, codes, length, ltb, if◌then◌else◌,
}
use mathlib.Core.Option

pub data BinaryOperator : Type 0 where
  and : BinaryOperator
  other_op : Text → BinaryOperator

pub data Value : Type 0 where
  placeholder : Text → Value
  literal : Text → Value

-- `other` is an expression of a form that the code does not look into, by its text.
pub data Expr : Type 0 where
  binary_op : BinaryOperator → Expr → Expr → Expr
  between : Expr → Bool → Expr → Expr → Expr
  unary_op : Text → Expr → Expr
  value : Value → Expr
  other : Text → Expr

-- `rest` is all that the code leaves alone: projection, tables, grouping, ordering and so on.
pub record Select : Type 0 where
  pub selection : Option Expr
  pub rest : Text

pub data SetExpr : Type 0 where
  select : Select → SetExpr
  query : Text → SetExpr
  other_body : Text → SetExpr

pub record Query : Type 0 where
  pub body : SetExpr
  pub rest : Text

pub data Statement : Type 0 where
  query_statement : Query → Statement
  other_statement : Text → Statement

abbrev pub question_mark : Expr
question_mark = value (placeholder (codes "?"))

unfoldable pub replace_expr : Expr → Expr
replace_expr (binary_op and left right) = binary_op and (replace_expr left) (replace_expr right)
replace_expr (binary_op (other_op op) left right) =
    binary_op (other_op op) (replace_expr left) question_mark
replace_expr (between expr negated low high) =
    between (replace_expr expr) negated question_mark question_mark
replace_expr (unary_op op expr) = unary_op op (replace_expr expr)
replace_expr (value v) = value v
replace_expr (other e) = other e

-- The `match` on `q.body`.
abbrev pub replace_body : SetExpr → SetExpr
replace_body (select s) = select (record s { selection = Option.map replace_expr s.selection })
replace_body (query x) = query x
replace_body (other_body x) = other_body x

abbrev pub replace_statement : Statement → Option Statement
replace_statement (query_statement q) =
    some (query_statement (record q { body = replace_body q.body }))
replace_statement (other_statement _) = none

-- `stmts.pop()`
abbrev pub pop : List Statement → Option Statement
pop [] = none
pop (s ∷ []) = some s
pop (s ∷ t ∷ rest) = pop (t ∷ rest)

abbrev pub pattern_of : Option Statement → Option Statement
pattern_of none = none
pattern_of (some ast) = replace_statement ast

-- `parse` is `Parser::parse_sql` with the error dropped, and `print` is `to_string`.
unfoldable pub sql_to_pattern :
    (Text → Option (List Statement)) → (Statement → Text) → Text → Option Text
unfolding replace_expr
sql_to_pattern parse print sql = elim (parse sql) [
  | none ↦ none
  | some stmts ↦ if ltb (length stmts) 1 then none else Option.map print (pattern_of (pop stmts))
]
