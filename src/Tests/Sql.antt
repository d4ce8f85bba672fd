-- ===== src/Tests/Sql.antt =====
-- The theorems on SQL text at concrete statements.
use virt_db.Prelude.{
  ◌≡◌, ◌↔◌, refl, true, false, Option, none, some, List, [], ◌∷◌, ◌++◌, Text, codes, ℕ,
  if◌then◌else◌, ◌==◌,
}
use virt_db.Text.{trim, contains, starts_with, is_whitespace}
use virt_db.Sql.Comments.{remove_comments, opener, closer}
use virt_db.Sql.Comments.Spans.{remove_comments-slash_closer}
use virt_db.Sql.Comments.Many.{commented, outside, remove_comments-commented}
use virt_db.Sql.Tokens.{
  Token, word, whitespace, placeholder, trim_tokens, is_pattern_match, is_sql_pattern_match,
  normally,
}
use virt_db.Sql.Tokens.Matching.{
  AllAgree, statement_tokens, is_pattern_match_iff, is_sql_pattern_match-spaced,
}
use virt_db.Sql.Tokens.Layout.{normally-layout}
use virt_db.Sql.Statement.{
  Expr, binary_op, and, other_op, between, value, literal, other, replace_expr,
}
use virt_db.Sql.Statement.Shape.{SameShape, replace_expr_iff}

removed : remove_comments (codes " SELECT /* id */ 1 ") ≡ codes "SELECT  1"
unfolding remove_comments is_whitespace
removed = refl

-- A literal that looks like a comment is cut out too.
literal_removed : remove_comments (codes "SELECT '/*a*/'") ≡ codes "SELECT ''"
unfolding remove_comments is_whitespace
literal_removed = refl

remove_comments-commented_example :
    remove_comments (
      codes "SELECT "
      ++ commented ((codes " id ", codes "1, ") ∷ ([], codes "2 ") ∷ []) (some (codes " x")))
    ≡ trim (codes "SELECT " ++ outside ((codes " id ", codes "1, ") ∷ ([], codes "2 ") ∷ []))
unfolding contains starts_with
remove_comments-commented_example =
    remove_comments-commented (codes "SELECT ")
      ((codes " id ", codes "1, ") ∷ ([], codes "2 ") ∷ []) (some (codes " x")) refl
      (
        (record { no_closer = refl; no_opener = refl }, refl),
        ((record { no_closer = refl; no_opener = refl }, refl), tt),
      )
      refl

all_removed : remove_comments (codes "SELECT /* id */1, /**/2 /* x") ≡ codes "SELECT 1, 2"
unfolding remove_comments is_whitespace
all_removed = refl

remove_comments-slash_closer_example :
    remove_comments
      (codes "SELECT 1" ++ (opener ++ (codes " x " ++ (b'/' ∷ (closer ++ codes " FROM t")))))
    ≡ trim (codes "SELECT 1")
unfolding contains starts_with
remove_comments-slash_closer_example =
    remove_comments-slash_closer (codes "SELECT 1") (codes " x ") (codes " FROM t") refl refl refl
      refl

-- A tokenizer for the tests: each character is a token.
abbrev token_of : ℕ → Token
token_of c =
    if c == b' '
    then whitespace (c ∷ [])
    else if c == b'?'
    then placeholder (c ∷ [])
    else word (record { value = c ∷ []; quote_style = none; keyword = 0 })

abbrev tokens_of : Text → List Token
tokens_of [] = []
tokens_of (c ∷ s) = token_of c ∷ tokens_of s

abbrev tokenize : Text → Option (List Token)
tokenize s = some (tokens_of s)

is_pattern_match_iff_example :
    (is_pattern_match tokenize (tokens_of (codes "a?c")) (codes "a b c") ≡ true)
    ↔ AllAgree (tokens_of (codes "a?c")) (statement_tokens tokenize (codes "a b c"))
is_pattern_match_iff_example =
    is_pattern_match_iff tokenize (tokens_of (codes "a?c")) (codes "a b c")

spaced_pattern : is_sql_pattern_match tokenize (codes "a b") (codes "a b") ≡ false
unfolding trim_tokens
spaced_pattern = is_sql_pattern_match-spaced tokenize (codes "a b") (codes "a b") refl refl

abbrev show : Token → Text
show t = codes "t"

same_layout : normally tokenize show (codes "a  b") ≡ normally tokenize show (codes " ab")
unfolding trim_tokens
same_layout =
    normally-layout show tokenize (codes "a  b") (codes " ab") (tokens_of (codes "a  b"))
      (tokens_of (codes " ab")) refl refl refl (λ e. cc)

abbrev condition : Text → Text → Expr
condition x y =
    binary_op and (binary_op (other_op (codes "=")) (other (codes "a")) (value (literal x)))
      (between (other (codes "b")) false (value (literal y)) (value (literal x)))

replace_expr_iff_example :
    (replace_expr (condition (codes "1") (codes "2")) ≡ replace_expr (condition (codes "3") []))
    ↔ SameShape (condition (codes "1") (codes "2")) (condition (codes "3") [])
replace_expr_iff_example =
    replace_expr_iff (condition (codes "1") (codes "2")) (condition (codes "3") [])
