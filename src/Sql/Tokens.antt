-- ===== src/Sql/Tokens.antt =====
-- server/src/utils/sys_sql.rs: `normally`, `is_pattern_match`, `trim_tokens` and
-- `is_sql_pattern_match`. The tokenizer of the crate sqlparser and the text of a token are
-- parameters.
pub mod Matching
pub mod Layout
use mathlib.Core.Option
use virt_db.Prelude.{
  ℕ, Bool, true, false, ◌&&◌, ◌||◌, Option, none, some, List, [], ◌∷◌, ◌++◌, map, Text, codes,
  text_eq, length, is_empty, not, ◌==◌, if◌then◌else◌,
}

-- sqlparser's `Word`.
pub record Word : Type 0 where
  pub value : Text
  pub quote_style : Option ℕ
  pub keyword : ℕ

-- sqlparser's `Token`: the variants that the code names; `other` stands for the rest (punctuation
-- and operators), by its text.
pub data Token : Type 0 where
  eof : Token
  whitespace : Text → Token
  word : Word → Token
  number : Text → Bool → Token
  char : ℕ → Token
  single_quoted_string : Text → Token
  national_string_literal : Text → Token
  escaped_string_literal : Text → Token
  hex_string_literal : Text → Token
  placeholder : Text → Token
  other : Text → Token

abbrev pub bool_eq : Bool → Bool → Bool
bool_eq true b = b
bool_eq false b = not b

abbrev pub style_eq : Option ℕ → Option ℕ → Bool
style_eq none none = true
style_eq (some a) (some b) = a == b
style_eq _ _ = false

-- The derived `==` of `Token`.
unfoldable pub token_eq : Token → Token → Bool
token_eq eof eof = true
token_eq (whitespace s) (whitespace t) = text_eq s t
token_eq (word v) (word w) =
    text_eq v.value w.value && style_eq v.quote_style w.quote_style && v.keyword == w.keyword
token_eq (number s b) (number t c) = text_eq s t && bool_eq b c
token_eq (char a) (char b) = a == b
token_eq (single_quoted_string s) (single_quoted_string t) = text_eq s t
token_eq (national_string_literal s) (national_string_literal t) = text_eq s t
token_eq (escaped_string_literal s) (escaped_string_literal t) = text_eq s t
token_eq (hex_string_literal s) (hex_string_literal t) = text_eq s t
token_eq (placeholder s) (placeholder t) = text_eq s t
token_eq (other s) (other t) = text_eq s t
token_eq _ _ = false

-- The closure that `trim_tokens` and the two loaders filter by.
abbrev pub is_significant : Token → Bool
is_significant eof = false
is_significant (whitespace _) = false
is_significant _ = true

unfoldable pub trim_tokens : List Token → List Token
trim_tokens [] = []
trim_tokens (t ∷ tokens) =
    let rest = trim_tokens tokens in if is_significant t then t ∷ rest else rest

-- The `match` on a pair of tokens.
unfoldable pub is_same : Token → Token → Bool
unfolding token_eq
is_same (word v_a) (word v_b) = text_eq v_a.value v_b.value
is_same (number s_a b_a) (number s_b b_b) = text_eq s_a s_b && bool_eq b_a b_b
is_same (char v_a) (char v_b) = v_a == v_b
is_same (single_quoted_string v_a) (single_quoted_string v_b) = text_eq v_a v_b
is_same (national_string_literal v_a) (national_string_literal v_b) = text_eq v_a v_b
is_same (escaped_string_literal v_a) (escaped_string_literal v_b) = true
is_same (hex_string_literal v_a) (hex_string_literal v_b) = text_eq v_a v_b
is_same (whitespace v_a) (whitespace v_b) = true
is_same (placeholder v_a) v = true
is_same v (placeholder v_a) = true
is_same a b = token_eq a b

-- The loop over the indices, which runs on lists of one length: the last clause is not reached.
unfoldable pub all_same : List Token → List Token → Bool
unfolding is_same
all_same [] _ = true
all_same (a ∷ as') (b ∷ bs) = is_same a b && all_same as' bs
all_same (a ∷ as') [] = false

abbrev pub unwrap_or_default {ℓ} : {A : Type ℓ} → Option (List A) → List A
unwrap_or_default none = []
unwrap_or_default (some l) = l

module _ (tokenize : Text → Option (List Token)) where
  unfoldable pub is_pattern_match : List Token → Text → Bool
  unfolding all_same trim_tokens
  is_pattern_match tokens1 sql2 =
      let tokens2 = trim_tokens (unwrap_or_default (tokenize sql2)) in
      if not (length tokens1 == length tokens2) then false else all_same tokens1 tokens2

  unfoldable pub is_sql_pattern_match : Text → Text → Bool
  unfolding is_pattern_match
  is_sql_pattern_match pattern sql2 = is_pattern_match (unwrap_or_default (tokenize pattern)) sql2

-- One of the texts that `normally` joins with no space between.
abbrev pub is_tight : Text → Bool
is_tight s =
    is_empty s
    || text_eq s (codes ".")
    || text_eq s (codes ",")
    || text_eq s (codes "(")
    || text_eq s (codes ")")

abbrev pub join_tokens : Text → Text → Text
join_tokens a b = if is_tight a || is_tight b then a ++ b else a ++ (b' ' ∷ b)

unfoldable pub join_all : Text → List Text → Text
join_all a [] = a
join_all a (b ∷ rest) = join_all (join_tokens a b) rest

-- `reduce(…).unwrap_or(…)`.
unfoldable pub reduce_or : Text → List Text → Text
unfolding join_all
reduce_or default [] = default
reduce_or default (a ∷ rest) = join_all a rest

abbrev pub shown : (Token → Text) → Token → Text
shown show eof = []
shown show (whitespace _) = []
shown show t = show t

-- `none` is the panic of `unwrap` at a text that the tokenizer refuses.
unfoldable pub normally : (Text → Option (List Token)) → (Token → Text) → Text → Option Text
unfolding reduce_or
normally tokenize show sql =
    Option.map (λ tokens. reduce_or sql (map (shown show) tokens)) (tokenize sql)
