-- ===== src/Sql/Tokens/Matching.antt =====
-- `is_pattern_match` decides a relation between the tokens of a pattern and of a statement.
use virt_db.Prelude.{
  Bool, true, false, ◌≡◌, ◌↔◌, refl, Option, List, [], ◌∷◌, Text, text_eq_iff, arith, ap, not,
  length, ◌&&◌, ◌==◌,
}
use virt_db.Sql.Tokens.{
  Word, Token, eof, whitespace, word, number, char, single_quoted_string, national_string_literal,
  escaped_string_literal, hex_string_literal, placeholder, other, token_eq, is_same, all_same,
  trim_tokens, unwrap_or_default, is_pattern_match, is_sql_pattern_match, is_significant,
}

-- A token of a pattern agrees with a token of a statement.
pub data Agrees : Token → Token → Type 0 where
  same : (a b : Token) → a ≡ b → Agrees a b
  words : (v w : Word) → v.value ≡ w.value → Agrees (word v) (word w)
  escaped : (s t : Text) → Agrees (escaped_string_literal s) (escaped_string_literal t)
  spaces : (s t : Text) → Agrees (whitespace s) (whitespace t)
  hole_left : (v : Text) (t : Token) → Agrees (placeholder v) t
  hole_right : (t : Token) (v : Text) → Agrees t (placeholder v)

-- Two lists of one length agree token by token.
abbrev pub AllAgree : List Token → List Token → Type 0
AllAgree [] [] = Unit
AllAgree (a ∷ s) (b ∷ t) = Agrees a b × AllAgree s t
AllAgree _ _ = ⊥

eq_of_token_eq : (a b : Token) → token_eq a b ≡ true → a ≡ b
unfolding token_eq
eq_of_token_eq eof eof h = refl
eq_of_token_eq (whitespace s) (whitespace t) h = ap whitespace ((text_eq_iff s t).0 h)
eq_of_token_eq (word v) (word w) h = ground (arith, text_eq_iff v.value w.value)
eq_of_token_eq (number s b) (number t c) h = ground (arith, text_eq_iff s t)
eq_of_token_eq (char a) (char b) h = ground arith
eq_of_token_eq (single_quoted_string s) (single_quoted_string t) h = ground (arith, text_eq_iff s t)
eq_of_token_eq (national_string_literal s) (national_string_literal t) h =
    ground (arith, text_eq_iff s t)
eq_of_token_eq (escaped_string_literal s) (escaped_string_literal t) h =
    ground (arith, text_eq_iff s t)
eq_of_token_eq (hex_string_literal s) (hex_string_literal t) h = ground (arith, text_eq_iff s t)
eq_of_token_eq (placeholder s) (placeholder t) h = ground (arith, text_eq_iff s t)
eq_of_token_eq (other s) (other t) h = ground (arith, text_eq_iff s t)
eq_of_token_eq _ _ h = cc

is_same_refl : (a : Token) → is_same a a ≡ true
unfolding is_same
is_same_refl eof = refl
is_same_refl (whitespace s) = refl
is_same_refl (word v) = (text_eq_iff v.value v.value).1 refl
is_same_refl (number s b) = ground (arith, text_eq_iff s s)
is_same_refl (char a) = ground arith
is_same_refl (single_quoted_string s) = (text_eq_iff s s).1 refl
is_same_refl (national_string_literal s) = (text_eq_iff s s).1 refl
is_same_refl (escaped_string_literal s) = refl
is_same_refl (hex_string_literal s) = (text_eq_iff s s).1 refl
is_same_refl (placeholder s) = refl
is_same_refl (other s) = (text_eq_iff s s).1 refl

Agrees-of_is_same : (a b : Token) → is_same a b ≡ true → Agrees a b
unfolding is_same
Agrees-of_is_same (word v) (word w) h = words v w ((text_eq_iff v.value w.value).0 h)
Agrees-of_is_same (escaped_string_literal s) (escaped_string_literal t) h = escaped s t
Agrees-of_is_same (whitespace s) (whitespace t) h = spaces s t
Agrees-of_is_same (placeholder v) b h = hole_left v b
Agrees-of_is_same a (placeholder v) h = hole_right a v
Agrees-of_is_same (number s b) (number t c) h =
    same (number s b) (number t c) (ground (arith, text_eq_iff s t))
Agrees-of_is_same a b h = same a b (eq_of_token_eq a b (unfold token_eq in h))

is_same-of_Agrees : {a b : Token} → Agrees a b → is_same a b ≡ true
unfolding is_same
is_same-of_Agrees (same a b e) = subst_eq a b e
  where
    subst_eq : (a b : Token) → a ≡ b → is_same a b ≡ true
    subst_eq a b e = rw (← e) (is_same_refl a)
is_same-of_Agrees (words v w e) = (text_eq_iff v.value w.value).1 e
is_same-of_Agrees (escaped s t) = refl
is_same-of_Agrees (spaces s t) = refl
is_same-of_Agrees (hole_left v t) = refl
is_same-of_Agrees (hole_right eof v) = refl
is_same-of_Agrees (hole_right _ v) = refl

AllAgree-of_all_same :
    (s t : List Token) → (length s == length t) ≡ true → all_same s t ≡ true → AllAgree s t
unfolding all_same
AllAgree-of_all_same [] [] h k = tt
AllAgree-of_all_same [] (b ∷ t) h k = absurd (ground arith)
AllAgree-of_all_same (a ∷ s) [] h k = absurd (ground arith)
AllAgree-of_all_same (a ∷ s) (b ∷ t) h k =
    (Agrees-of_is_same a b (ground arith), AllAgree-of_all_same s t (ground arith) (ground arith))

all_same-of_AllAgree :
    (s t : List Token) → AllAgree s t → ((length s == length t) ≡ true) × (all_same s t ≡ true)
unfolding all_same
all_same-of_AllAgree [] [] h = (refl, refl)
all_same-of_AllAgree (a ∷ s) (b ∷ t) h = (
  ground (arith, all_same-of_AllAgree s t h.1),
  ground (arith, is_same-of_Agrees h.0, all_same-of_AllAgree s t h.1),
)
all_same-of_AllAgree [] (b ∷ t) h = absurd h
all_same-of_AllAgree (a ∷ s) [] h = absurd h

abbrev pub no_token : (Token → Bool) → List Token → Bool
no_token p [] = true
no_token p (t ∷ tokens) = not (p t) && no_token p tokens

abbrev pub is_insignificant : Token → Bool
is_insignificant t = not (is_significant t)

abbrev pub is_placeholder : Token → Bool
is_placeholder (placeholder _) = true
is_placeholder _ = false

trim_tokens-significant :
    (tokens : List Token) → no_token is_insignificant (trim_tokens tokens) ≡ true
unfolding trim_tokens
trim_tokens-significant [] = refl
trim_tokens-significant (t ∷ tokens) = ground (arith, trim_tokens-significant tokens)

-- `trim_tokens` does nothing to what it returned.
pub trim_tokens_idem : (tokens : List Token) → trim_tokens (trim_tokens tokens) ≡ trim_tokens tokens
unfolding trim_tokens
trim_tokens_idem [] = refl
trim_tokens_idem (t ∷ tokens) = ground (arith, trim_tokens_idem tokens)

is_same_insignificant :
    (a b : Token)
    → is_insignificant b ≡ false
    → is_placeholder b ≡ false
    → is_same a b ≡ true
    → is_insignificant a ≡ false
unfolding is_same
is_same_insignificant eof b h k e = ground arith
is_same_insignificant (whitespace s) b h k e = ground arith
is_same_insignificant _ b h k e = refl

all_same_significant :
    (s t : List Token)
    → no_token is_insignificant t ≡ true
    → no_token is_placeholder t ≡ true
    → all_same s t ≡ true
    → no_token is_insignificant s ≡ true
unfolding all_same
all_same_significant [] t h k e = refl
all_same_significant (a ∷ s) [] h k e = cc
all_same_significant (a ∷ s) (b ∷ t) h k e =
    ground (arith, is_same_insignificant a b, all_same_significant s t)

module _ (tokenize : Text → Option (List Token)) where
  -- The significant tokens of a statement; a text that does not tokenize has none.
  abbrev pub statement_tokens : Text → List Token
  statement_tokens sql = trim_tokens (unwrap_or_default (tokenize sql))

  -- A pattern matches a statement exactly when the tokens that it is given by, as they are, white space
  -- included, agree one by one with the significant tokens of the statement.
  pub is_pattern_match_iff :
      (tokens1 : List Token) (sql2 : Text)
      → (is_pattern_match tokenize tokens1 sql2 ≡ true) ↔ AllAgree tokens1 (statement_tokens sql2)
  unfolding is_pattern_match
  is_pattern_match_iff tokens1 sql2 =
      let tokens2 = statement_tokens sql2 in
      (
        λ h. AllAgree-of_all_same tokens1 tokens2 (ground arith) (ground arith),
        λ h. ground (arith, all_same-of_AllAgree tokens1 tokens2 h),
      )

  -- A pattern with white space or an end marker among its tokens matches, by `is_sql_pattern_match`, no
  -- statement that has no placeholder.
  pub is_sql_pattern_match-spaced :
      (pattern sql2 : Text)
      → no_token is_insignificant (unwrap_or_default (tokenize pattern)) ≡ false
      → no_token is_placeholder (statement_tokens sql2) ≡ true
      → is_sql_pattern_match tokenize pattern sql2 ≡ false
  unfolding is_sql_pattern_match
  is_sql_pattern_match-spaced pattern sql2 h k = ground (
    arith,
    all_same_significant (unwrap_or_default (tokenize pattern)) (statement_tokens sql2),
    trim_tokens-significant (unwrap_or_default (tokenize sql2)),
  )
