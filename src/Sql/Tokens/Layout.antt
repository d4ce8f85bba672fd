-- ===== src/Sql/Tokens/Layout.antt =====
-- `normally` does not look at white space.
use virt_db.Prelude.{
  ◌≡◌, ◌≢◌, refl, ◌∙◌, sym, ap, some, Option, List, [], ◌∷◌, map, Text, arith, append-nil,
}
use virt_db.Sql.Tokens.{
  Token, eof, whitespace, trim_tokens, join_tokens, join_all, reduce_or, shown, normally,
}

join-nil : (a : Text) → join_tokens a [] ≡ a
join-nil a = ground (arith, append-nil a)

nil-join : (a : Text) → join_tokens [] a ≡ a
nil-join a = refl

module _ (show : Token → Text) where
  abbrev texts : List Token → List Text
  texts tokens = map (shown show) tokens

  join_all-trim_tokens :
      (a : Text) (tokens : List Token)
      → join_all a (texts tokens) ≡ join_all a (texts (trim_tokens tokens))
  unfolding join_all trim_tokens
  join_all-trim_tokens a [] = refl
  join_all-trim_tokens a (eof ∷ tokens) =
      ap (λ b. join_all b (texts tokens)) (join-nil a) ∙ join_all-trim_tokens a tokens
  join_all-trim_tokens a (whitespace s ∷ tokens) =
      ap (λ b. join_all b (texts tokens)) (join-nil a) ∙ join_all-trim_tokens a tokens
  join_all-trim_tokens a (t ∷ tokens) = join_all-trim_tokens (join_tokens a (show t)) tokens

  -- From the empty text the first token that shows is joined with nothing before it.
  join_all-reduce_or :
      (default : Text) (tokens : List Token)
      → trim_tokens tokens ≢ []
      → join_all [] (texts tokens) ≡ reduce_or default (texts (trim_tokens tokens))
  unfolding join_all reduce_or trim_tokens
  join_all-reduce_or default [] h = absurd (h refl)
  join_all-reduce_or default (eof ∷ tokens) h = join_all-reduce_or default tokens h
  join_all-reduce_or default (whitespace s ∷ tokens) h = join_all-reduce_or default tokens h
  join_all-reduce_or default (t ∷ tokens) h = join_all-trim_tokens (show t) tokens

  reduce_or-trim_tokens :
      (default : Text) (tokens : List Token)
      → trim_tokens tokens ≢ []
      → reduce_or default (texts tokens) ≡ reduce_or default (texts (trim_tokens tokens))
  unfolding reduce_or trim_tokens
  reduce_or-trim_tokens default [] h = absurd (h refl)
  reduce_or-trim_tokens default (eof ∷ tokens) h = join_all-reduce_or default tokens h
  reduce_or-trim_tokens default (whitespace s ∷ tokens) h = join_all-reduce_or default tokens h
  reduce_or-trim_tokens default (t ∷ tokens) h = join_all-trim_tokens (show t) tokens

  reduce_or-default :
      (a b : Text) (tokens : List Token)
      → tokens ≢ []
      → reduce_or a (texts tokens) ≡ reduce_or b (texts tokens)
  unfolding reduce_or
  reduce_or-default a b [] h = absurd (h refl)
  reduce_or-default a b (t ∷ tokens) h = refl

  -- Two texts with the same significant tokens, at least one, have the same normal form, whatever
  -- their white space.
  pub normally-layout :
      (tokenize : Text → Option (List Token)) (a b : Text) (s t : List Token)
      → tokenize a ≡ some s
      → tokenize b ≡ some t
      → trim_tokens s ≡ trim_tokens t
      → trim_tokens s ≢ []
      → normally tokenize show a ≡ normally tokenize show b
  unfolding normally
  normally-layout tokenize a b s t ha hb e h =
      rw (ha, hb)
        (ap some (
          reduce_or-trim_tokens a s h
          ∙ reduce_or-default a b (trim_tokens s) h
          ∙ ap (λ l. reduce_or b (texts l)) e
          ∙ sym (reduce_or-trim_tokens b t (λ q. h (e ∙ q)))))
