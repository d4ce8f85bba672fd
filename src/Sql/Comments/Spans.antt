-- ===== src/Sql/Comments/Spans.antt =====
-- What `remove_comments` keeps and what it drops.
use virt_db.Prelude.{◌≡◌, refl, true, false, [], ◌∷◌, ◌++◌, arith, Text, ap, ◌∙◌, append-nil}
use virt_db.Text.{trim, starts_with, contains}
use virt_db.Sql.Comments.{strip, remove_comments, opener, closer, has_opener}

pub strip-plain : (s : Text) → has_opener s ≡ false → strip false s ≡ s
unfolding strip contains starts_with
strip-plain [] h = refl
strip-plain (c ∷ []) h = refl
strip-plain (c ∷ d ∷ rest) h = ground (arith, strip-plain (d ∷ rest))

-- Up to the first opener everything is kept.
pub strip-prefix :
    (a t : Text) → has_opener a ≡ false → strip false (a ++ (opener ++ t)) ≡ a ++ strip true t
unfolding strip contains starts_with
strip-prefix [] t h = refl
strip-prefix (c ∷ []) t h = ground arith
strip-prefix (c ∷ d ∷ rest) t h = ground (arith, strip-prefix (d ∷ rest) t)

-- The inside of a comment: no closer in it, and no opener in it or across its end.
pub record IsBody (body : Text) : Type 0 where
  pub no_closer : contains closer body ≡ false
  pub no_opener : contains opener (body ++ b'*' ∷ []) ≡ false

pub strip-body :
    (body b : Text)
    → contains closer body ≡ false
    → contains opener (body ++ b'*' ∷ []) ≡ false
    → strip true (body ++ (closer ++ b)) ≡ strip false b
unfolding strip contains starts_with
strip-body [] b h k = refl
strip-body (c ∷ []) b h k = ground arith
strip-body (c ∷ d ∷ rest) b h k = ground (arith, strip-body (d ∷ rest) b)

pub strip-open : (t : Text) → contains closer t ≡ false → strip true t ≡ []
unfolding strip contains starts_with
strip-open [] h = refl
strip-open (c ∷ []) h = refl
strip-open (c ∷ d ∷ rest) h = ground (arith, strip-open rest, strip-open (d ∷ rest))

strip-body_slash :
    (body rest : Text)
    → contains closer (body ++ b'/' ∷ []) ≡ false
    → contains opener body ≡ false
    → strip true (body ++ (b'/' ∷ (closer ++ rest))) ≡ strip true (b'/' ∷ rest)
unfolding strip contains starts_with
strip-body_slash [] rest h k = refl
strip-body_slash (c ∷ []) rest h k = ground arith
strip-body_slash (c ∷ d ∷ body) rest h k = ground (arith, strip-body_slash (d ∷ body) rest)

-- A text with no comment in it is trimmed, and nothing else.
pub remove_comments-plain : (s : Text) → has_opener s ≡ false → remove_comments s ≡ trim s
unfolding remove_comments
remove_comments-plain s h = ap trim (strip-plain s h)

-- A comment whose inside holds neither mark is cut out, and the text around it is joined.
pub remove_comments-comment :
    (a body b : Text)
    → has_opener a ≡ false
    → IsBody body
    → has_opener b ≡ false
    → remove_comments (a ++ (opener ++ (body ++ (closer ++ b)))) ≡ trim (a ++ b)
unfolding remove_comments
remove_comments-comment a body b ha hb h = ap trim (
    strip-prefix a (body ++ (closer ++ b)) ha
    ∙ ap (λ t. a ++ t) (strip-body body b hb.no_closer hb.no_opener ∙ strip-plain b h))

-- Everything behind an opener that no closer follows is dropped.
pub remove_comments-open :
    (a t : Text)
    → has_opener a ≡ false
    → contains closer t ≡ false
    → remove_comments (a ++ (opener ++ t)) ≡ trim a
unfolding remove_comments
remove_comments-open a t ha h =
    ap trim (strip-prefix a t ha ∙ ap (λ t. a ++ t) (strip-open t h) ∙ append-nil a)

no_closer_slash :
    (rest : Text) → contains closer rest ≡ false → contains closer (b'/' ∷ rest) ≡ false
unfolding contains starts_with
no_closer_slash rest h = ground arith

-- A comment that ends in `/*/` is not closed there: where its inside holds no other mark and no closer
-- follows, all of the statement behind it is dropped.
pub remove_comments-slash_closer :
    (a body rest : Text)
    → has_opener a ≡ false
    → contains closer (body ++ b'/' ∷ []) ≡ false
    → contains opener body ≡ false
    → contains closer rest ≡ false
    → remove_comments (a ++ (opener ++ (body ++ (b'/' ∷ (closer ++ rest))))) ≡ trim a
unfolding remove_comments
remove_comments-slash_closer a body rest ha hb ho h = ap trim (
    strip-prefix a (body ++ (b'/' ∷ (closer ++ rest))) ha
    ∙ ap (λ t. a ++ t)
        (strip-body_slash body rest hb ho ∙ strip-open (b'/' ∷ rest) (no_closer_slash rest h))
    ∙ append-nil a)
