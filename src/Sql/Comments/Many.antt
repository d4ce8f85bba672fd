-- ===== src/Sql/Comments/Many.antt =====
-- What `remove_comments` makes of a text with any number of comments.
use virt_db.Prelude.{
  ◌≡◌, sym, ap, ◌∙◌, false, Option, none, some, List, [], ◌∷◌, ◌++◌, append-nil, Text, All,
}
use virt_db.Text.{trim, contains}
use virt_db.Sql.Comments.{strip, remove_comments, opener, closer, has_opener}
use virt_db.Sql.Comments.Spans.{IsBody, strip-plain, strip-prefix, strip-body, strip-open}

-- Comments, each by its inside, with the text behind it.
abbrev pub Comments : Type 0
Comments = List (Text × Text)

-- The end of a text: nothing, or an opener that is not closed with what is behind it.
abbrev pub ending : Option Text → Text
ending none = []
ending (some t) = opener ++ t

abbrev pub commented : Comments → Option Text → Text
commented [] t = ending t
commented ((body, b) ∷ l) t = opener ++ (body ++ (closer ++ (b ++ commented l t)))

-- The texts outside of the comments.
abbrev pub outside : Comments → Text
outside [] = []
outside ((body, b) ∷ l) = b ++ outside l

abbrev pub IsUnclosed : Option Text → Type 0
IsUnclosed none = Unit
IsUnclosed (some t) = contains closer t ≡ false

abbrev pub AreComments : Comments → Type 0
AreComments l = All (λ p. IsBody p.0 × (has_opener p.1 ≡ false)) l

strip-commented :
    (a : Text) (l : Comments) (t : Option Text)
    → has_opener a ≡ false
    → AreComments l
    → IsUnclosed t
    → strip false (a ++ commented l t) ≡ a ++ outside l
strip-commented a [] none ha h u =
    ap (strip false) (append-nil a) ∙ strip-plain a ha ∙ sym (append-nil a)
strip-commented a [] (some t) ha h u = strip-prefix a t ha ∙ ap (λ s. a ++ s) (strip-open t u)
strip-commented a ((body, b) ∷ l) t ha ((is_body, hb), h) u =
    strip-prefix a (body ++ (closer ++ (b ++ commented l t))) ha
    ∙ ap (λ s. a ++ s)
        (strip-body body (b ++ commented l t) is_body.no_closer is_body.no_opener
          ∙ strip-commented b l t hb h u)

-- Comments whose insides hold no closer, and no opener in them or across their end, so that they do not
-- end in a slash, are cut out, however many there are, with all that is behind an opener that is not
-- closed; the texts around them, which hold no opener, are joined, and the whole is trimmed.
pub remove_comments-commented :
    (a : Text) (l : Comments) (t : Option Text)
    → has_opener a ≡ false
    → AreComments l
    → IsUnclosed t
    → remove_comments (a ++ commented l t) ≡ trim (a ++ outside l)
unfolding remove_comments
remove_comments-commented a l t ha h u = ap trim (strip-commented a l t ha h u)
