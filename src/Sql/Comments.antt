-- ===== src/Sql/Comments.antt =====
-- server/src/utils/sys_sql.rs: `remove_comments`.
pub mod Spans
pub mod Size
pub mod Many
use virt_db.Prelude.{Bool, true, false, ◌&&◌, [], ◌∷◌, Text, codes, ◌==◌, if◌then◌else◌}
use virt_db.Text.{trim, contains}

-- The loop over the characters, with `skip`: the second character of the pair is the one that
-- `peek` shows.
unfoldable pub strip : Bool → Text → Text
strip skip [] = []
strip skip (c ∷ []) = if skip then [] else c ∷ []
strip skip (c ∷ d ∷ rest) =
    let opened = strip true rest in
    let closed = strip false rest in
    let passed = strip skip (d ∷ rest) in
    if c == b'/' && d == b'*'
    then opened
    else if skip && c == b'*' && d == b'/'
    then closed
    else if skip
    then passed
    else c ∷ passed

unfoldable pub remove_comments : Text → Text
unfolding strip trim
remove_comments query = trim (strip false query)

abbrev pub opener : Text
opener = b'/' ∷ b'*' ∷ []

abbrev pub closer : Text
closer = b'*' ∷ b'/' ∷ []

-- A text in which no comment begins.
abbrev pub has_opener : Text → Bool
has_opener s = contains opener s
