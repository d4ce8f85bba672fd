-- ===== src/Text.antt =====
-- What the program uses of Rust's `str`: `trim`, `starts_with`, `contains`, `to_uppercase`.
-- A text is the list of its code points.
mod Utf8
pub mod Decimal
pub mod Encoding
pub mod Order
unfoldable pub use Utf8.{from_utf8}
use virt_db.Prelude.{
  ℕ, Bool, true, false, ◌&&◌, ◌||◌, List, [], ◌∷◌, ◌++◌, Text, leb, ◌==◌, if◌then◌else◌,
}
use mathlib.Core.List.{reverse}

-- The code points with Unicode's property White_Space.
unfoldable pub is_whitespace : ℕ → Bool
is_whitespace c =
    (leb 9 c && leb c 13)
    || c == 0x20
    || c == 0x85
    || c == 0xa0
    || c == 0x1680
    || (leb 0x2000 c && leb c 0x200a)
    || c == 0x2028
    || c == 0x2029
    || c == 0x202f
    || c == 0x205f
    || c == 0x3000

unfoldable pub trim_start : Text → Text
trim_start [] = []
trim_start (c ∷ s) = let rest = trim_start s in if is_whitespace c then rest else c ∷ s

unfoldable pub trim : Text → Text
unfolding trim_start
trim s = reverse (trim_start (reverse (trim_start s)))

unfoldable pub starts_with : Text → Text → Bool
starts_with [] s = true
starts_with (p ∷ ps) [] = false
starts_with (p ∷ ps) (c ∷ s) = (p == c) && starts_with ps s

unfoldable pub contains : Text → Text → Bool
unfolding starts_with
contains p [] = starts_with p []
contains p (c ∷ s) = starts_with p (c ∷ s) || contains p s

-- `to_uppercase` maps each character by Unicode's table, which may give several.
unfoldable pub to_uppercase : (ℕ → Text) → Text → Text
to_uppercase upper [] = []
to_uppercase upper (c ∷ s) = upper c ++ to_uppercase upper s
