-- ===== src/Text/Utf8.antt =====
-- `String::from_utf8`: the well-formed sequences of the Unicode standard's table 3-7.
use virt_db.Prelude.{
  ℕ, ◌+◌, ◌-◌, ◌*◌, Bool, ◌&&◌, Option, none, some, List, [], ◌∷◌, Text, leb, ltb, ◌==◌,
  if◌then◌else◌,
}
use mathlib.Core.Option

-- A continuation byte.
is_cont : ℕ → Bool
is_cont b = leb 0x80 b && leb b 0xbf

-- The second byte of three, and of four, where the first narrows its range.
is_second3 : ℕ → ℕ → Bool
unfolding is_cont
is_second3 a b =
    is_cont b && (if a == 0xe0 then leb 0xa0 b else if a == 0xed then leb b 0x9f else leb 0 b)

is_second4 : ℕ → ℕ → Bool
unfolding is_cont
is_second4 a b =
    is_cont b && (if a == 0xf0 then leb 0x90 b else if a == 0xf4 then leb b 0x8f else leb 0 b)

abbrev pub cons_char : ℕ → Option Text → Option Text
cons_char c rest = Option.map (λ s. c ∷ s) rest

-- `None` where Rust returns `Err`.
unfoldable pub from_utf8 : List ℕ → Option Text
unfolding is_cont is_second3 is_second4
from_utf8 [] = some []
from_utf8 (a ∷ []) = if ltb a 0x80 then some (a ∷ []) else none
from_utf8 (a ∷ b ∷ []) =
    let one = cons_char a (from_utf8 (b ∷ [])) in
    if ltb a 0x80
    then one
    else if leb 0xc2 a && leb a 0xdf && is_cont b
    then some (((a - 0xc0) * 64 + (b - 0x80)) ∷ [])
    else none
from_utf8 (a ∷ b ∷ c ∷ []) =
    let one = cons_char a (from_utf8 (b ∷ c ∷ [])) in
    let two = cons_char ((a - 0xc0) * 64 + (b - 0x80)) (from_utf8 (c ∷ [])) in
    if ltb a 0x80
    then one
    else if leb 0xc2 a && leb a 0xdf && is_cont b
    then two
    else if leb 0xe0 a && leb a 0xef && is_second3 a b && is_cont c
    then some (((a - 0xe0) * 4096 + (b - 0x80) * 64 + (c - 0x80)) ∷ [])
    else none
from_utf8 (a ∷ b ∷ c ∷ d ∷ rest) =
    let one = cons_char a (from_utf8 (b ∷ c ∷ d ∷ rest)) in
    let two = cons_char ((a - 0xc0) * 64 + (b - 0x80)) (from_utf8 (c ∷ d ∷ rest)) in
    let three =
      cons_char ((a - 0xe0) * 4096 + (b - 0x80) * 64 + (c - 0x80)) (from_utf8 (d ∷ rest)) in
    let four =
      cons_char ((a - 0xf0) * 262144 + (b - 0x80) * 4096 + (c - 0x80) * 64 + (d - 0x80))
        (from_utf8 rest) in
    if ltb a 0x80
    then one
    else if leb 0xc2 a && leb a 0xdf && is_cont b
    then two
    else if leb 0xe0 a && leb a 0xef && is_second3 a b && is_cont c
    then three
    else if leb 0xf0 a && leb a 0xf4 && is_second4 a b && is_cont c && is_cont d
    then four
    else none
