-- ===== src/Sql/Comments/Size.antt =====
-- `remove_comments` never lengthens a text, and keeps its length only if it changes nothing.
use mathlib.Core.List.{reverse, reverse-reverse, reverse-append}
use virt_db.Prelude.{
  ◌≤◌, ◌≡◌, refl, Bool, true, false, [], ◌∷◌, arith, Text, length, ap, ◌∙◌, length-append,
}
use virt_db.Text.{trim, trim_start}
use virt_db.Sql.Comments.{strip, remove_comments}

length-reverse : (s : Text) → length (reverse s) ≡ length s
length-reverse [] = refl
length-reverse (c ∷ s) =
    ap length (reverse-append (c ∷ []) s)
    ∙ length-append (reverse s) (c ∷ [])
    ∙ omega (arith, length-reverse s)

-- Shorter, or the same text.
abbrev pub Shrinks : Text → Text → Type 0
Shrinks t s = (length t ≤ length s) × (length t ≡ length s → t ≡ s)

strip-Shrinks : (skip : Bool) (s : Text) → Shrinks (strip skip s) s
unfolding strip
strip-Shrinks true [] = ground arith
strip-Shrinks false [] = ground arith
strip-Shrinks true (c ∷ []) = ground arith
strip-Shrinks false (c ∷ []) = ground arith
strip-Shrinks true (c ∷ d ∷ rest) =
    ground (arith, strip-Shrinks true rest, strip-Shrinks false rest, strip-Shrinks true (d ∷ rest))
strip-Shrinks false (c ∷ d ∷ rest) =
    ground (arith, strip-Shrinks true rest, strip-Shrinks false (d ∷ rest))

trim_start-Shrinks : (s : Text) → Shrinks (trim_start s) s
unfolding trim_start
trim_start-Shrinks [] = ground arith
trim_start-Shrinks (c ∷ s) = ground (arith, trim_start-Shrinks s)

Shrinks-trans : (a b c : Text) → Shrinks a b → Shrinks b c → Shrinks a c
Shrinks-trans a b c h k =
    (omega arith, λ e. h.1 (omega (arith, h.0, k.0)) ∙ k.1 (omega (arith, h.0, k.0)))

Shrinks-reverse : (a b : Text) → Shrinks a (reverse b) → Shrinks (reverse a) b
Shrinks-reverse a b h = (
  omega (arith, h.0, length-reverse a, length-reverse b),
  λ e. ap reverse (h.1 (omega (arith, length-reverse a, length-reverse b))) ∙ reverse-reverse b,
)

pub remove_comments-Shrinks : (s : Text) → Shrinks (remove_comments s) s
unfolding remove_comments
remove_comments-Shrinks s =
    let t = strip false s in
    let u = trim_start t in
    Shrinks-trans (trim t) t s
      (Shrinks-trans (trim t) u t
        (Shrinks-reverse (trim_start (reverse u)) u (trim_start-Shrinks (reverse u)))
        (trim_start-Shrinks t))
      (strip-Shrinks false s)
