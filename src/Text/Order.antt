-- ===== src/Text/Order.antt =====
-- `Ord` of `str`: lexicographic, by bytes, which for UTF-8 is by code points.
use virt_db.Prelude.{
  Bool, true, false, ◌≡◌, refl, [], ◌∷◌, Text, arith, ltb, ◌==◌, if◌then◌else◌, text_eq,
  text_eq_iff,
}

unfoldable pub text_leb : Text → Text → Bool
text_leb [] t = true
text_leb (a ∷ s) [] = false
text_leb (a ∷ s) (b ∷ t) =
    let rest = text_leb s t in if ltb a b then true else if a == b then rest else false

pub text_leb_total : (s t : Text) → text_leb s t ≡ false → text_leb t s ≡ true
unfolding text_leb
text_leb_total [] t h = cc
text_leb_total (a ∷ s) [] h = refl
text_leb_total (a ∷ s) (b ∷ t) h = ground (arith, text_leb_total s t)

pub text_leb_antisymm : (s t : Text) → text_leb s t ≡ true → text_leb t s ≡ true → s ≡ t
unfolding text_leb
text_leb_antisymm [] [] h k = refl
text_leb_antisymm [] (b ∷ t) h k = cc
text_leb_antisymm (a ∷ s) [] h k = cc
text_leb_antisymm (a ∷ s) (b ∷ t) h k = ground (arith, text_leb_antisymm s t)

pub text_leb_trans :
    (s t u : Text) → text_leb s t ≡ true → text_leb t u ≡ true → text_leb s u ≡ true
unfolding text_leb
text_leb_trans [] t u h k = refl
text_leb_trans (a ∷ s) [] u h k = cc
text_leb_trans (a ∷ s) (b ∷ t) [] h k = cc
text_leb_trans (a ∷ s) (b ∷ t) (c ∷ u) h k = ground (arith, text_leb_trans s t u)

pub text_leb_refl : (s : Text) → text_leb s s ≡ true
unfolding text_leb
text_leb_refl [] = refl
text_leb_refl (a ∷ s) = ground (arith, text_leb_refl s)

-- Strictly before.
abbrev pub Before : Text → Text → Type 0
Before s t = (text_leb s t ≡ true) × (text_eq s t ≡ false)

pub Before-trans : (s t u : Text) → Before s t → Before t u → Before s u
Before-trans s t u h k = ground (
  arith,
  text_leb_trans s t u,
  text_eq_iff s t,
  text_eq_iff t u,
  text_eq_iff s u,
  text_leb_antisymm s t,
  text_leb_antisymm t s,
)

pub Before-of_le : (s t u : Text) → Before s t → text_leb t u ≡ true → Before s u
Before-of_le s t u h k =
    ground (arith, text_leb_trans s t u, text_eq_iff s t, text_eq_iff s u, text_leb_antisymm s t)

pub Before-ne : (s t : Text) → Before s t → text_eq t s ≡ false
Before-ne s t h = ground (arith, text_eq_iff s t, text_eq_iff t s)
