-- ===== src/Text/Decimal/Read.antt =====
-- The decimal text of an `i64` is read back as that number.
use virt_db.Prelude.{
  ℕ, zero, suc, ◌+◌, ◌-◌, ◌*◌, ◌/◌, ◌%◌, ◌^◌, ◌≤◌, ◌<◌, ◌≡◌, refl, sym, ap, ◌∙◌, [], ◌∷◌, Text,
  arith, ◌==◌, if◌then◌else◌, true, false, Bool-cases, inl, inr,
}
use virt_db.Prelude.Int.{ℤ, pos, negsuc, ◌≤ℤ◌}
use virt_db.Text.Decimal.{digits, to_string}

-- What the digits stand for, behind a number.
abbrev pub value : Text → ℕ → ℕ
value [] n = n
value (c ∷ s) n = value s (10 * n + (c - b'0'))

digits-last :
    (fuel n : ℕ) (tail : Text)
    → (n / 10 == 0) ≡ true
    → digits (suc fuel) n tail ≡ (b'0' + n % 10) ∷ tail
unfolding digits
digits-last fuel n tail z = ground (arith, z)

digits-more :
    (fuel n : ℕ) (tail : Text)
    → (n / 10 == 0) ≡ false
    → digits (suc fuel) n tail ≡ digits fuel (n / 10) ((b'0' + n % 10) ∷ tail)
unfolding digits
digits-more fuel n tail z = ground (arith, z)

tenth_lt : (fuel n : ℕ) → n < 10 ^ suc fuel → n / 10 < 10 ^ fuel
tenth_lt fuel n h = omega arith

value-digits :
    (fuel n : ℕ) (tail : Text) → n < 10 ^ fuel → value (digits fuel n tail) 0 ≡ value tail n
value-digits zero n tail h = unfold digits in ap (value tail) (omega arith)
value-digits (suc fuel) n tail h = elim (Bool-cases (n / 10 == 0)) [
  | inl z ↦ ap (λ s. value s 0) (digits-last fuel n tail z) ∙ ap (value tail) (ground (arith, z))
  | inr z ↦
      ap (λ s. value s 0) (digits-more fuel n tail z)
      ∙ value-digits fuel (n / 10) ((b'0' + n % 10) ∷ tail) (tenth_lt fuel n h)
      ∙ ap (value tail) (omega arith)
]

-- The number that a text of digits, with a minus sign or without, stands for.
abbrev pub read : Text → ℤ
read [] = pos 0
read (c ∷ s) = if c == b'-' then negsuc (value s 0 - 1) else pos (value (c ∷ s) 0)

first_digit :
    (fuel n c : ℕ) (tail : Text)
    → b'0' ≤ c
    → (d : ℕ) × (s : Text) × (b'0' ≤ d) × (digits fuel n (c ∷ tail) ≡ d ∷ s)
first_digit zero n c tail h = unfold digits in (c, tail, h, refl)
first_digit (suc fuel) n c tail h = elim (Bool-cases (n / 10 == 0)) [
  | inl z ↦ (b'0' + n % 10, c ∷ tail, omega arith, digits-last fuel n (c ∷ tail) z)
  | inr z ↦
      let (d, s, b, e) = first_digit fuel (n / 10) (b'0' + n % 10) (c ∷ tail) (omega arith) in
      (d, s, b, digits-more fuel n (c ∷ tail) z ∙ e)
]

starts_with_digit :
    (fuel n : ℕ) → (d : ℕ) × (s : Text) × (b'0' ≤ d) × (digits (suc fuel) n [] ≡ d ∷ s)
starts_with_digit fuel n = elim (Bool-cases (n / 10 == 0)) [
  | inl z ↦ (b'0' + n % 10, [], omega arith, digits-last fuel n [] z)
  | inr z ↦
      let (d, s, b, e) = first_digit fuel (n / 10) (b'0' + n % 10) [] (omega arith) in
      (d, s, b, digits-more fuel n [] z ∙ e)
]

read-digit : (d : ℕ) (s : Text) → b'0' ≤ d → read (d ∷ s) ≡ pos (value (d ∷ s) 0)
read-digit d s h = ground arith

-- The values of an `i64`.
abbrev pub IsI64 : ℤ → Type 0
IsI64 v = (negsuc 9223372036854775807 ≤ℤ v) × (v ≤ℤ pos 9223372036854775807)

pub read-to_string : (v : ℤ) → IsI64 v → read (to_string v) ≡ v
unfolding to_string
read-to_string (pos n) h =
    let (d, s, b, e) = starts_with_digit 18 n in
    ap read e
    ∙ read-digit d s b
    ∙ ap (λ t. pos (value t 0)) (sym e)
    ∙ ap pos (value-digits 19 n [] (omega arith))
read-to_string (negsuc n) h =
    ap (λ m. negsuc (m - 1)) (value-digits 19 (suc n) [] (omega arith)) ∙ ap negsuc (omega arith)
