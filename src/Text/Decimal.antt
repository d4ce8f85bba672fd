-- ===== src/Text/Decimal.antt =====
-- `to_string` of the integers of Rust, up to 64 bits.
pub mod Read
use virt_db.Prelude.{ℕ, zero, suc, ◌+◌, ◌/◌, ◌%◌, [], ◌∷◌, Text, ◌==◌, if◌then◌else◌}
use virt_db.Prelude.Int.{ℤ, pos, negsuc}

-- The decimal digits of a number below 10^fuel, in front of those in `tail`.
unfoldable pub digits : ℕ → ℕ → Text → Text
digits zero n tail = tail
digits (suc fuel) n tail =
    let tail' = (b'0' + n % 10) ∷ tail in
    let rest = digits fuel (n / 10) tail' in if n / 10 == 0 then tail' else rest

-- `i64::to_string`: the number without its sign is at most 2^63, which has 19 digits.
unfoldable pub to_string : ℤ → Text
unfolding digits
to_string (pos n) = digits 19 n []
to_string (negsuc n) = b'-' ∷ digits 19 (suc n) []
