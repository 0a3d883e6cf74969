-- ===== src/Quality/Floats.antt =====
-- What ai.rs uses of `f64`, on bit patterns below 2 ^ 64. Addition is a parameter of the code that
-- adds.
use kanai.Base.{ℕ, ◌+◌, ◌-◌, ◌/◌, ◌%◌, ◌^◌, Bool, ◌&&◌, ◌||◌, not, ltb, leb, ◌==◌, if◌then◌else◌}

abbrev pub is_negative : ℕ → Bool
is_negative x = leb (2 ^ 63) x

-- `f64::is_finite`: the exponent is not all ones.
unfoldable pub is_finite : ℕ → Bool
is_finite x = not ((x / 2 ^ 52) % 2048 == 2047)

-- A number for each pattern, in the order of `f64::total_cmp`.
unfoldable pub total_key : ℕ → ℕ
total_key x = if is_negative x then 2 ^ 64 - 1 - x else x + 2 ^ 63

abbrev pub is_zero : ℕ → Bool
is_zero x = x == 0 || x == 2 ^ 63

-- `x < y` for finite numbers: the two zeros are equal.
unfoldable pub float_lt : ℕ → ℕ → Bool
float_lt x y = not (is_zero x && is_zero y) && ltb (total_key x) (total_key y)

-- 0.0, 0.75 and 1.0
abbrev pub zero_float : ℕ
zero_float = 0

abbrev pub three_quarters : ℕ
three_quarters = 0x3fe8_0000_0000_0000

abbrev pub one_float : ℕ
one_float = 0x3ff0_0000_0000_0000

-- `(0.0..=1.0).contains(&x)` for a finite number.
unfoldable pub in_unit : ℕ → Bool
in_unit x = not (float_lt x zero_float) && not (float_lt one_float x)
