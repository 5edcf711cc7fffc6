-- ===== src/Int64.antt =====
-- Go's int64: a value is its bit pattern, a number below 2 ^ 64, and the operations wrap around.
use wordpress_manager_operat.Prelude.{
  ℕ, ◌+◌, ◌-◌, ◌*◌, ◌/◌, ◌%◌, ◌^◌, ◌≤◌, ◌<◌, ◌≡◌, Bool, arith, ltb, if◌then◌else◌,
}

-- Not negative.
abbrev pub IsSmall : ℕ → Type 0
IsSmall a = a < 2 ^ 63

abbrev pub add64 : ℕ → ℕ → ℕ
add64 a b = (a + b) % 2 ^ 64

abbrev pub sub64 : ℕ → ℕ → ℕ
sub64 a b = (a + (2 ^ 64 - b)) % 2 ^ 64

abbrev pub mul64 : ℕ → ℕ → ℕ
mul64 a b = a * b % 2 ^ 64

-- `a / d` for a positive literal `d`: rounded to zero.
abbrev pub div64 : ℕ → ℕ → ℕ
div64 a d = if ltb a (2 ^ 63) then a / d else (2 ^ 64 - (2 ^ 64 - a) / d) % 2 ^ 64

-- `a > b` of signed numbers: the sign bit is turned over and the patterns are compared.
abbrev pub gt64 : ℕ → ℕ → Bool
gt64 a b = ltb ((b + 2 ^ 63) % 2 ^ 64) ((a + 2 ^ 63) % 2 ^ 64)

pub gt64_small : (a b : ℕ) → IsSmall a → IsSmall b → gt64 a b ≡ ltb b a
gt64_small a b ha hb = ground arith

pub sub64_small : (a b : ℕ) → IsSmall a → b ≤ a → sub64 a b ≡ a - b
sub64_small a b ha hb = omega arith

pub add64_assoc : (a b c : ℕ) → add64 (add64 a b) c ≡ add64 a (b + c)
add64_assoc a b c = omega arith
