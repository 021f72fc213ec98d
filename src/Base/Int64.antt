-- ===== src/Base/Int64.antt =====
-- Go's `int64` (and `int`, on a 64-bit platform): the bit pattern as a number below 2 ^ 64, two's
-- complement, with the arithmetic wrapping.
use Prim.Native.Nat.{ℕ, ◌+◌, ◌-◌, ◌*◌, ◌/◌, ◌%◌, ◌<◌}
use mathlib.Core.Path.{◌≡◌}
use mathlib.Core.Bool.{Bool}
use native.Mathlib.Omega.{arith}
use cirrus_sim.Base.Tests.{ltb, leb, if◌then◌else◌}

abbrev pub two64 : ℕ
two64 = 0x10000000000000000

abbrev pub two63 : ℕ
two63 = 0x8000000000000000

abbrev pub Int64 : Type 0
Int64 = ℕ

unfoldable pub add64 : Int64 → Int64 → Int64
add64 a b = (a + b) % two64

unfoldable pub sub64 : Int64 → Int64 → Int64
sub64 a b = (a + two64 - b % two64) % two64

unfoldable pub mul64 : Int64 → Int64 → Int64
mul64 a b = a * b % two64

-- The order of the signed values: adding 2 ^ 63 to the patterns makes it the order of numbers.
abbrev pub bias : Int64 → ℕ
bias a = (a + two63) % two64

unfoldable pub slt : Int64 → Int64 → Bool
slt a b = ltb (bias a) (bias b)

unfoldable pub sle : Int64 → Int64 → Bool
sle a b = leb (bias a) (bias b)

-- The absolute value of the signed reading.
abbrev pub magnitude : Int64 → ℕ
magnitude a = if ltb a two63 then a else two64 - a

-- `a / k` for a positive constant `k`: truncated towards zero.
unfoldable pub div64 : Int64 → ℕ → Int64
div64 a k = if ltb a two63 then a / k else (two64 - magnitude a / k) % two64

abbrev pub IsInt64 : Int64 → Type 0
IsInt64 a = a < two64

-- On patterns whose sign bit is clear the signed order is the order of numbers.
pub slt-of_small : (a b : Int64) → a < two63 → b < two63 → slt a b ≡ ltb a b
unfolding slt
slt-of_small a b h k = ground arith

pub sle-of_small : (a b : Int64) → a < two63 → b < two63 → sle a b ≡ leb a b
unfolding sle
sle-of_small a b h k = ground arith

-- `b += n - a` takes a sum that counts `a` to one that counts `n`.
pub add-sub64 : (a n : Int64) → (a + sub64 n a) % two64 ≡ n % two64
unfolding sub64
add-sub64 a n = omega arith
