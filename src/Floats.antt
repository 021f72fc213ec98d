-- ===== src/Floats.antt =====
-- What the program computes with Go's `float64`. The hardware's arithmetic is not modelled: it enters
-- as a parameter, with the documented facts that the proofs use.
use cirrus_sim.Base.{ℕ, Bool, ◌≡◌, false, ◌<◌, ◌≤◌, ◌^◌}
use cirrus_sim.Base.Int64.{Int64}

-- float64, as far as the stores use it: the test against 0, the constant 1.0 and
-- `int64(float64(n) * r)`.
pub record Ratios : Type 1 where
  pub Ratio : Type 0
  pub is_zero : Ratio → Bool
  pub one : Ratio
  pub one_nonzero : is_zero one ≡ false
  pub scale : Int64 → Ratio → Int64
  -- `int(float64(i) / float64(steps) * float64(k))`, the percentage of a progress report
  pub progress : (i steps k : ℕ) → Int64
  -- rounding is monotone, so a fraction of at most 1 gives at most `k`
  pub progress-le : (i steps k : ℕ) → 0 < steps → i ≤ steps → k ≤ 100 → progress i steps k ≤ k
  -- integers up to 2 ^ 53 are exact in a float64
  pub scale-one : (n : Int64) → n ≤ 2 ^ 53 → scale n one ≡ n
