-- ===== src/Tests.antt =====
-- Concrete stand-ins for what the models leave open, and runs of the models on concrete data.
mod Volumes
mod Jobs
mod Domains
mod Logs
mod Transactions
mod Messages
mod Playbooks
mod Places
mod Monitors
mod Calls
use cirrus_sim.Base.{
  ℕ, Bool, ◌*◌, ◌/◌, ◌%◌, ◌≡◌, ◌≤◌, ◌<◌, ◌^◌, ◌==◌, nat_eq, if◌then◌else◌, ltb, true, false, refl,
  suc, arith,
}
use cirrus_sim.Base.Int64.{Int64}
use cirrus_sim.Floats.{Ratios}
use cirrus_sim.Common.Fault.{Rng}
use native.Mathlib.Nat.{div-le_of_le-mul, mul-le-mul_right, mod-lt}

pub progress_bound : (i steps k : ℕ) → 0 < steps → i ≤ steps → i * k / steps ≤ k
progress_bound i steps k h l = div-le_of_le-mul steps (mul-le-mul_right k l)

pub times_100 : (n : ℕ) → n * 100 / 100 ≡ n
times_100 n = omega arith

-- Ratios in percent, with integer arithmetic.
abbrev pub percent : Ratios
percent = record {
  Ratio = ℕ;
  is_zero = λ r. r == 0;
  one = 100;
  one_nonzero = refl;
  scale = λ n r. n * r / 100;
  progress = λ i steps k. i * k / steps;
  progress-le = λ i steps k h l small. progress_bound i steps k h l;
  scale-one = λ n h. times_100 n;
}

-- A random source that counts up.
pub remainder_lt : (r n : ℕ) → 0 < n → r % n < n
remainder_lt r n h = mod-lt r h

abbrev pub counting : Rng
counting = record {
  Source = ℕ;
  Probability = ℕ;
  float_lt = λ r p. (ltb (r % 100) p, suc r);
  intn = λ r n. (r % n, suc r);
  intn-lt = λ r n h. remainder_lt r n h;
}
