-- ===== src/Base/Decides.antt =====
-- A call of a method that changes the state only where it succeeds: the shape of its specification,
-- and how it is proved from three facts about the call.
use mathlib.Core.Path.{◌≡◌, refl}
use mathlib.Core.Logic.{◌⊎◌, inl, inr}
use cirrus_sim.Base.Exec.{Result, ok, err}

module _ {C E A S : Type 0} (P : C → Type 0) (answer : C → A) (after : C → S) where
  -- Either the guards `P` hold of some `c`, and the call answers `answer c` and leaves `after c`; or
  -- they hold of none, and the call returns an error and leaves the state as it was.
  abbrev pub Decides : Result E A × S → S → Type 0
  Decides call s =
      ((c : C) × P c × (call ≡ (ok (answer c), after c)))
      ⊎ ((e : E) × (call ≡ (err e, s)) × ¬ ((c : C) × P c))

  pub decides :
      (call : Result E A × S) (s : S)
      → ((e : E) → call.0 ≡ err e → call.1 ≡ s)
      → ((a : A) → call.0 ≡ ok a → (c : C) × P c)
      → ((c : C) → P c → call ≡ (ok (answer c), after c))
      → Decides call s
  decides call s fails inverse exact = go call.0 refl
    where
      go : (r : Result E A) → call.0 ≡ r → Decides call s
      go (ok a) h = let (c, k) = inverse a h in inl (c, k, exact c k)
      go (err e) h = inr (e, λ i. (h i, fails e h i), λ p. let (c, k) = p in cc (h, exact c k))
