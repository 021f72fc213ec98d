-- ===== src/Base/Exec.antt =====
-- Methods that mutate an object and may return an error. What was written before an error stays
-- written, so the state comes back beside the error too.
use mathlib.Core.Path.{◌≡◌, ap}
use mathlib.Core.Bool.{Bool}
use mathlib.Core.Option.{Option, none, some}
use cirrus_sim.Base.Tests.{if◌then◌else◌}
use cirrus_sim.Base.{arith, refl}

pub data Result (E : Type 0) (A : Type 0) : Type 0 where
  ok : A → Result E A
  err : E → Result E A

abbrev pub Exec : Type 0 → Type 0 → Type 0 → Type 0
Exec E S A = S → Result E A × S

module _ {E S A : Type 0} where
  abbrev pub pure : A → Exec E S A
  pure a s = (ok a, s)

  abbrev pub raise : E → Exec E S A
  raise e s = (err e, s)

  abbrev pub gets : (S → A) → Exec E S A
  gets f s = (ok (f s), s)

  -- `x, ok := m[k]; if !ok { return err }`
  abbrev pub or_raise : Option A → E → Exec E S A
  or_raise none e s = (err e, s)
  or_raise (some a) e s = (ok a, s)

infixl 5 ◌>>=◌ ◌>>◌
abbrev pub ◌>>=◌ : {E S A B : Type 0} → Exec E S A → (A → Exec E S B) → Exec E S B
◌>>=◌ m f s = let (r, s') = m s in elim r [ ok a ↦ f a s' | err e ↦ (err e, s') ]

abbrev pub ◌>>◌ : {E S B : Type 0} → Exec E S (Unit {0}) → Exec E S B → Exec E S B
m >> k = m >>= λ _. k

module _ {E S : Type 0} where
  -- `if cond { return err }`
  abbrev pub raise_if : Bool → E → Exec E S (Unit {0})
  raise_if c e s = (if c then err e else ok tt, s)

  abbrev pub modify : (S → S) → Exec E S (Unit {0})
  modify f s = (ok tt, f s)

module _ {E S A B : Type 0} where
  -- A first action that succeeds hands its answer and its state on.
  pub bind-ok :
      (m : Exec E S A) (f : A → Exec E S B) (s : S) {a : A} {t : S}
      → m s ≡ (ok a, t)
      → (m >>= f) s ≡ f a t
  bind-ok m f s e = ap (λ p. let (r, s') = p in elim r [ ok a ↦ f a s' | err e ↦ (err e, s') ]) e

  -- A chain that succeeds comes from a first action that does.
  pub bind-inv :
      (m : Exec E S A) (f : A → Exec E S B) (s : S) {b : B} {t : S}
      → (m >>= f) s ≡ (ok b, t)
      → (a : A) × (s' : S) × (m s ≡ (ok a, s')) × (f a s' ≡ (ok b, t))
  bind-inv m f s {b} {t} e = of (m s).0 refl e
    where
      of :
          (r : Result E A)
          → (m s).0 ≡ r
          → (elim r [ ok a ↦ f a (m s).1 | err x ↦ (err x, (m s).1) ]) ≡ (ok b, t)
          → (a : A) × (s' : S) × (m s ≡ (ok a, s')) × (f a s' ≡ (ok b, t))
      of (ok a) h e' = (a, (m s).1, ap (λ r. (r, (m s).1)) h, e')
      of (err x) h e' = ground arith

  -- A chain goes on from what its first action gives.
  pub bind-congr :
      (m n : Exec E S A) (f : A → Exec E S B) (s : S) → m s ≡ n s → (m >>= f) s ≡ (n >>= f) s
  bind-congr m n f s e =
      ap (λ p. let (r, s') = p in elim r [ ok a ↦ f a s' | err e ↦ (err e, s') ]) e
