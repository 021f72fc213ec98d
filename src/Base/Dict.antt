-- ===== src/Base/Dict.antt =====
-- Go's `map[K]V` as an association list. A write keeps the place of its key, a delete takes out the
-- first entry; `IsMap` says that no key is listed twice. `total` folds a map with a weight.
use Prim.Native.Nat.{ℕ, ◌+◌, ◌≤◌}
use mathlib.Core.Path.{◌≡◌, refl}
use mathlib.Core.Logic.{◌≢◌}
use mathlib.Core.Option.{Option, none, some}
use mathlib.Core.List.{List, [], ◌∷◌}
use native.Mathlib.Omega.{arith}
use cirrus_sim.Base.Tests.{if◌then◌else◌}
use cirrus_sim.Base.Eq.{Eq, ◌==◌}

abbrev pub Dict : Type 0 → Type 0 → Type 0
Dict K V = List (K × V)

abbrev pub weight : {V : Type 0} → (V → ℕ) → Option V → ℕ
weight f none = 0
weight f (some v) = f v

module _ {K V : Type 0} where
  abbrev pub values : Dict K V → List V
  values [] = []
  values ((_, v) ∷ d) = v ∷ values d

  unfoldable pub total : (V → ℕ) → Dict K V → ℕ
  total f [] = 0
  total f ((_, v) ∷ d) = f v + total f d

  -- Weights that agree on every value have the same total.
  pub total-congr : (f g : V → ℕ) (d : Dict K V) → ((v : V) → f v ≡ g v) → total f d ≡ total g d
  unfolding total
  total-congr f g [] h = refl
  total-congr f g ((k, v) ∷ d) h = omega (arith, h v, total-congr f g d h)

  pub total-le : (f g : V → ℕ) (d : Dict K V) → ((v : V) → f v ≤ g v) → total f d ≤ total g d
  unfolding total
  total-le f g [] h = omega arith
  total-le f g ((k, v) ∷ d) h = omega (arith, h v, total-le f g d h)

module _ {K V : Type 0} ⦃e : Eq K⦄ where
  unfoldable pub lookup : K → Dict K V → Option V
  lookup k [] = none
  lookup k ((j, v) ∷ d) = if j == k then some v else lookup k d

  unfoldable pub insert : K → V → Dict K V → Dict K V
  insert k v [] = (k, v) ∷ []
  insert k v ((j, w) ∷ d) = if j == k then (j, v) ∷ d else (j, w) ∷ insert k v d

  unfoldable pub erase : K → Dict K V → Dict K V
  erase k [] = []
  erase k ((j, w) ∷ d) = if j == k then d else (j, w) ∷ erase k d

  abbrev pub IsMap : Dict K V → Type 0
  IsMap [] = Unit {0}
  IsMap ((k, _) ∷ d) = (lookup k d ≡ none) × IsMap d

  pub lookup-empty : (k : K) → lookup k [] ≡ none
  unfolding lookup
  lookup-empty k = refl

  pub lookup-insert :
      (k j : K) (v : V) (d : Dict K V)
      → lookup j (insert k v d) ≡ (if k == j then some v else lookup j d)
  unfolding lookup insert
  lookup-insert k j v [] = refl
  lookup-insert k j v ((i, w) ∷ d) =
      ground (arith, e.beq_iff k j, e.beq_iff i k, e.beq_iff i j, lookup-insert k j v d)

  pub lookup-insert_self : (k : K) (v : V) (d : Dict K V) → lookup k (insert k v d) ≡ some v
  lookup-insert_self k v d = ground (arith, lookup-insert k k v d, e.beq_iff k k)

  pub lookup-insert_ne :
      (k j : K) (v : V) (d : Dict K V) → k ≢ j → lookup j (insert k v d) ≡ lookup j d
  lookup-insert_ne k j v d h = ground (arith, lookup-insert k j v d, e.beq_iff k j)

  pub insert-IsMap : (k : K) (v : V) (d : Dict K V) → IsMap d → IsMap (insert k v d)
  unfolding lookup insert
  insert-IsMap k v [] h = (refl, tt)
  insert-IsMap k v ((i, w) ∷ d) h =
      ground (arith, insert-IsMap k v d h.1, lookup-insert k i v d, e.beq_iff k i, e.beq_iff i k)

  pub lookup-erase_ne : (k j : K) (d : Dict K V) → k ≢ j → lookup j (erase k d) ≡ lookup j d
  unfolding lookup erase
  lookup-erase_ne k j [] h = refl
  lookup-erase_ne k j ((i, w) ∷ d) h =
      ground (arith, e.beq_iff k j, e.beq_iff i k, e.beq_iff i j, lookup-erase_ne k j d h)

  pub lookup-erase_self : (k : K) (d : Dict K V) → IsMap d → lookup k (erase k d) ≡ none
  unfolding lookup erase
  lookup-erase_self k [] h = refl
  lookup-erase_self k ((i, w) ∷ d) h = ground (arith, e.beq_iff i k, lookup-erase_self k d h.1)

  pub lookup-erase :
      (k j : K) (d : Dict K V)
      → IsMap d
      → lookup j (erase k d) ≡ (if k == j then none else lookup j d)
  lookup-erase k j d h =
      ground (arith, e.beq_iff k j, lookup-erase_ne k j d, lookup-erase_self k d h)

  pub erase-IsMap : (k : K) (d : Dict K V) → IsMap d → IsMap (erase k d)
  unfolding lookup erase
  erase-IsMap k [] h = tt
  erase-IsMap k ((i, w) ∷ d) h =
      ground (arith, erase-IsMap k d h.1, lookup-erase_ne k i d, e.beq_iff i k)

  -- A write adds the weight of its value and takes away the weight of what was there.
  pub total-insert :
      (f : V → ℕ) (k : K) (v : V) (d : Dict K V)
      → total f (insert k v d) + weight f (lookup k d) ≡ total f d + f v
  unfolding lookup insert total
  total-insert f k v [] = omega arith
  total-insert f k v ((i, w) ∷ d) = ground (arith, total-insert f k v d)

  pub total-erase :
      (f : V → ℕ) (k : K) (d : Dict K V) → total f (erase k d) + weight f (lookup k d) ≡ total f d
  unfolding lookup erase total
  total-erase f k [] = omega arith
  total-erase f k ((i, w) ∷ d) = ground (arith, total-erase f k d)

  -- A value that is found weighs at most as much as the whole map.
  pub weight-le-total : (f : V → ℕ) (k : K) (d : Dict K V) → weight f (lookup k d) ≤ total f d
  weight-le-total f k d = omega (arith, total-erase f k d)

  -- A weight that is 0 at every value of a map has the total 0.
  pub total_zero :
      (f : V → ℕ) (d : Dict K V)
      → IsMap d
      → ((k : K) (v : V) → lookup k d ≡ some v → f v ≡ 0)
      → total f d ≡ 0
  unfolding lookup total
  total_zero f [] m h = refl
  total_zero f ((i, w) ∷ d) m h = ground (
    arith,
    h i w,
    e.beq_iff i i,
    total_zero f d m.1 (λ k v found. h k v (lookup-later i w d m.0 k v found)),
  )
    where
      lookup-later :
          (i : K) (w : V) (d : Dict K V)
          → lookup i d ≡ none
          → (k : K) (v : V) → lookup k d ≡ some v
          → lookup k ((i, w) ∷ d) ≡ some v
      lookup-later i w d fresh k v found = ground (arith, e.beq_iff i k)
