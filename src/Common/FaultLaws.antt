-- ===== src/Common/FaultLaws.antt =====
-- What `Check` of common/pkg/fault/fault.go does to the rules.
use cirrus_sim.Base.{
  nat_eq, [], ◌∷◌, ℕ, ◌+◌, ◌%◌, ◌≡◌, refl, Option, String, some, Bool, none, ◌<◌, ◌≤◌,
  if◌then◌else◌, ◌==◌, true, ltb, leb, ◌&&◌, ◌||◌, suc, length, ◌∙◌, false, arith, List, ◌-◌,
  Bool-cases, inl, inr,
}
use cirrus_sim.Common.Fault.{
  Rng, FaultRule, check_rules, should_trigger, check, to_result, FaultResult, Engine, Fault, delay,
  count, match_target,
}
use cirrus_sim.Base.Dict.{total, Dict}
use cirrus_sim.Base.Int64.{Int64, sub64, add64, two64, two63, sle-of_small, slt-of_small}

-- how often a rule fires that triggers on the count `k`, at the `n` calls after the first `c`
abbrev pub fires : ℕ → Bool → ℕ → ℕ → ℕ
fires k true c n = if ltb c k then c + n + 1 - k else n
fires k false c n = if ltb c k && leb k (c + n) then 1 else 0

abbrev fired_at : ℕ → Bool → ℕ → ℕ
fired_at k repeat m = if m == k || (ltb k m && repeat) then 1 else 0

-- one call more
fires-suc :
    (k c n : ℕ) (repeat : Bool)
    → fires k repeat c (suc n) ≡ fired_at k repeat (c + 1) + fires k repeat (c + 1) n
fires-suc k c n true = ground arith
fires-suc k c n false = ground arith

module _ (G : Rng) where
  open G use {Source, Probability, float_lt, intn, intn-lt}

  abbrev pub hits : FaultRule Probability → ℕ
  hits r = r.hit_count

  abbrev pub fired_count : Option FaultResult → ℕ
  fired_count none = 0
  fired_count (some r) = 1

  check_rules-hits :
      (rules : Dict String (FaultRule Probability)) (simulator host_id operation : String)
      (now : Int64) (rng : Source)
      → let r = check_rules G rules simulator host_id operation now rng in
        total hits r.rules % two64 ≡ (total hits rules + fired_count r.fired) % two64
  unfolding check_rules total add64
  check_rules-hits [] simulator host_id operation now rng = refl
  check_rules-hits ((id, rule) ∷ rules) simulator host_id operation now rng = ground (
    arith,
    check_rules-hits rules simulator host_id operation now rng,
    check_rules-hits rules simulator host_id operation now
        (should_trigger G rule.trigger (add64 rule.call_count 1) now rng).1,
  )

  -- A check raises the sum of the rules' hit counts by one if it returns a fault, and leaves it
  -- otherwise, as an `int64` value, whatever the order in which the rules are met.
  pub check-hits :
      (simulator host_id operation : String) (now : Int64) (e : Engine G)
      → let (fired, e') = check G simulator host_id operation now e in
        total hits e'.rules % two64 ≡ (total hits e.rules + fired_count fired) % two64
  unfolding check
  check-hits simulator host_id operation now e =
      check_rules-hits e.rules simulator host_id operation now e.rng

  should_trigger-count :
      (k calls now : Int64) (repeat : Bool) (rng : Source)
      → k < two63
      → calls < two63
      → (should_trigger G (count k repeat) calls now rng).0
        ≡ (if calls == k then true else ltb k calls && repeat)
  unfolding should_trigger
  should_trigger-count k calls now repeat rng hk hc = ground (arith, sle-of_small k calls)

  -- the calls of `Check` for one operation, one for each time
  abbrev pub check_all : String → String → String → List Int64 → Engine G → Engine G
  check_all simulator host_id operation [] e = e
  check_all simulator host_id operation (now ∷ nows) e =
      check_all simulator host_id operation nows (check G simulator host_id operation now e).1

  check-first :
      (id simulator host_id operation : String) (now : Int64) (rule : FaultRule Probability)
      (rules : Dict String (FaultRule Probability)) (e : Engine G)
      → e.rules ≡ (id, rule) ∷ rules
      → match_target rule.target simulator host_id operation ≡ true
      → let fires = (should_trigger G rule.trigger (add64 rule.call_count 1) now e.rng).0 in
        (rules' : Dict String (FaultRule Probability)) × ((check G simulator host_id operation now
            e).1.rules
          ≡ (
            id,
            record rule {
              call_count = add64 rule.call_count 1;
              hit_count = if fires then add64 rule.hit_count 1 else rule.hit_count;
            },
          )
            ∷ rules')
  unfolding check check_rules
  check-first id simulator host_id operation now rule rules e first matches =
      elim (Bool-cases (should_trigger G rule.trigger (add64 rule.call_count 1) now e.rng).0) [
        | inl fired ↦ (rules, ground (arith, first, matches, fired))
        | inr skipped ↦ (
          (check_rules G rules simulator host_id operation now
              (should_trigger G rule.trigger (add64 rule.call_count 1) now e.rng).1).rules,
          ground (arith, first, matches, skipped),
        )
      ]

  check-counted :
      (id simulator host_id operation : String) (k : Int64) (repeat : Bool) (now : Int64)
      (rule : FaultRule Probability) (rules : Dict String (FaultRule Probability)) (e : Engine G)
      → e.rules ≡ (id, rule) ∷ rules
      → rule.trigger ≡ count k repeat
      → match_target rule.target simulator host_id operation ≡ true
      → k < two63
      → rule.call_count + 1 < two63
      → rule.hit_count + 1 < two63
      → (rules' : Dict String (FaultRule Probability)) × ((check G simulator host_id operation now
            e).1.rules
          ≡ (
            id,
            record rule {
              call_count = rule.call_count + 1;
              hit_count = rule.hit_count + fired_at k repeat (rule.call_count + 1);
            },
          )
            ∷ rules')
  unfolding add64
  check-counted id simulator host_id operation k repeat now rule rules e first tr m hk hc hh =
      let (rest, stepped) = check-first id simulator host_id operation now rule rules e first m in
      (
        rest,
        stepped ∙ ground (arith, tr, should_trigger-count k (rule.call_count + 1) now repeat e.rng),
      )

  -- A rule that triggers on the count `k`, that is met first, and whose target fits the operation:
  -- after any number of checks of that operation it has counted them all, and has fired at the call
  -- that its call count makes the `k`th, if that is among them, at each later one if it repeats, and
  -- at no other. Neither `k` nor a count is negative or passes the largest `int64`.
  pub check_all-count :
      (id simulator host_id operation : String) (k : Int64) (repeat : Bool) (nows : List Int64)
      (rule : FaultRule Probability) (rules : Dict String (FaultRule Probability)) (e : Engine G)
      → e.rules ≡ (id, rule) ∷ rules
      → rule.trigger ≡ count k repeat
      → match_target rule.target simulator host_id operation ≡ true
      → k < two63
      → rule.call_count + length nows < two63
      → rule.hit_count + length nows < two63
      → (rules' : Dict String (FaultRule Probability)) × ((check_all simulator host_id operation
            nows e).rules
          ≡ (
            id,
            record rule {
              call_count = rule.call_count + length nows;
              hit_count = rule.hit_count + fires k repeat rule.call_count (length nows);
            },
          )
            ∷ rules')
  check_all-count id simulator host_id operation k repeat [] rule rules e first tr m hk hc hh =
      (rules, first ∙ ground arith)
  check_all-count id simulator host_id operation k repeat (now ∷ nows) rule rules e first tr m hk hc
        hh =
      let n = length nows in
      let c = rule.call_count in
      let (rest, stepped) =
        check-counted id simulator host_id operation k repeat now rule rules e first tr m hk
          (omega arith) (omega arith) in
      let (rest', done) =
        check_all-count id simulator host_id operation k repeat nows
          (record rule {
            call_count = c + 1;
            hit_count = rule.hit_count + fired_at k repeat (c + 1);
          })
          rest (check G simulator host_id operation now e).1 stepped tr m hk (omega arith)
          (ground arith) in
      (rest', done ∙ ground (arith, fires-suc k c n repeat))

  -- A delay fault whose bounds are not negative lasts at least the lower bound; it lasts less than the
  -- upper bound if that is larger, and exactly the lower bound otherwise.
  pub to_result-delay :
      (f : Fault) (rng : Source)
      → f.kind ≡ delay
      → f.min_ms < two63
      → f.max_ms < two63
      → let d = (to_result G f rng).0.delay_ms in
        (f.min_ms ≤ d) × (f.min_ms < f.max_ms → d < f.max_ms) × (f.max_ms ≤ f.min_ms → d ≡ f.min_ms)
  unfolding to_result sub64 add64
  to_result-delay f rng e hl hu =
      rw e (
        ground (arith, slt-of_small f.min_ms f.max_ms hl hu, intn-lt rng (sub64 f.max_ms f.min_ms)))
