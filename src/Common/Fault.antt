-- ===== src/Common/Fault.antt =====
-- common/pkg/fault/fault.go: the rules that inject faults, and the check that each API call makes.
-- The random source is a parameter; the map of rules is met in the order of the list, where Go's order
-- is not fixed.
use cirrus_sim.Base.{
  nat_eq, [], ◌∷◌, ℕ, String, Bool, if◌then◌else◌, ◌==◌, Option, ◌<◌, none, ◌||◌, true, ◌&&◌, false,
  some, string_eq,
}
use Prim.Native.String.{◌++◌ as append}
use cirrus_sim.Base.Int64.{Int64, slt, sle, add64, sub64, mul64}
use cirrus_sim.Base.Dict.{Dict, lookup, insert, erase}
use cirrus_sim.Base.Format.{pad}

-- `math/rand`: the test `rng.Float64() < p`, and `rng.Intn(n)`, which is below `n`.
pub record Rng : Type 1 where
  pub Source : Type 0
  pub Probability : Type 0
  pub float_lt : Source → Probability → Bool × Source
  pub intn : Source → ℕ → ℕ × Source
  pub intn-lt : (r : Source) (n : ℕ) → 0 < n → (intn r n).0 < n

pub data FaultType : Type 0 where
  error delay timeout partial_failure : FaultType
  unknown : String → FaultType

pub record Target : Type 0 where
  pub simulator : String
  pub host_id : String
  pub operation : String

-- A trigger by its type, with the fields that its type reads; `activate_at` may be nil.
pub data Trigger (P : Type 0) : Type 0 where
  probabilistic : P → Trigger P
  count : Int64 → Bool → Trigger P
  time : Option Int64 → Int64 → Trigger P
  unknown : String → Trigger P

pub record Fault : Type 0 where
  pub kind : FaultType
  pub error_code : Int64
  pub error_message : String
  pub min_ms : Int64
  pub max_ms : Int64
  pub after_ms : Int64
  pub fail_percent : Int64

pub record FaultRule (P : Type 0) : Type 0 where
  pub id : String
  pub target : Target
  pub trigger : Trigger P
  pub fault : Fault
  pub hit_count : Int64
  pub call_count : Int64
  pub created_at : Int64

pub record FaultResult : Type 0 where
  pub kind : FaultType
  pub error_code : Int64
  pub error_message : String
  pub delay_ms : Int64
  pub timeout_ms : Int64
  pub fail_percent : Int64

unfoldable pub match_target : Target → String → String → String → Bool
match_target t simulator host_id operation =
    (t.simulator == "" || t.simulator == simulator)
    && (t.host_id == "" || t.host_id == host_id)
    && (t.operation == "" || t.operation == operation)

module _ (G : Rng) where
  open G use {Source, Probability, float_lt, intn}

  pub record Engine : Type 0 where
    pub rules : Dict String (FaultRule Probability)
    pub counter : Int64
    pub rng : Source

  unfoldable pub add_rule : FaultRule Probability → Int64 → Engine → String × Engine
  add_rule rule now e =
      let n = add64 e.counter 1 in
      let id = append "fault-" (pad 3 n) in
      (
        id,
        record e {
          rules = insert id (record rule { id = id; created_at = now; hit_count = 0 }) e.rules;
          counter = n;
        },
      )

  -- `false` stands for "rule not found"
  unfoldable pub delete_rule : String → Engine → Bool × Engine
  delete_rule id e = elim (lookup id e.rules) [
    | none ↦ (false, e)
    | some rule ↦ (true, record e { rules = erase id e.rules })
  ]

  unfoldable pub clear_rules : Engine → Engine
  clear_rules e = record e { rules = [] }

  -- The end of the window is computed by `start.Add`, in nanoseconds.
  unfoldable pub should_trigger : Trigger Probability → Int64 → Int64 → Source → Bool × Source
  should_trigger (probabilistic p) calls now rng = float_lt rng p
  should_trigger (count after_count repeat) calls now rng = (
    if sle after_count calls then (if calls == after_count then true else repeat) else false,
    rng,
  )
  should_trigger (time none duration) calls now rng = (false, rng)
  should_trigger (time (some start) duration) calls now rng =
      (slt start now && slt now (add64 start (mul64 duration 1000000000)), rng)
  should_trigger (unknown kind) calls now rng = (false, rng)

  abbrev pub blank : FaultType → FaultResult
  blank kind = record {
    kind = kind;
    error_code = 0;
    error_message = "";
    delay_ms = 0;
    timeout_ms = 0;
    fail_percent = 0;
  }

  -- `toResult`, by the fault's type
  unfoldable pub result_of : FaultType → Fault → Source → FaultResult × Source
  result_of error f rng =
      (record (blank error) { error_code = f.error_code; error_message = f.error_message }, rng)
  result_of delay f rng =
      if slt f.min_ms f.max_ms
      then (let (k, rng') = intn rng (sub64 f.max_ms f.min_ms) in
          (record (blank delay) { delay_ms = add64 f.min_ms k }, rng'))
      else (record (blank delay) { delay_ms = f.min_ms }, rng)
  result_of timeout f rng = (record (blank timeout) { timeout_ms = f.after_ms }, rng)
  result_of partial_failure f rng =
      (record (blank partial_failure) { fail_percent = f.fail_percent }, rng)
  result_of (unknown kind) f rng = (blank (unknown kind), rng)

  unfoldable pub to_result : Fault → Source → FaultResult × Source
  unfolding result_of
  to_result f rng = result_of f.kind f rng

  -- The loop of `Check`: the rules as it leaves them, the first fault that fires, the random source.
  unfoldable pub check_rules :
      Dict String (FaultRule Probability) → String → String → String → Int64 → Source → record {
        rules : Dict String (FaultRule Probability);
        fired : Option FaultResult;
        rng : Source;
      }
  unfolding match_target should_trigger to_result
  check_rules [] simulator host_id operation now rng = record {
    rules = [];
    fired = none;
    rng = rng;
  }
  check_rules ((id, rule) ∷ rules) simulator host_id operation now rng =
      let called = record rule { call_count = add64 rule.call_count 1 } in
      let (fires, rng') = should_trigger rule.trigger called.call_count now rng in
      let (result, rng'') = to_result rule.fault rng' in
      let skipped = check_rules rules simulator host_id operation now rng in
      let missed = check_rules rules simulator host_id operation now rng' in
      if match_target rule.target simulator host_id operation
      then (if fires
          then record {
            rules = (id, record called { hit_count = add64 called.hit_count 1 }) ∷ rules;
            fired = some result;
            rng = rng'';
          }
          else record {
            rules = (id, called) ∷ missed.rules;
            fired = missed.fired;
            rng = missed.rng;
          })
      else record { rules = (id, rule) ∷ skipped.rules; fired = skipped.fired; rng = skipped.rng }

  unfoldable pub check : String → String → String → Int64 → Engine → Option FaultResult × Engine
  unfolding check_rules
  check simulator host_id operation now e =
      let r = check_rules e.rules simulator host_id operation now e.rng in
      (r.fired, record e { rules = r.rules; rng = r.rng })
