-- ===== src/Tests/Logs.antt =====
-- The event log and the fault rules on concrete data.
use cirrus_sim.Base.Format.{pad_unsigned}
use cirrus_sim.Tests.{counting}
use cirrus_sim.Base.{
  nat_eq, ◌<◌, ◌≤◌, true, ◌≡◌, ℕ, none, some, refl, arith, ◌++◌, ◌%◌, ◌+◌, take, true, ◌∷◌, false,
  drop, [], length, List, String, string_eq,
}
use cirrus_sim.Common.EventLog.{Event, Filter, EventLog, new_log, record_event, query}
use cirrus_sim.Common.Paging.{query_lem, query_pages, matching}
use cirrus_sim.Common.Fault.{
  Engine, Fault, FaultRule, check, match_target, to_result, count, delay, blank,
}
use cirrus_sim.Common.FaultLaws.{
  check-hits, check_all-count, check_all, to_result-delay, hits, fired_count,
}
use cirrus_sim.Base.Dict.{Dict, total}
use cirrus_sim.Base.Int64.{two64, add64, slt, sle, sub64}

abbrev event : Event
event = record {
  id = "";
  timestamp = 0;
  simulator = "libvirt";
  host_id = "host-1";
  operation = "define";
  request_summary = "";
  result = "ok";
  duration_ms = 3;
  fault_injected = false;
}

abbrev log : EventLog
log = record {
  events =
      record event { id = "evt-000001"; timestamp = 5 }
      ∷ record event { id = "evt-000002"; timestamp = 6; simulator = "storage" }
      ∷ record event { id = "evt-000003"; timestamp = 7 }
      ∷ [];
  counter = 3;
}

record_event-log :
    (record_event 7 event
      (record_event 6
        (record event { simulator = "storage" })
        (record_event 5 event new_log).1).1).1
    ≡ log
unfolding record_event pad_unsigned add64
record_event-log = refl

abbrev filter : Filter
filter = record {
  simulator = "libvirt";
  host_id = "";
  operation = "";
  after = none;
  limit = 1;
  offset = 1;
}

query-log : query filter log ≡ (record event { id = "evt-000003"; timestamp = 7 } ∷ [], 2)
unfolding query slt
query-log = refl

query_lem_example :
    query filter log ≡ (take 1 (drop 1 (matching filter log)), length (matching filter log))
query_lem_example = query_lem filter log (omega arith) (omega arith) (omega arith)

query_pages_example :
    (query (record filter { offset = 0; limit = 1 }) log).0
      ++ (query (record filter { offset = 1; limit = 2 }) log).0
    ≡ (query (record filter { offset = 0; limit = 3 }) log).0
query_pages_example = query_pages filter log 1 2 (omega arith) (omega arith) (omega arith)

abbrev slow_down : Fault
slow_down = record {
  kind = delay;
  error_code = 0;
  error_message = "";
  min_ms = 10;
  max_ms = 20;
  after_ms = 0;
  fail_percent = 0;
}

abbrev rule : FaultRule ℕ
rule = record {
  id = "fault-001";
  target = record { simulator = "libvirt"; host_id = ""; operation = "" };
  trigger = count 1 false;
  fault = slow_down;
  hit_count = 0;
  call_count = 0;
  created_at = 1;
}

abbrev engine : Engine counting
engine = record { rules = ("fault-001", rule) ∷ []; counter = 1; rng = 3 }

check-engine :
    (check counting "libvirt" "host-1" "define" 5 engine).0
    ≡ some (record (blank counting delay) { delay_ms = 13 })
unfolding check sle add64 slt sub64
check-engine = refl

check-hits_example :
    let (fired, e') = check counting "libvirt" "host-1" "define" 5 engine in
    total (hits counting) e'.rules % two64
    ≡ (total (hits counting) engine.rules + fired_count counting fired) % two64
check-hits_example = check-hits counting "libvirt" "host-1" "define" 5 engine

-- A rule that fires from its second call on, and three calls.
abbrev repeated : FaultRule ℕ
repeated = record rule { trigger = count 2 true }

abbrev three : List ℕ
three = 5 ∷ 6 ∷ 7 ∷ []

check_all-count_example :
    (rules' : Dict String (FaultRule ℕ)) × ((check_all counting "libvirt" "host-1" "define" three
        (record engine { rules = ("fault-001", repeated) ∷ [] })).rules
      ≡ ("fault-001", record repeated { call_count = 3; hit_count = 2 }) ∷ rules')
unfolding match_target
check_all-count_example =
    check_all-count counting "fault-001" "libvirt" "host-1" "define" 2 true three repeated []
      (record engine { rules = ("fault-001", repeated) ∷ [] }) refl refl refl (omega arith)
      (omega arith) (omega arith)

to_result-delay_example :
    let d = (to_result counting slow_down 3).0.delay_ms in
    (10 ≤ d) × (10 < 20 → d < 20) × (20 ≤ 10 → d ≡ 10)
to_result-delay_example = to_result-delay counting slow_down 3 refl (omega arith) (omega arith)
