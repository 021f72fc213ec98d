-- ===== src/Common/EventLog.antt =====
-- common/pkg/eventlog/eventlog.go. A limit and an offset are `int`s, as 64-bit patterns; one that is
-- positive is its own pattern, and only such a one is compared with a length.
use cirrus_sim.Base.{
  ◌++◌, nat_eq, [], ◌∷◌, ℕ, String, List, Bool, if◌then◌else◌, Option, ◌==◌, keep_if, ◌||◌, drop,
  ◌&&◌, ltb, leb, none, length, true, take, some, string_eq,
}
use Prim.Native.String.{◌++◌ as append}
use cirrus_sim.Base.Int64.{Int64, add64, slt}
use cirrus_sim.Base.Format.{pad_unsigned}

pub record Event : Type 0 where
  pub id : String
  pub timestamp : Int64
  pub simulator : String
  pub host_id : String
  pub operation : String
  pub request_summary : String
  pub result : String
  pub duration_ms : Int64
  pub fault_injected : Bool

-- `after` is `none` for Go's zero time.
pub record Filter : Type 0 where
  pub simulator : String
  pub host_id : String
  pub operation : String
  pub after : Option Int64
  pub limit : Int64
  pub offset : Int64

-- `counter` is a `uint64`.
pub record EventLog : Type 0 where
  pub events : List Event
  pub counter : ℕ

abbrev pub new_log : EventLog
new_log = record { events = []; counter = 0 }

-- `fmt.Sprintf("evt-%06d", n)`
unfoldable pub event_id : ℕ → String
event_id n = append "evt-" (pad_unsigned 6 n)

unfoldable pub record_event : Int64 → Event → EventLog → String × EventLog
unfolding event_id
record_event now e l =
    let n = add64 l.counter 1 in
    (
      event_id n,
      record {
        events = l.events ++ (record e { id = event_id n; timestamp = now }) ∷ [];
        counter = n;
      },
    )

-- the four tests of the loop in `Query`, each of which passes on an empty filter
unfoldable pub passes : Filter → Event → Bool
passes f e =
    (f.simulator == "" || e.simulator == f.simulator)
    && (f.host_id == "" || e.host_id == f.host_id)
    && (f.operation == "" || e.operation == f.operation)
    && (elim f.after [ none ↦ true | some t ↦ slt t e.timestamp ])

-- the pagination; `offset > 0` and `limit > 0` are tests of signed numbers
unfoldable pub page : Int64 → Int64 → List Event → List Event
page offset limit matched =
    let rest = if slt 0 offset then drop offset matched else matched in
    if slt 0 limit && ltb limit (length rest) then take limit rest else rest

-- `if filter.Offset >= len(matched) { return []Event{}, total }` comes before the limit.
unfoldable pub query : Filter → EventLog → List Event × ℕ
unfolding passes page
query f l =
    let matched = keep_if (passes f) l.events in
    if slt 0 f.offset && leb (length matched) f.offset
    then ([], length matched)
    else (page f.offset f.limit matched, length matched)

unfoldable pub clear : EventLog → EventLog
clear l = record { events = []; counter = 0 }
