-- ===== src/Ovsdb/Monitor.antt =====
-- ovn-sim/internal/ovsdb/monitor.go: the monitors of the clients, and the notices that they are sent. A
-- notice that cannot be sent is only logged, so that the notices are an answer here. The clients' and
-- the monitors' order is that of the lists, where Go's is not fixed.
use cirrus_sim.Base.{
  [], ◌∷◌, ◌++◌, string_eq, Option, List, String, if◌then◌else◌, none, some, leb, length,
}
use cirrus_sim.Base.Dict.{Dict, lookup, insert, erase}
use cirrus_sim.Base.Exec.{Exec, Result, ok, err, ◌>>=◌, ◌>>◌, gets, or_raise, modify}
use cirrus_sim.Ovsdb.Rows.{Row}
use cirrus_sim.Ovsdb.Store.{Store, Table}
use cirrus_sim.Ovsdb.Transact.{filter_columns}

-- the columns that are asked for, none for all
abbrev pub MonitorRequest : Type 0
MonitorRequest = List String

-- the tables of a monitor, which has its ID as its key
abbrev pub MonitorRegistration : Type 0
MonitorRegistration = Dict String MonitorRequest

-- `clientMonitor` less the notifier: the notices name the client
abbrev pub ClientMonitor : Type 0
ClientMonitor = Dict String MonitorRegistration

abbrev pub MonitorManager : Type 0
MonitorManager = Dict String ClientMonitor

-- `UpdateNotification`
pub record RowUpdate (Φ : Type 0) : Type 0 where
  pub old : Option (Row Φ)
  pub new : Option (Row Φ)

pub record Notice (Φ : Type 0) : Type 0 where
  pub client : String
  pub monitor : String
  pub table : String
  pub uuid : String
  pub update : RowUpdate Φ

pub data MonitorError : Type 0 where
  no_table : String → MonitorError
  unknown_client unknown_monitor : String → MonitorError

abbrev pub or_none : Option ClientMonitor → ClientMonitor
or_none none = []
or_none (some regs) = regs

unfoldable pub remove_client : String → MonitorManager → MonitorManager
remove_client key mm = erase key mm

unfoldable pub cancel : String → String → Exec MonitorError MonitorManager (Unit {0})
cancel key monitor = do
  found ← gets (λ mm. lookup key mm)
  regs ← or_raise found (unknown_client key)
  reg ← or_raise (lookup monitor regs) (unknown_monitor monitor)
  let regs' : ClientMonitor = erase monitor regs
  modify (λ mm. if leb (length regs') 0 then erase key mm else insert key regs' mm)

module _ {Φ : Type 0} where
  -- `filterColumns`
  unfoldable pub monitored : MonitorRequest → Row Φ → Row Φ
  unfolding filter_columns
  monitored [] row = row
  monitored (col ∷ cols) row = filter_columns (col ∷ cols) row []

  unfoldable pub dump_rows : MonitorRequest → Table Φ → Dict String (RowUpdate Φ)
  unfolding monitored
  dump_rows cols [] = []
  dump_rows cols ((uuid, row) ∷ t) =
      (uuid, record { old = none; new = some (monitored cols row) }) ∷ dump_rows cols t

  -- a table without rows is left out of the dump
  abbrev pub add_dump :
      String
      → Dict String (RowUpdate Φ)
      → Result MonitorError (Dict String (Dict String (RowUpdate Φ)))
      → Result MonitorError (Dict String (Dict String (RowUpdate Φ)))
  add_dump table [] rest = rest
  add_dump table (u ∷ us) (ok dump) = ok ((table, u ∷ us) ∷ dump)
  add_dump table (u ∷ us) (err e) = err e

  -- the loop over the requests in `Register`
  unfoldable pub initial_dump :
      Dict String MonitorRequest
      → Store Φ
      → Result MonitorError (Dict String (Dict String (RowUpdate Φ)))
  unfolding dump_rows
  initial_dump [] s = ok []
  initial_dump ((table, cols) ∷ reqs) s =
      let rest = initial_dump reqs s in
      elim (lookup table s.tables) [
        | none ↦ err (no_table table)
        | some rows ↦ add_dump table (dump_rows cols rows) rest
      ]

  -- `Register`: the monitor is entered before its tables are looked up
  unfoldable pub register :
      String
      → String
      → Dict String MonitorRequest
      → Store Φ
      → Exec MonitorError MonitorManager (Dict String (Dict String (RowUpdate Φ)))
  unfolding initial_dump
  register key monitor requests s = do
    known ← gets (λ mm. or_none (lookup key mm))
    modify (insert key (insert monitor requests known))
    (λ mm. (initial_dump requests s, mm))

  -- what one monitor is sent of a change in a table
  abbrev pub notice_of :
      String
      → String
      → String
      → String
      → (MonitorRequest → RowUpdate Φ)
      → Option MonitorRequest
      → List (Notice Φ)
  notice_of client monitor table uuid update none = []
  notice_of client monitor table uuid update (some cols) =
      record {
        client = client;
        monitor = monitor;
        table = table;
        uuid = uuid;
        update = update cols;
      }
      ∷ []

  -- the loops of the three methods that notify
  unfoldable pub notify_client :
      String → String → String → (MonitorRequest → RowUpdate Φ) → ClientMonitor → List (Notice Φ)
  notify_client client table uuid update [] = []
  notify_client client table uuid update ((monitor, reg) ∷ regs) =
      notice_of client monitor table uuid update (lookup table reg)
      ++ notify_client client table uuid update regs

  unfoldable pub notify :
      String → String → (MonitorRequest → RowUpdate Φ) → MonitorManager → List (Notice Φ)
  unfolding notify_client
  notify table uuid update [] = []
  notify table uuid update ((client, regs) ∷ mm) =
      notify_client client table uuid update regs ++ notify table uuid update mm

  unfoldable pub notify_insert : String → String → Row Φ → MonitorManager → List (Notice Φ)
  unfolding notify monitored
  notify_insert table uuid row =
      notify table uuid (λ cols. record { old = none; new = some (monitored cols row) })

  unfoldable pub notify_update : String → String → Row Φ → Row Φ → MonitorManager → List (Notice Φ)
  unfolding notify monitored
  notify_update table uuid old new =
      notify table uuid
        (λ cols. record { old = some (monitored cols old); new = some (monitored cols new) })

  unfoldable pub notify_delete : String → String → Row Φ → MonitorManager → List (Notice Φ)
  unfolding notify monitored
  notify_delete table uuid row =
      notify table uuid (λ cols. record { old = some (monitored cols row); new = none })
