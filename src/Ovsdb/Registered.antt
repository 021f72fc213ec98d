-- ===== src/Ovsdb/Registered.antt =====
-- What Register and Cancel of ovn-sim/internal/ovsdb/monitor.go do to the notices of a monitor.
use cirrus_sim.Base.{
  refl, string_eq, arith, String, ◌≡◌, Option-cases, keep_if, sym, none, inl, Bool-cases, some, inr,
  ◌==◌, ◌∙◌, List, [], ◌∷◌, Bool, true, ◌||◌, contains, if◌then◌else◌, Option, str_iff,
}
use cirrus_sim.Base.Dict.{
  Dict, lookup, insert, erase, IsMap, lookup-insert, lookup-insert_self, lookup-erase, insert-IsMap,
  erase-IsMap, lookup-empty,
}
use cirrus_sim.Ovsdb.Json.{Value}
use cirrus_sim.Ovsdb.RowLaws.{first_of}
use cirrus_sim.Ovsdb.Transact.{put_found, filter_columns}
use cirrus_sim.Ovsdb.Rows.{Row}
use cirrus_sim.Ovsdb.Store.{Store}
use cirrus_sim.Ovsdb.Monitor.{
  MonitorRequest, ClientMonitor, MonitorManager, notice_of, notify_insert, monitored, register,
  or_none, Notice,
}
use cirrus_sim.Ovsdb.Notices.{IsManaged, own_notices, is_for}

first_of-none : {A : Type 0} (o : Option A) → first_of o none ≡ o
first_of-none none = refl
first_of-none (some a) = refl

-- the registration that Register makes
abbrev registered : String → String → Dict String MonitorRequest → MonitorManager → MonitorManager
registered key monitor requests mm =
    insert key (insert monitor requests (or_none (lookup key mm))) mm

or_none-IsMap :
    (key : String) (mm : MonitorManager) → IsManaged mm → IsMap (or_none (lookup key mm))
or_none-IsMap key mm v = elim (Option-cases (lookup key mm)) [
  | inl missing ↦ rw missing tt
  | inr (regs, e) ↦ rw e (v.1 key regs e)
]

insert-IsManaged :
    (key : String) (regs : ClientMonitor) (mm : MonitorManager)
    → IsManaged mm
    → IsMap regs
    → IsManaged (insert key regs mm)
insert-IsManaged key regs mm v u = (
  insert-IsMap key regs mm v.0,
  (λ k r e. elim (Bool-cases (key == k)) [
    | inl same ↦ of_some (ground (arith, lookup-insert key k regs mm, same, e))
    | inr other ↦ v.1 k r (ground (arith, lookup-insert key k regs mm, other, e))
  ]),
)
  where
    of_some : {r : ClientMonitor} → regs ≡ r → IsMap r
    of_some e = rw (sym e) u

erase-IsManaged : (key : String) (mm : MonitorManager) → IsManaged mm → IsManaged (erase key mm)
erase-IsManaged key mm v =
    (erase-IsMap key mm v.0, (λ k r e. v.1 k r (ground (arith, lookup-erase key k mm v.0, e))))

registered-IsManaged :
    (key monitor : String) (requests : Dict String MonitorRequest) (mm : MonitorManager)
    → IsManaged mm
    → IsManaged (registered key monitor requests mm)
registered-IsManaged key monitor requests mm v =
    insert-IsManaged key (insert monitor requests (or_none (lookup key mm))) mm v
      (insert-IsMap monitor requests (or_none (lookup key mm)) (or_none-IsMap key mm v))

-- the columns that a request asks for; `_uuid` comes with any
abbrev pub asks : MonitorRequest → String → Bool
asks [] col = true
asks (k ∷ cols) col = contains (k ∷ cols) col || "_uuid" == col

module _ {Φ : Type 0} where
  register-state :
      (key monitor : String) (requests : Dict String MonitorRequest) (s : Store Φ)
      (mm : MonitorManager)
      → (register key monitor requests s mm).1 ≡ registered key monitor requests mm
  unfolding register
  register-state key monitor requests s mm = refl

  lookup-put_found :
      (k col : String) (row out : Row Φ)
      → lookup col (put_found k (lookup k row) out)
        ≡ (if k == col then first_of (lookup k row) (lookup col out) else lookup col out)
  lookup-put_found k col row out = elim (Option-cases (lookup k row)) [
    | inl missing ↦ ground (arith, missing)
    | inr (v, e) ↦ ground (arith, e, lookup-insert k col v out)
  ]

  lookup-filter_columns :
      (cols : List String) (row out : Row Φ) (col : String)
      → lookup col (filter_columns cols row out) ≡ (
          if contains cols col || "_uuid" == col
          then first_of (lookup col row) (lookup col out)
          else lookup col out)
  unfolding filter_columns
  lookup-filter_columns [] row out col =
      ground (arith, lookup-put_found "_uuid" col row out, str_iff "_uuid" col)
  lookup-filter_columns (k ∷ cols) row out col = ground (
    arith,
    lookup-filter_columns cols row (put_found k (lookup k row) out) col,
    lookup-put_found k col row out,
    str_iff k col,
  )

  lookup-monitored :
      (cols : MonitorRequest) (row : Row Φ) (col : String)
      → lookup col (monitored cols row) ≡ (if asks cols col then lookup col row else none)
  unfolding monitored
  lookup-monitored [] row col = refl
  lookup-monitored (k ∷ cols) row col = ground (
    arith,
    lookup-filter_columns (k ∷ cols) row [] col,
    lookup-empty {V = Value Φ} col,
    first_of-none (lookup col row),
  )

  module _ (key monitor table uuid : String) (row : Row Φ) where
    -- The notices tell of the row, in the columns of the request where there is one.
    abbrev pub Tells : Option MonitorRequest → List (Notice Φ) → Type 0
    Tells none notices = notices ≡ []
    Tells (some cols) notices =
        (shown : Row Φ) × (notices
          ≡ record {
            client = key;
            monitor = monitor;
            table = table;
            uuid = uuid;
            update = record { old = none; new = some shown };
          }
            ∷ [])
        × ((col : String) → lookup col shown ≡ (if asks cols col then lookup col row else none))

    Tells-notice_of :
        (o : Option MonitorRequest)
        → Tells o (
            notice_of key monitor table uuid
              (λ cols. record { old = none; new = some (monitored cols row) })
              o)
    Tells-notice_of none = refl
    Tells-notice_of (some cols) = (monitored cols row, refl, lookup-monitored cols row)

  notices-register :
      (key monitor : String) (requests : Dict String MonitorRequest) (s : Store Φ)
      (mm : MonitorManager) (table uuid : String) (row : Row Φ)
      → IsManaged mm
      → keep_if
          (is_for key monitor)
          (notify_insert table uuid row (register key monitor requests s mm).1)
        ≡ notice_of key monitor table uuid
            (λ cols. record { old = none; new = some (monitored cols row) })
            (lookup table requests)
  unfolding notify_insert
  notices-register key monitor requests s mm table uuid row v =
      let all = registered-IsManaged key monitor requests mm v in
      let regs = or_none (lookup key mm) in
      rw (register-state key monitor requests s mm) (
        own_notices key monitor table uuid
          (λ cols. record { old = none; new = some (monitored cols row) })
          (registered key monitor requests mm) all.0 all.1
        ∙ ground (
          arith,
          lookup-insert_self key (insert monitor requests regs) mm,
          lookup-insert_self monitor requests regs,
        ))

  -- After a Register, one that returns the error of an unknown table included, an insert into a table
  -- of its requests sends the monitor one notice, of the new row: it has the columns that the request
  -- asks for and `_uuid` with the row's values, all columns if the request names none, and no other
  -- column. An insert into another table sends the monitor nothing. Every client and every monitor was
  -- listed once.
  pub register-notices :
      (key monitor : String) (requests : Dict String MonitorRequest) (s : Store Φ)
      (mm : MonitorManager) (table uuid : String) (row : Row Φ)
      → IsManaged mm
      → Tells key monitor table uuid row (lookup table requests) (
          keep_if
            (is_for key monitor)
            (notify_insert table uuid row (register key monitor requests s mm).1))
  register-notices key monitor requests s mm table uuid row v =
      rw (notices-register key monitor requests s mm table uuid row v)
        (Tells-notice_of key monitor table uuid row (lookup table requests))
