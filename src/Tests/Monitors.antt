-- ===== src/Tests/Monitors.antt =====
-- The monitors of the OVSDB server on concrete data.
use cirrus_sim.Base.{refl, ℕ, [], ◌∷◌, string_eq, arith, ◌≡◌, keep_if, String}
use cirrus_sim.Base.Dict.{lookup, Dict}
use cirrus_sim.Ovsdb.Json.{str}
use cirrus_sim.Ovsdb.Rows.{Row}
use cirrus_sim.Ovsdb.Store.{Store}
use cirrus_sim.Ovsdb.Monitor.{MonitorManager, MonitorRequest, notify_insert, register, no_table}
use cirrus_sim.Ovsdb.Notices.{IsManaged, is_for}
use cirrus_sim.Ovsdb.Registered.{register-notices, Tells}
use cirrus_sim.Base.Exec.{err}

abbrev store : Store ℕ
store = record { tables = ("Port", []) ∷ [] }

abbrev requests : Dict String MonitorRequest
requests = ("Port", "name" ∷ []) ∷ ("Missing", []) ∷ []

abbrev manager : MonitorManager
manager = ("client-1", ("m1", ("Port", []) ∷ []) ∷ []) ∷ []

manager-IsManaged : IsManaged manager
unfolding lookup
manager-IsManaged = ((refl, tt), (λ k regs e. ground arith))

refused : (register "client-2" "m2" requests store manager).0 ≡ err (no_table "Missing")
unfolding register lookup
refused = refl

abbrev row : Row ℕ
row = ("name", str "p1") ∷ ("tag", str "x") ∷ []

register-notices_example : Tells "client-2" "m2" "Port" "u1" row (lookup "Port" requests) (
    keep_if
      (is_for "client-2" "m2")
      (notify_insert "Port" "u1" row (register "client-2" "m2" requests store manager).1))
register-notices_example =
    register-notices "client-2" "m2" requests store manager "Port" "u1" row manager-IsManaged
