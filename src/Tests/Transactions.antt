-- ===== src/Tests/Transactions.antt =====
-- The OVSDB server on concrete data, with `float64` as natural numbers.
use cirrus_sim.Base.{
  refl, ℕ, [], ◌∷◌, string_eq, length, List, ltb, String, ◌≡◌, not, some, ◌==◌, false, ◌+◌, true,
  ◌-◌, ◌*◌, ◌/◌, nat_eq,
}
use cirrus_sim.Ovsdb.Json.{GoValues, Value, str, nil, cons, set_of}
use cirrus_sim.Ovsdb.Rows.{Row, match_where, meets, column}
use cirrus_sim.Ovsdb.Mutations.{unknown_operation, apply_mutation}
use cirrus_sim.Ovsdb.Store.{Store, Table, select, delete, update, get_row, matching}
use cirrus_sim.Ovsdb.Transact.{TransactOp, transact, undone, blank, failed, absent, OpResult}
use cirrus_sim.Ovsdb.Atomic.{transact_atomic}
use cirrus_sim.Ovsdb.Results.{answers, length-transact}
use cirrus_sim.Ovsdb.RowLaws.{delete-select, get_row-delete, get_row-update, spared, Updated}
use cirrus_sim.Ovsdb.SetLaws.{condition, meets-not_equal, includes-insert, includes-delete}
use cirrus_sim.Base.Dict.{lookup, IsMap, insert}
use cirrus_sim.Base.Exec.{ok}

abbrev text_of_value : Value ℕ → String
text_of_value (str s) = s
text_of_value v = ""

abbrev plain : GoValues
plain = record {
  Float = ℕ;
  float_lt = ltb;
  is_zero = λ n. n == 0;
  add = λ a b. a + b;
  sub = λ a b. a - b;
  mul = λ a b. a * b;
  div = λ a b. a / b;
  to_int64 = λ n. n;
  of_int64 = λ n. n;
  show = text_of_value;
}

abbrev port : String → Row ℕ
port name = ("name", str name) ∷ ("tags", set_of (cons (str "a") (cons (str "b") nil))) ∷ []

abbrev ports : Table ℕ
ports = ("u1", port "p1") ∷ ("u2", port "p2") ∷ []

abbrev store : Store ℕ
store = record { tables = ("Port", ports) ∷ ("Switch", []) ∷ [] }

abbrev named : String → List (Value ℕ)
named name = condition plain "name" "==" (str name) ∷ []

abbrev operation : String → TransactOp ℕ
operation op = record {
  op = op;
  table = "Port";
  row = ("name", str "p3") ∷ [];
  where_conditions = named "p1";
  uuid_name = "";
  mutations = [];
  columns = [];
}

abbrev uuid_for : ℕ → String
uuid_for i = "u9"

abbrev operations : List (TransactOp ℕ)
operations = operation "insert" ∷ operation "delete" ∷ operation "drop" ∷ operation "select" ∷ []

failing :
    (transact plain uuid_for operations store).0
    ≡ undone (blank ∷ blank ∷ failed (unknown_operation "drop") ∷ absent ∷ [])
unfolding transact lookup insert
failing = refl

transact_atomic_example :
    lookup "Port" (transact plain uuid_for operations store).1.tables ≡ lookup "Port" store.tables
transact_atomic_example =
    transact_atomic plain uuid_for operations store
      (blank ∷ blank ∷ failed (unknown_operation "drop") ∷ absent ∷ []) failing "Port"

answered :
    answers plain (transact plain uuid_for operations store).0
    ≡ some (blank ∷ blank ∷ failed (unknown_operation "drop") ∷ absent ∷ [])
unfolding transact lookup insert
answered = refl

length-transact_example :
    length {A = OpResult ℕ} (blank ∷ blank ∷ failed (unknown_operation "drop") ∷ absent ∷ [])
    ≡ length operations
length-transact_example =
    length-transact plain uuid_for operations store
      (blank ∷ blank ∷ failed (unknown_operation "drop") ∷ absent ∷ []) answered

selected : (select plain "Port" (named "p1") store).0 ≡ ok (port "p1" ∷ [])
unfolding select lookup match_where
selected = refl

delete-select_example :
    ((delete plain "Port" (named "p1") store).0 ≡ ok 1)
    × ((select plain "Port" (named "p1") (delete plain "Port" (named "p1") store).1).0 ≡ ok [])
delete-select_example = delete-select plain "Port" (named "p1") store (port "p1" ∷ []) selected

found : lookup "Port" store.tables ≡ some ports
unfolding lookup
found = refl

ports-IsMap : IsMap ports
unfolding lookup
ports-IsMap = (refl, (refl, tt))

get_row-delete_example :
    get_row "Port" "u1" (delete plain "Port" (named "p1") store).1
    ≡ spared plain (named "p1") (lookup "u1" ports)
get_row-delete_example =
    get_row-delete plain "Port" (named "p1") store ports "Port" "u1" found ports-IsMap

port-IsMap : IsMap (port "p3")
unfolding lookup
port-IsMap = (refl, (refl, tt))

get_row-update_example :
    ((update plain "Port" (named "p2") (port "p3") store).0
      ≡ ok (length (matching plain (named "p2") ports)))
    × Updated plain
        (λ row. match_where plain row (named "p2"))
        (port "p3")
        (some (port "p2"))
        (get_row "Port" "u2" (update plain "Port" (named "p2") (port "p3") store).1)
unfolding get_row lookup
get_row-update_example =
    get_row-update plain "Port" (named "p2") (port "p3") store ports "Port" "u2" found port-IsMap

meets-not_equal_example :
    meets plain (port "p1") (condition plain "name" "!=" (str "p1"))
    ≡ not (meets plain (port "p1") (condition plain "name" "==" (str "p1")))
meets-not_equal_example = meets-not_equal plain (port "p1") "name" (str "p1")

includes-insert_example :
    (row' : Row ℕ) × (apply_mutation plain (port "p1") "tags" "insert" (str "c") ≡ ok row')
    × (meets plain row' (condition plain "tags" "includes" (str "c")) ≡ true)
includes-insert_example = includes-insert plain (port "p1") "tags" (str "c")

tagged_with : column (port "p1") "tags" ≡ set_of (cons (str "a") (cons (str "b") nil))
unfolding column lookup
tagged_with = refl

includes-delete_example :
    (row' : Row ℕ) × (apply_mutation plain (port "p1") "tags" "delete" (str "b") ≡ ok row')
    × (meets plain row' (condition plain "tags" "includes" (str "b")) ≡ false)
includes-delete_example =
    includes-delete plain (port "p1") "tags" (cons (str "a") (cons (str "b") nil)) (str "b")
      tagged_with
