-- ===== src/Ovsdb/Transact.antt =====
-- ovn-sim/internal/ovsdb/transact.go: a list of operations on the store, all or none of which take
-- effect. `uuid.New()` enters as the function `fresh`, from the index of the operation.
use cirrus_sim.Base.{
  ℕ, ◌-◌, String, List, [], ◌∷◌, ◌++◌, if◌then◌else◌, ◌==◌, Option, none, some, length, suc,
  is_some, string_eq, leb,
}
use cirrus_sim.Base.Dict.{Dict, lookup, insert}
use cirrus_sim.Base.Exec.{ok, err, Exec, ◌>>=◌, pure, gets, raise, Result}
use cirrus_sim.Ovsdb.Json.{GoValues, Value, str, arr, nil, cons}
use cirrus_sim.Ovsdb.Rows.{Row}
use cirrus_sim.Ovsdb.Mutations.{Error, unknown_operation, is_panic}
use cirrus_sim.Ovsdb.Store.{Store, Table, insert_row, get_row, select, update, delete, mutate}
use cirrus_sim.Base.ListLaws.{replicate}
use cirrus_sim.Ovsdb.Named.{resolve_row, resolve_where}

-- A `nil` map, list or string reads as an empty one, as in the source.
pub record TransactOp (Φ : Type 0) : Type 0 where
  pub op : String
  pub table : String
  pub row : Row Φ
  pub where_conditions : List (Value Φ)
  pub uuid_name : String
  pub mutations : List (Value Φ)
  pub columns : List String

pub data ChangeType : Type 0 where
  inserted updated deleted : ChangeType

-- A row that is `nil` is `none`.
pub record Change (Φ : Type 0) : Type 0 where
  pub table : String
  pub uuid : String
  pub kind : ChangeType
  pub old_row : Option (Row Φ)
  pub new_row : Option (Row Φ)

-- The entries of the array of results: `{"uuid": …}`, `{"rows": …}`, `{"count": …}`, `{}`, the error,
-- and `null`.
pub data OpResult (Φ : Type 0) : Type 0 where
  uuid_is : String → OpResult Φ
  rows_are : List (Row Φ) → OpResult Φ
  count_is : ℕ → OpResult Φ
  blank : OpResult Φ
  failed : Error → OpResult Φ
  absent : OpResult Φ

module _ {Φ : Type 0} where
  unfoldable pub extract_uuid : Row Φ → String
  extract_uuid row = elim (lookup "_uuid" row) [
    | some (arr (cons u (cons (str id) nil))) ↦ id
    | other ↦ ""
  ]

  -- the columns that are asked for and there, and the UUID
  abbrev pub put_found : String → Option (Value Φ) → Row Φ → Row Φ
  put_found col none row = row
  put_found col (some v) row = insert col v row

  unfoldable pub filter_columns : List String → Row Φ → Row Φ → Row Φ
  filter_columns [] row out = put_found "_uuid" (lookup "_uuid" row) out
  filter_columns (col ∷ cols) row out = filter_columns cols row (put_found col (lookup col row) out)

  unfoldable pub filter_rows : List String → List (Row Φ) → List (Row Φ)
  unfolding filter_columns
  filter_rows cols [] = []
  filter_rows cols (row ∷ rows) = filter_columns cols row [] ∷ filter_rows cols rows

  -- the loop over the old rows in `execUpdate` and `execMutate`
  unfoldable pub update_changes : String → List (Row Φ) → Store Φ → List (Change Φ)
  unfolding extract_uuid get_row
  update_changes table [] s = []
  update_changes table (old ∷ olds) s =
      let rest = update_changes table olds s in
      if extract_uuid old == ""
      then rest
      else record {
        table = table;
        uuid = extract_uuid old;
        kind = updated;
        old_row = some old;
        new_row = get_row table (extract_uuid old) s;
      }
        ∷ rest

  unfoldable pub delete_changes : String → List (Row Φ) → List (Change Φ)
  unfolding extract_uuid
  delete_changes table [] = []
  delete_changes table (old ∷ olds) =
      record {
        table = table;
        uuid = extract_uuid old;
        kind = deleted;
        old_row = some old;
        new_row = none;
      }
      ∷ delete_changes table olds

  -- the tables of the operations, as they are before the first, where they are there
  abbrev pub remember :
      String → Option (Table Φ) → Option (Table Φ) → Dict String (Table Φ) → Dict String (Table Φ)
  remember name (some t) found snaps = snaps
  remember name none none snaps = snaps
  remember name none (some t) snaps = insert name t snaps

  unfoldable pub snapshots :
      List (TransactOp Φ) → Store Φ → Dict String (Table Φ) → Dict String (Table Φ)
  snapshots [] s snaps = snaps
  snapshots (op ∷ ops) s snaps =
      snapshots ops s (remember op.table (lookup op.table snaps) (lookup op.table s.tables) snaps)

  unfoldable pub rollback : Dict String (Table Φ) → Store Φ → Store Φ
  rollback [] s = s
  rollback ((name, rows) ∷ snaps) s = rollback snaps (
      if is_some (lookup name s.tables) then record s { tables = insert name rows s.tables } else s)

  -- `{}` before the failed operation, and `null` behind it
  unfoldable pub error_results : (total fail_idx : ℕ) → Error → List (OpResult Φ)
  error_results total fail_idx e =
      replicate fail_idx blank ++ (failed e ∷ replicate (total - fail_idx - 1) absent)

module _ (G : GoValues) where
  open G use {Float}

  abbrev pub Outcome : Type 0
  Outcome = OpResult Float × List (Change Float)

  unfoldable pub exec_insert : String → TransactOp Float → Exec Error (Store Float) Outcome
  unfolding insert_row get_row
  exec_insert id op = do
    uuid ← insert_row id op.table op.row
    stored ← gets (get_row op.table uuid)
    pure (
      uuid_is uuid,
      record { table = op.table; uuid = uuid; kind = inserted; old_row = none; new_row = stored }
          ∷ [],
    )

  unfoldable pub exec_select : TransactOp Float → Exec Error (Store Float) Outcome
  unfolding select filter_rows
  exec_select op = do
    rows ← select G op.table op.where_conditions
    pure (rows_are (if leb (length op.columns) 0 then rows else filter_rows op.columns rows), [])

  unfoldable pub exec_update : TransactOp Float → Exec Error (Store Float) Outcome
  unfolding select update update_changes
  exec_update op = do
    olds ← select G op.table op.where_conditions
    count ← update G op.table op.where_conditions op.row
    changes ← gets (update_changes op.table olds)
    pure (count_is count, changes)

  unfoldable pub exec_delete : TransactOp Float → Exec Error (Store Float) Outcome
  unfolding select delete delete_changes
  exec_delete op = do
    olds ← select G op.table op.where_conditions
    count ← delete G op.table op.where_conditions
    pure (count_is count, delete_changes op.table olds)

  unfoldable pub exec_mutate : TransactOp Float → Exec Error (Store Float) Outcome
  unfolding select mutate update_changes
  exec_mutate op = do
    olds ← select G op.table op.where_conditions
    count ← mutate G op.table op.where_conditions op.mutations
    changes ← gets (update_changes op.table olds)
    pure (count_is count, changes)

  -- the `switch` of `Transact`
  unfoldable pub exec_op : String → TransactOp Float → Exec Error (Store Float) Outcome
  unfolding exec_insert exec_select exec_update exec_delete exec_mutate
  exec_op id op =
      if op.op == "insert"
      then exec_insert id op
      else if op.op == "select"
      then exec_select op
      else if op.op == "update"
      then exec_update op
      else if op.op == "delete"
      then exec_delete op
      else if op.op == "mutate"
      then exec_mutate op
      else raise (unknown_operation op.op)

  -- the operation with the UUIDs of the rows inserted before
  unfoldable pub resolve_op : Dict String String → TransactOp Float → TransactOp Float
  unfolding resolve_row resolve_where
  resolve_op named op = record op {
    row = resolve_row named op.row;
    where_conditions = resolve_where named op.where_conditions;
  }

  abbrev pub track : String → OpResult Float → Dict String String → Dict String String
  track name (uuid_is id) named = if name == "" then named else insert name id named
  track name r named = named

  -- How a transaction ends: its results and changes, the results of one that was undone, or Go's panic.
  pub data End : Type 0 where
    committed : List (OpResult Float) → List (Change Float) → End
    undone : List (OpResult Float) → End
    crashed : End

  unfoldable pub abort :
      (total i : ℕ) → Error → Dict String (Table Float) → Store Float → End × Store Float
  unfolding rollback error_results
  abort total i e snaps s =
      if is_panic e then (crashed, s) else (undone (error_results total i e), rollback snaps s)

  -- what follows the operation `i`: `k` goes on
  unfoldable pub proceed :
      (total i : ℕ)
      → Dict String (Table Float)
      → (OpResult Float → List (Change Float) → Store Float → End × Store Float)
      → Result Error Outcome
      → Store Float
      → End × Store Float
  unfolding abort
  proceed total i snaps k (ok (result, ch)) s = k result ch s
  proceed total i snaps k (err e) s = abort total i e snaps s

  -- the loop of `Transact` from the operation `i` on
  unfoldable pub run_ops :
      (ℕ → String)
      → Dict String (Table Float)
      → (total i : ℕ) → List (TransactOp Float)
      → Dict String String
      → List (OpResult Float)
      → List (Change Float)
      → Store Float
      → End × Store Float
  unfolding exec_op resolve_op proceed
  run_ops fresh snaps total i [] named results changes s = (committed results changes, s)
  run_ops fresh snaps total i (op ∷ ops) named results changes s =
      let (r, s') = exec_op (fresh i) (resolve_op named op) s in
      proceed total i snaps
        (λ result ch t.
          run_ops fresh snaps total (suc i) ops (track op.uuid_name result named)
            (results ++ result ∷ []) (changes ++ ch) t)
        r s'

  unfoldable pub transact : (ℕ → String) → List (TransactOp Float) → Store Float → End × Store Float
  unfolding run_ops snapshots
  transact fresh ops s = run_ops fresh (snapshots ops s []) (length ops) 0 ops [] [] [] s
