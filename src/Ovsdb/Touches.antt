-- ===== src/Ovsdb/Touches.antt =====
-- What an operation of ovn-sim/internal/ovsdb/transact.go writes to: the table that it names.
use cirrus_sim.Base.{
  String, ◌≡◌, refl, some, ◌⊎◌, inl, inr, Option-cases, Bool-cases, arith, string_eq, ◌==◌,
}
use cirrus_sim.Base.Dict.{lookup, insert}
use cirrus_sim.Ovsdb.Json.{GoValues, tagged, str}
use cirrus_sim.Ovsdb.Store.{Store, Table, put_table, update_rows, delete_rows, mutate_rows}
use cirrus_sim.Ovsdb.Transact.{
  TransactOp, exec_insert, exec_select, exec_update, exec_delete, exec_mutate, exec_op,
}

abbrev pub Touches : {Φ : Type 0} → String → Store Φ → Store Φ → Type 0
Touches {Φ} table s s' =
    (s' ≡ s)
    ⊎ ((t : Table Φ) × (t' : Table Φ) × (lookup table s.tables ≡ some t)
        × (s' ≡ put_table table t' s))

module _ (G : GoValues) where
  open G use {Float}

  exec_insert-Touches :
      (id : String) (op : TransactOp Float) (s : Store Float)
      → Touches op.table s (exec_insert G id op s).1
  unfolding exec_insert
  exec_insert-Touches id op s = elim (Option-cases (lookup op.table s.tables)) [
    | inl missing ↦ inl (ground arith)
    | inr (t, e) ↦
        inr (t, insert id (insert "_uuid" (tagged "uuid" (str id)) op.row) t, e, ground arith)
  ]

  exec_select-Touches :
      (op : TransactOp Float) (s : Store Float) → Touches op.table s (exec_select G op s).1
  unfolding exec_select
  exec_select-Touches op s = inl (ground arith)

  exec_update-Touches :
      (op : TransactOp Float) (s : Store Float) → Touches op.table s (exec_update G op s).1
  unfolding exec_update
  exec_update-Touches op s = elim (Option-cases (lookup op.table s.tables)) [
    | inl missing ↦ inl (ground arith)
    | inr (t, e) ↦ inr (t, (update_rows G op.where_conditions op.row t).0, e, ground arith)
  ]

  exec_delete-Touches :
      (op : TransactOp Float) (s : Store Float) → Touches op.table s (exec_delete G op s).1
  unfolding exec_delete
  exec_delete-Touches op s = elim (Option-cases (lookup op.table s.tables)) [
    | inl missing ↦ inl (ground arith)
    | inr (t, e) ↦ inr (t, (delete_rows G op.where_conditions t).0, e, ground arith)
  ]

  exec_mutate-Touches :
      (op : TransactOp Float) (s : Store Float) → Touches op.table s (exec_mutate G op s).1
  unfolding exec_mutate
  exec_mutate-Touches op s = elim (Option-cases (lookup op.table s.tables)) [
    | inl missing ↦ inl (ground arith)
    | inr (t, e) ↦ inr (t, (mutate_rows G op.where_conditions op.mutations t).1, e, ground arith)
  ]

  pub exec_op-Touches :
      (id : String) (op : TransactOp Float) (s : Store Float)
      → Touches op.table s (exec_op G id op s).1
  unfolding exec_op
  exec_op-Touches id op s = elim (Bool-cases (op.op == "insert")) [
    | inl yes' ↦ rw yes' (exec_insert-Touches id op s)
    | inr n1 ↦ elim (Bool-cases (op.op == "select")) [
      | inl yes' ↦ rw (n1, yes') (exec_select-Touches op s)
      | inr n2 ↦ elim (Bool-cases (op.op == "update")) [
        | inl yes' ↦ rw (n1, n2, yes') (exec_update-Touches op s)
        | inr n3 ↦ elim (Bool-cases (op.op == "delete")) [
          | inl yes' ↦ rw (n1, n2, n3, yes') (exec_delete-Touches op s)
          | inr n4 ↦ elim (Bool-cases (op.op == "mutate")) [
            | inl yes' ↦ rw (n1, n2, n3, n4, yes') (exec_mutate-Touches op s)
            | inr n5 ↦ rw (n1, n2, n3, n4, n5) (inl refl)
          ]
        ]
      ]
    ]
  ]
