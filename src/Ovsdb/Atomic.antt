-- ===== src/Ovsdb/Atomic.antt =====
-- The loop of `Transact` in ovn-sim/internal/ovsdb/transact.go, and what an error leaves.
use cirrus_sim.Base.{
  ℕ, suc, String, List, [], ◌∷◌, ◌++◌, ◌≡◌, refl, inl, inr, Bool-cases, arith, string_eq, length,
}
use cirrus_sim.Base.Dict.{Dict, lookup, IsMap}
use cirrus_sim.Base.Exec.{ok, err, Result}
use cirrus_sim.Ovsdb.Json.{GoValues}
use cirrus_sim.Ovsdb.Mutations.{Error, is_panic}
use cirrus_sim.Ovsdb.Store.{Store, Table}
use cirrus_sim.Ovsdb.Touches.{exec_op-Touches}
use cirrus_sim.Ovsdb.Transact.{
  TransactOp, OpResult, Change, End, undone, snapshots, run_ops, transact, exec_op, resolve_op,
  track, abort, Outcome, proceed,
}
use cirrus_sim.Ovsdb.Rollback.{
  Covers, IsOld, Drifts, restored, snapshots-IsMap, snapshots-IsOld, snapshots-Covers,
  Touches-Drifts,
}

module _ (G : GoValues) (fresh : ℕ → String) (snaps : Dict String (Table G.Float))
    (s0 : Store G.Float) where
  open G use {Float}

  -- A continuation that leads back to `s0` does so after an operation too.
  proceed_atomic :
      (total i : ℕ) (k : OpResult Float → List (Change Float) → Store Float → End G × Store Float)
      (r : Result Error (Outcome G)) (s : Store Float) (name : String)
      → IsMap snaps
      → IsOld snaps s0
      → Drifts snaps s0 s
      → (rs : List (OpResult Float))
      → ((result : OpResult Float) (ch : List (Change Float))
          → (k result ch s).0 ≡ undone rs
          → lookup name (k result ch s).1.tables ≡ lookup name s0.tables)
      → (proceed G total i snaps k r s).0 ≡ undone rs
      → lookup name (proceed G total i snaps k r s).1.tables ≡ lookup name s0.tables
  unfolding proceed abort
  proceed_atomic total i k (ok (result, ch)) s name m old d rs h e = h result ch e
  proceed_atomic total i k (err x) s name m old d rs h e = elim (Bool-cases (is_panic x)) [
    | inl yes' ↦ ground (arith, yes', e)
    | inr no' ↦ rw no' (restored snaps s0 s name m old d)
  ]

  run_ops_atomic :
      (total i : ℕ) (ops : List (TransactOp Float)) (named : Dict String String)
      (results : List (OpResult Float)) (changes : List (Change Float)) (s : Store Float)
      → IsMap snaps
      → IsOld snaps s0
      → Covers snaps s0 ops
      → Drifts snaps s0 s
      → (rs : List (OpResult Float))
      → (run_ops G fresh snaps total i ops named results changes s).0 ≡ undone rs
      → (name : String)
      → lookup name (run_ops G fresh snaps total i ops named results changes s).1.tables
        ≡ lookup name s0.tables
  unfolding run_ops
  run_ops_atomic total i [] named results changes s m old covers drift rs e name = ground arith
  run_ops_atomic total i (op ∷ ops) named results changes s m old covers drift rs e name =
      let (r, s') = exec_op G (fresh i) (resolve_op G named op) s in
      let touches = exec_op-Touches G (fresh i) (resolve_op G named op) s in
      let drift' = Touches-Drifts snaps s0 s s' op.table covers.0 drift touches in
      proceed_atomic total i
        (λ result ch t.
          run_ops G fresh snaps total (suc i) ops (track G op.uuid_name result named)
            (results ++ result ∷ []) (changes ++ ch) t)
        r s' name m old drift' rs
        (λ result ch e'.
          run_ops_atomic total (suc i) ops (track G op.uuid_name result named)
            (results ++ result ∷ []) (changes ++ ch) s' m old covers.1 drift' rs e' name)
        e

module _ (G : GoValues) where
  open G use {Float}

  -- A transaction that ends with an error leaves every table as it was: the operations before
  -- the one that failed have no effect that stays, and no table is added or taken away.
  pub transact_atomic :
      (fresh : ℕ → String) (ops : List (TransactOp Float)) (s : Store Float)
      (rs : List (OpResult Float))
      → (transact G fresh ops s).0 ≡ undone rs
      → (name : String) → lookup name (transact G fresh ops s).1.tables ≡ lookup name s.tables
  unfolding transact lookup
  transact_atomic fresh ops s rs e name =
      run_ops_atomic G fresh (snapshots ops s []) s (length ops) 0 ops [] [] [] s
        (snapshots-IsMap ops s [] tt) (snapshots-IsOld ops s [] (λ k t x. ground arith))
        (snapshots-Covers ops s []) (λ k. (refl, (λ x. refl))) rs e name
