-- ===== src/Ovsdb/Results.antt =====
-- The array of results of a transaction, ovn-sim/internal/ovsdb/transact.go.
use cirrus_sim.Base.{
  ℕ, arith, length, String, Option, List, ◌++◌, ◌≡◌, some, ◌<◌, ◌+◌, suc, none, [], ◌∷◌, refl, ◌-◌,
}
use cirrus_sim.Ovsdb.Json.{GoValues}
use cirrus_sim.Ovsdb.Transact.{
  OpResult, Change, End, run_ops, proceed, abort, transact, error_results, TransactOp, committed,
  snapshots, undone, Outcome, crashed, exec_op, resolve_op, track, blank, failed, absent,
}
use cirrus_sim.Base.Dict.{Dict}
use cirrus_sim.Ovsdb.Mutations.{Error}
use cirrus_sim.Ovsdb.Store.{Store, Table}
use cirrus_sim.Base.Exec.{Result, ok, err}
use cirrus_sim.Base.ListLaws.{length-append, replicate, length-replicate}

length-error_results :
    (Φ : Type 0) (total i : ℕ) (e : Error)
    → i < total
    → length (error_results {Φ = Φ} total i e) ≡ total
unfolding error_results
length-error_results Φ total i e h = omega (
  arith,
  length-append (replicate {A = OpResult Φ} i blank) (failed e ∷ replicate (total - i - 1) absent),
  length-replicate {A = OpResult Φ} i blank,
  length-replicate {A = OpResult Φ} (total - i - 1) absent,
)

module _ (G : GoValues) where
  open G use {Float}

  -- the array that goes back to the client to the client
  abbrev pub answers : End G → Option (List (OpResult Float))
  answers (committed rs ch) = some rs
  answers (undone rs) = some rs
  answers crashed = none

module _ (G : GoValues) (fresh : ℕ → String) (snaps : Dict String (Table G.Float)) where
  open G use {Float}

  length-proceed :
      (total i : ℕ) (k : OpResult Float → List (Change Float) → Store Float → End G × Store Float)
      (r : Result Error (Outcome G)) (s : Store Float) (rs : List (OpResult Float))
      → i < total
      → ((result : OpResult Float) (ch : List (Change Float))
          → answers G (k result ch s).0 ≡ some rs
          → length rs ≡ total)
      → answers G (proceed G total i snaps k r s).0 ≡ some rs
      → length rs ≡ total
  unfolding proceed abort
  length-proceed total i k (ok (result, ch)) s rs h next e = next result ch e
  length-proceed total i k (err x) s rs h next e =
      ground (arith, length-error_results Float total i x h)

  length-run_ops :
      (total i : ℕ) (ops : List (TransactOp Float)) (named : Dict String String)
      (results : List (OpResult Float)) (changes : List (Change Float)) (s : Store Float)
      (rs : List (OpResult Float))
      → length results ≡ i
      → i + length ops ≡ total
      → answers G (run_ops G fresh snaps total i ops named results changes s).0 ≡ some rs
      → length rs ≡ total
  unfolding run_ops
  length-run_ops total i [] named results changes s rs h n e = ground arith
  length-run_ops total i (op ∷ ops) named results changes s rs h n e =
      let (r, s') = exec_op G (fresh i) (resolve_op G named op) s in
      length-proceed total i
        (λ result ch t.
          run_ops G fresh snaps total (suc i) ops (track G op.uuid_name result named)
            (results ++ result ∷ []) (changes ++ ch) t)
        r s' rs (omega arith)
        (λ result ch e'.
          length-run_ops total (suc i) ops (track G op.uuid_name result named)
            (results ++ result ∷ []) (changes ++ ch) s' rs
            (omega (arith, length-append results (result ∷ []))) (omega arith) e')
        e

module _ (G : GoValues) where
  open G use {Float}

  -- The array of results has one entry for each operation, whether the transaction takes effect or
  -- ends with an error.
  pub length-transact :
      (fresh : ℕ → String) (ops : List (TransactOp Float)) (s : Store Float)
      (rs : List (OpResult Float))
      → answers G (transact G fresh ops s).0 ≡ some rs
      → length rs ≡ length ops
  unfolding transact
  length-transact fresh ops s rs e =
      length-run_ops G fresh (snapshots ops s []) (length ops) 0 ops [] [] [] s rs refl
        (omega arith) e
