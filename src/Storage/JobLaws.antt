-- ===== src/Storage/JobLaws.antt =====
-- The flatten goroutine of storage-sim/internal/state/store.go, alone at the store.
use cirrus_sim.Base.{
  ℕ, ◌≡◌, refl, String, List, Option, ◌≤◌, some, Option-cases, ◌∷◌, suc, inl, none, ◌⊎◌, [], arith,
  string_eq, inr, ◌+◌, ◌<◌, length, Bool-cases, zero, ◌==◌,
}
use cirrus_sim.Storage.Types.{Ratios, Time, Store, Operation, completed, failed, Volume}
use cirrus_sim.Storage.Flatten.{
  step_flatten, FlattenThread, finish_flatten, put_operation, start_flatten, since_ms, detach,
  flatten_percent, at_least_zero,
}
use cirrus_sim.Base.Dict.{lookup, lookup-insert_self}
use cirrus_sim.Base.Exec.{ok}
use cirrus_sim.Base.Int64.{sub64}

-- Go on with the thread that a step returned, if it did not end.
unfoldable pub proceed : {S T : Type 0} → S × Option T → (T → S → S × Option T) → S × Option T
proceed (s, none) k = (s, none)
proceed (s, some t) k = k t s

module _ {R : Type 0} where
  start_flatten-starts :
      (id : String) (start : Time) (s : Store R) {op : Operation} {t : FlattenThread}
      → (start_flatten id start s).0 ≡ ok (op, t)
      → (t.round ≡ 1) × (lookup t.op_id (start_flatten id start s).1.operations ≡ some op)
  unfolding start_flatten
  start_flatten-starts id start s {op} {t} h = elim (Option-cases (lookup id s.volumes)) [
    | inl missing ↦ absurd (ground arith)
    | inr (v, e) ↦ elim (Bool-cases (v.parent_snapshot_id == "")) [
      | inl no_parent ↦ absurd (ground arith)
      | inr parent ↦ (ground arith, ground (arith, lookup-insert_self t.op_id op s.operations))
    ]
  ]

module _ (F : Ratios) where
  open F use {Ratio}

  -- `runFlatten` with nobody else at the store: one step for each time in the list, until it ends.
  pub run_flatten : FlattenThread → List Time → Store Ratio → Store Ratio × Option FlattenThread
  run_flatten t [] s = (s, some t)
  run_flatten t (now ∷ times) s =
      proceed (step_flatten F t now s) (λ t' s'. run_flatten t' times s')

  -- What the last step writes to the operation.
  abbrev pub HasEnded : String → Store Ratio → Type 0
  HasEnded id s =
      (op : Operation) × (lookup id s.operations ≡ some op)
      × ((op.state ≡ completed) ⊎ (op.state ≡ failed))

  lookup-put_operation :
      (id : String) (op : Operation) (s : Store Ratio)
      → lookup id (put_operation id op s).operations ≡ some op
  unfolding put_operation
  lookup-put_operation id op s = lookup-insert_self id op s.operations

  -- The operation as the last step leaves it, when the volume is there.
  abbrev done : Operation → Time → Operation
  done op now = record op {
    state = completed;
    progress_percent = 100;
    elapsed_ms = since_ms op.started_at now;
    estimated_remaining_ms = 0;
  }

  pub finish_flatten-there :
      (t : FlattenThread) (now : Time) (op : Operation) (v : Volume) (s : Store Ratio)
      → lookup t.op_id s.operations ≡ some op
      → lookup t.volume_id s.volumes ≡ some v
      → finish_flatten t now s ≡ put_operation t.op_id (done op now) (detach t.volume_id v s)
  unfolding finish_flatten
  finish_flatten-there t now op v s e ev = ground arith

  finish_flatten-missing :
      (t : FlattenThread) (now : Time) (op : Operation) (s : Store Ratio)
      → lookup t.op_id s.operations ≡ some op
      → lookup t.volume_id s.volumes ≡ none
      → finish_flatten t now s ≡ put_operation t.op_id (record op { state = failed }) s
  unfolding finish_flatten
  finish_flatten-missing t now op s e ev = ground arith

  finish_flatten-HasEnded :
      (t : FlattenThread) (now : Time) (op : Operation) (s : Store Ratio)
      → lookup t.op_id s.operations ≡ some op
      → HasEnded t.op_id (finish_flatten t now s)
  finish_flatten-HasEnded t now op s e = elim (Option-cases (lookup t.volume_id s.volumes)) [
    | inl missing ↦
        rw (finish_flatten-missing t now op s e missing)
          (record op { state = failed }, lookup-put_operation t.op_id _ s, inr refl)
    | inr (v, ev) ↦
        rw (finish_flatten-there t now op v s e ev)
          (done op now, lookup-put_operation t.op_id _ (detach t.volume_id v s), inl refl)
  ]

  -- The operation as a round of the loop leaves it.
  progressed : FlattenThread → Time → Operation → Operation
  progressed t now op = record op {
    progress_percent = flatten_percent F t.round;
    elapsed_ms = since_ms op.started_at now;
    estimated_remaining_ms = at_least_zero (sub64 t.duration_ms (since_ms op.started_at now));
  }

  step_flatten-round :
      (t : FlattenThread) (now : Time) (op : Operation) (s : Store Ratio)
      → t.round ≤ 10
      → lookup t.op_id s.operations ≡ some op
      → step_flatten F t now s
        ≡ (put_operation t.op_id (progressed t now op) s, some (record t { round = suc t.round }))
  unfolding step_flatten progressed
  step_flatten-round t now op s h e = ground arith

  step_flatten-last :
      (t : FlattenThread) (now : Time) (s : Store Ratio)
      → 10 < t.round
      → step_flatten F t now s ≡ (finish_flatten t now s, none)
  unfolding step_flatten
  step_flatten-last t now s h = ground arith

  -- With `k` rounds left, `k + 1` steps end the thread.
  run_flatten_ends :
      (k : ℕ) (t : FlattenThread) (times : List Time) (op : Operation) (s : Store Ratio)
      → t.round + k ≡ 11
      → length times ≡ suc k
      → lookup t.op_id s.operations ≡ some op
      → ((run_flatten t times s).1 ≡ none) × HasEnded t.op_id (run_flatten t times s).0
  unfolding run_flatten proceed
  run_flatten_ends k t [] op s h l e = absurd (omega arith)
  run_flatten_ends zero t (now ∷ times) op s h l e =
      rw (step_flatten-last t now s (omega arith)) (refl, finish_flatten-HasEnded t now op s e)
  run_flatten_ends (suc k) t (now ∷ times) op s h l e =
      rw (step_flatten-round t now op s (omega arith) e) (
        run_flatten_ends k (record t { round = suc t.round }) times (progressed t now op)
          (put_operation t.op_id (progressed t now op) s) (omega arith) (omega arith)
          (lookup-put_operation t.op_id _ s))

  -- A flatten that is alone at the store ends: the thread that `StartFlatten` starts has ended after
  -- eleven steps, whatever the times, and its operation is then completed or failed.
  pub start_flatten_ends :
      (id : String) (start : Time) (times : List Time) (s : Store Ratio) {op : Operation}
      {t : FlattenThread}
      → (start_flatten id start s).0 ≡ ok (op, t)
      → length times ≡ 11
      → ((run_flatten t times (start_flatten id start s).1).1 ≡ none)
        × HasEnded t.op_id (run_flatten t times (start_flatten id start s).1).0
  start_flatten_ends id start times s {op} {t} h l =
      let (r, e) = start_flatten-starts id start s h in
      run_flatten_ends 10 t times op (start_flatten id start s).1 (omega arith) l e
