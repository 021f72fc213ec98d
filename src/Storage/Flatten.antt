-- ===== src/Storage/Flatten.antt =====
-- storage-sim/internal/state/store.go: flattening a clone. `StartFlatten` starts a goroutine,
-- which takes the mutex eleven times; each time is one step of a `FlattenThread`.
use cirrus_sim.Base.{
  ℕ, suc, String, Option, none, some, ◌==◌, string_eq, remove_first, ltb, if◌then◌else◌,
}
use cirrus_sim.Base.Int64.{Int64, add64, sub64, mul64, div64, slt, sle}
use cirrus_sim.Base.Dict.{lookup, insert}
use cirrus_sim.Base.Format.{pad}
use cirrus_sim.Base.Exec.{◌>>=◌, ◌>>◌, pure, gets, or_raise, raise_if, modify}
use cirrus_sim.Storage.Types.{
  Ratios, Volume, Snapshot, Operation, Store, Action, Time, running, completed, failed,
  volume_no_parent, operation_not_found,
}
use cirrus_sim.Storage.Backends.{put_volume}
use cirrus_sim.Storage.Volumes.{get_volume}
use Prim.Native.String.{◌++◌}

-- The arguments of `runFlatten`, and its loop variable: the next round is the `round`th.
pub record FlattenThread : Type 0 where
  pub op_id : String
  pub volume_id : String
  pub duration_ms : Int64
  pub round : ℕ

unfoldable pub op_id_of : Int64 → String
op_id_of n = "op-" ++ pad 3 n

-- `time.Since(started).Milliseconds()` at `now`
unfoldable pub since_ms : Time → Time → Int64
since_ms started now = div64 (sub64 now started) 1000000

-- `if x < 0 { x = 0 }`
unfoldable pub at_least_zero : Int64 → Int64
at_least_zero x = if slt x 0 then 0 else x

module _ {R : Type 0} where
  unfoldable pub put_operation : String → Operation → Store R → Store R
  put_operation id op s = record s { operations = insert id op s.operations }

  unfoldable pub get_operation : String → Action R Operation
  get_operation id = do
    found ← gets (λ s. lookup id s.operations)
    or_raise found operation_not_found

  unfoldable pub start_flatten : String → Time → Action R (Operation × FlattenThread)
  unfolding get_volume put_operation op_id_of
  start_flatten volume_id now = do
    v ← get_volume volume_id
    raise_if (v.parent_snapshot_id == "") volume_no_parent
    modify (λ s. record s { op_counter = add64 s.op_counter 1 })
    counter ← gets (λ s. s.op_counter)
    config ← gets (λ s. s.config)
    let op_id = op_id_of counter
    let per_gb = if sle config.flatten_per_gb_ms 0 then 100 else config.flatten_per_gb_ms
    let duration_ms = mul64 v.size_gb per_gb
    let op : Operation = record {
      operation_id = op_id;
      kind = "flatten";
      volume_id = volume_id;
      state = running;
      progress_percent = 0;
      elapsed_ms = 0;
      estimated_remaining_ms = duration_ms;
      started_at = now;
    }
    modify (put_operation op_id op)
    pure (op, record { op_id = op_id; volume_id = volume_id; duration_ms = duration_ms; round = 1 })

  -- `if snap, ok := s.snapshots[id]; ok { … }`
  unfoldable pub update_snapshot : String → (Snapshot → Snapshot) → Store R → Store R
  update_snapshot id f s = elim (lookup id s.snapshots) [
    | none ↦ s
    | some snap ↦ record s { snapshots = insert id (f snap) s.snapshots }
  ]

  -- What is done to a volume that is there: it loses its parent, and the parent loses the clone.
  unfoldable pub detach : String → Volume → Store R → Store R
  unfolding put_volume update_snapshot
  detach volume_id v s =
      update_snapshot v.parent_snapshot_id
        (λ snap. record snap { child_clones = remove_first volume_id snap.child_clones })
        (put_volume volume_id (record v { consumed_gb = v.size_gb; parent_snapshot_id = "" }) s)

  -- the last part of `runFlatten`
  unfoldable pub finish_flatten : FlattenThread → Time → Store R → Store R
  unfolding put_operation detach since_ms
  finish_flatten t now s = elim (lookup t.op_id s.operations) [
    | none ↦ s
    | some op ↦ elim (lookup t.volume_id s.volumes) [
      | none ↦ put_operation t.op_id (record op { state = failed }) s
      | some v ↦
          put_operation t.op_id
            (record op {
              state = completed;
              progress_percent = 100;
              elapsed_ms = since_ms op.started_at now;
              estimated_remaining_ms = 0;
            })
            (detach t.volume_id v s)
    ]
  ]

module _ (F : Ratios) where
  open F use {Ratio, progress}

  -- `progress := int(…); if progress > 100 { progress = 100 }`
  unfoldable pub flatten_percent : ℕ → Int64
  flatten_percent i = if slt 100 (progress i 10 100) then 100 else progress i 10 100

  -- One time that the goroutine holds the mutex. It goes on with the thread that is returned.
  unfoldable pub step_flatten :
      FlattenThread → Time → Store Ratio → Store Ratio × Option FlattenThread
  unfolding put_operation finish_flatten flatten_percent since_ms at_least_zero
  step_flatten t now s =
      if ltb 10 t.round
      then (finish_flatten t now s, none)
      else elim (lookup t.op_id s.operations) [
        | none ↦ (s, none)
        | some op ↦
            let elapsed = since_ms op.started_at now in
            (
              put_operation t.op_id
                  (record op {
                    progress_percent = flatten_percent t.round;
                    elapsed_ms = elapsed;
                    estimated_remaining_ms = at_least_zero (sub64 t.duration_ms elapsed);
                  })
                  s,
              some (record t { round = suc t.round }),
            )
      ]
