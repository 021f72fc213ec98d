-- ===== src/Storage/Migration.antt =====
-- storage-sim/internal/state/store.go: moving a volume to another backend. `StartMigration` starts
-- a goroutine, which takes the mutex thirteen times; each time is one step of a `MigrationThread`.
use cirrus_sim.Base.{
  ℕ, suc, String, Bool, true, false, not, Option, none, some, string_eq, length, ltb, if◌then◌else◌,
}
use cirrus_sim.Base.Int64.{Int64, add64, sub64, mul64, div64, sle}
use cirrus_sim.Base.Dict.{lookup, insert}
use cirrus_sim.Base.Format.{pad}
use cirrus_sim.Base.Exec.{◌>>=◌, ◌>>◌, pure, gets, or_raise, raise_if, modify}
use cirrus_sim.Storage.Types.{
  Ratios, Volume, Migration, OperationState, Store, Action, Time, completed, failed, preparing,
  transferring, finishing, volume_has_snapshots, insufficient_capacity, migration_not_found,
  cannot_cancel,
}
use cirrus_sim.Storage.Backends.{get_backend, update_backend, charge, refund, exceeds, put_volume}
use cirrus_sim.Storage.Volumes.{get_volume}
use cirrus_sim.Storage.Flatten.{since_ms, at_least_zero}
use Prim.Native.String.{◌++◌}

-- Where `runMigration` stands: before it takes the mutex to begin the transfer, in round `i` of the
-- transfer, to begin to finish, and to complete.
pub data Phase : Type 0 where
  begin : Phase
  transfer : ℕ → Phase
  wind_up : Phase
  complete : Phase

-- The arguments of `runMigration`, as they were when the migration was started.
pub record MigrationThread : Type 0 where
  pub mig_id : String
  pub volume_id : String
  pub src_backend_id : String
  pub dest_backend_id : String
  pub size_gb : Int64
  pub thin_provisioned : Bool
  pub total_bytes : Int64
  pub duration_ms : Int64
  pub phase : Phase

unfoldable pub mig_id_of : Int64 → String
mig_id_of n = "mig-" ++ pad 3 n

-- `mig.State != "preparing" && mig.State != "transferring"`, negated
unfoldable pub can_cancel : OperationState → Bool
can_cancel preparing = true
can_cancel transferring = true
can_cancel _ = false

module _ {R : Type 0} where
  unfoldable pub put_migration : String → Migration → Store R → Store R
  put_migration id mig s = record s { migrations = insert id mig s.migrations }

  unfoldable pub get_migration : String → Action R Migration
  get_migration id = do
    found ← gets (λ s. lookup id s.migrations)
    or_raise found migration_not_found

  unfoldable pub cancel_migration : String → Action R (Unit {0})
  unfolding get_migration put_migration can_cancel
  cancel_migration id = do
    mig ← get_migration id
    raise_if (not (can_cancel mig.state)) (cannot_cancel mig.state)
    modify (put_migration id (record mig { cancelled = true; state = failed }))

  -- The capacity moves from the source to the destination, by the size that the thread was started
  -- with, and the volume is given its new backend.
  unfoldable pub move_volume : MigrationThread → Volume → Store R → Store R
  unfolding update_backend refund charge put_volume
  move_volume t v s =
      put_volume t.volume_id (record v { backend_id = t.dest_backend_id })
        (update_backend t.dest_backend_id (charge t.thin_provisioned t.size_gb)
          (update_backend t.src_backend_id (refund t.thin_provisioned t.size_gb) s))

  -- the last part of `runMigration`
  unfoldable pub complete_migration : MigrationThread → Migration → Time → Store R → Store R
  unfolding put_migration move_volume since_ms
  complete_migration t mig now s = elim (lookup t.volume_id s.volumes) [
    | none ↦ put_migration t.mig_id (record mig { state = failed }) s
    | some v ↦
        put_migration t.mig_id
          (record mig {
            state = completed;
            progress_percent = 100;
            bytes_transferred = t.total_bytes;
            elapsed_ms = since_ms mig.started_at now;
            estimated_remaining_ms = 0;
          })
          (move_volume t v s)
  ]

module _ (F : Ratios) where
  open F use {Ratio, progress}

  unfoldable pub start_migration :
      String → String → Time → Action Ratio (Migration × MigrationThread)
  unfolding get_volume get_backend exceeds put_migration mig_id_of
  start_migration volume_id dest_backend_id now = do
    v ← get_volume volume_id
    raise_if (ltb 0 (length v.snapshots)) volume_has_snapshots
    dest_backend ← get_backend dest_backend_id
    raise_if (exceeds F v.thin_provisioned dest_backend v.size_gb) insufficient_capacity
    modify (λ s. record s { op_counter = add64 s.op_counter 1 })
    counter ← gets (λ s. s.op_counter)
    config ← gets (λ s. s.config)
    let mig_id = mig_id_of counter
    let per_gb = if sle config.migration_per_gb_ms 0 then 200 else config.migration_per_gb_ms
    let duration_ms = mul64 v.size_gb per_gb
    let mig : Migration = record {
      migration_id = mig_id;
      volume_id = volume_id;
      source_backend_id = v.backend_id;
      dest_backend_id = dest_backend_id;
      state = preparing;
      progress_percent = 0;
      bytes_transferred = 0;
      elapsed_ms = 0;
      estimated_remaining_ms = duration_ms;
      started_at = now;
      cancelled = false;
    }
    modify (put_migration mig_id mig)
    pure (
      mig,
      record {
        mig_id = mig_id;
        volume_id = volume_id;
        src_backend_id = v.backend_id;
        dest_backend_id = dest_backend_id;
        size_gb = v.size_gb;
        thin_provisioned = v.thin_provisioned;
        total_bytes = mul64 v.size_gb 1073741824;
        duration_ms = duration_ms;
        phase = begin;
      },
    )

  -- the body of the loop over the ten rounds of the transfer
  unfoldable pub report_transfer : MigrationThread → ℕ → Migration → Time → Migration
  unfolding since_ms at_least_zero
  report_transfer t i mig now =
      let elapsed = since_ms mig.started_at now in
      record mig {
        progress_percent = progress i 10 90;
        bytes_transferred = div64 (mul64 t.total_bytes i) 10;
        elapsed_ms = elapsed;
        estimated_remaining_ms = at_least_zero (sub64 t.duration_ms elapsed);
      }

  -- What a thread does with its migration, which is there and is not cancelled.
  unfoldable pub advance :
      Phase
      → MigrationThread
      → Migration
      → Time
      → Store Ratio
      → Store Ratio × Option MigrationThread
  unfolding put_migration report_transfer complete_migration
  advance begin t mig now s = (
    put_migration t.mig_id (record mig { state = transferring }) s,
    some (record t { phase = transfer 1 }),
  )
  advance (transfer i) t mig now s = (
    put_migration t.mig_id (report_transfer t i mig now) s,
    some (record t { phase = if ltb i 10 then transfer (suc i) else wind_up }),
  )
  advance wind_up t mig now s = (
    put_migration t.mig_id (record mig { state = finishing }) s,
    some (record t { phase = complete }),
  )
  advance complete t mig now s = (complete_migration t mig now s, none)

  -- One time that the goroutine holds the mutex: it ends if its migration is gone or cancelled.
  unfoldable pub step_migration :
      MigrationThread → Time → Store Ratio → Store Ratio × Option MigrationThread
  unfolding advance
  step_migration t now s = elim (lookup t.mig_id s.migrations) [
    | none ↦ (s, none)
    | some mig ↦ if mig.cancelled then (s, none) else advance t.phase t mig now s
  ]
