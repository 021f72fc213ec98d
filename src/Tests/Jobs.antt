-- ===== src/Tests/Jobs.antt =====
-- The goroutines of the storage simulator on concrete data.
use cirrus_sim.Tests.Volumes.{fast, slow, request, store, source, with_snap, create-store}
use cirrus_sim.Tests.{percent}
use cirrus_sim.Storage.Runs.{
  System, Call, Step, Reach, here, next, serve, migrated, Reach-IsConsistent,
}
use cirrus_sim.Storage.MigrationEnds
use cirrus_sim.Base.{ap, ◌≡◌, str_iff, arith, List, some, false, string_eq, String}
use cirrus_sim.Storage.Volumes.{extend_volume}
use cirrus_sim.Base.Dict.{lookup, insert}
use cirrus_sim.Storage.Types.{Store, Volume, Migration, preparing, Operation, running}
use cirrus_sim.Storage.Backends.{new_store, add_backend, with_defaults}
use cirrus_sim.Storage.Consistent.{IsConsistent, new_store-IsConsistent}
use cirrus_sim.Storage.Flatten.{FlattenThread, start_flatten, op_id_of}
use cirrus_sim.Storage.Migration.{
  MigrationThread, step_migration, cancel_migration, move_volume, complete, start_migration, begin,
}
use cirrus_sim.Base.{[], ℕ, true, none, ◌∷◌, arith, refl}
use cirrus_sim.Storage.VolumeLaws.{fresh, create_volume-IsConsistent, extend_volume-IsConsistent}
use cirrus_sim.Base.Int64.{sub64, slt, add64, sle, mul64}
use cirrus_sim.Storage.MigrationLaws.{cancel_migration-stops, stale_migration-unbalanced}
use cirrus_sim.Storage.Moves.{IsReady}
use cirrus_sim.Storage.Rewrites.{IsConsistent-of}
use cirrus_sim.Storage.JobLaws.{run_flatten, HasEnded, start_flatten_ends}
use cirrus_sim.Base.Format.{pad}
use cirrus_sim.Storage.BackendKeeps.{add_backend-IsConsistent}
use cirrus_sim.Storage.MigrationEnds.{run_migration, start_migration_ends}
use cirrus_sim.Storage.OperationIds.{IsNumbered, start_flatten_fresh}

-- The volume on its way from "fast" to "slow", at its last step.
abbrev thread : MigrationThread
thread = record {
  mig_id = "mig-001";
  volume_id = "vol-1";
  src_backend_id = "fast";
  dest_backend_id = "slow";
  size_gb = 40;
  thin_provisioned = true;
  total_bytes = 42949672960;
  duration_ms = 8000;
  phase = complete;
}

abbrev migration : Migration
migration = record {
  migration_id = "mig-001";
  volume_id = "vol-1";
  source_backend_id = "fast";
  dest_backend_id = "slow";
  state = preparing;
  progress_percent = 5;
  bytes_transferred = 0;
  elapsed_ms = 0;
  estimated_remaining_ms = 8000;
  started_at = 10;
  cancelled = false;
}

abbrev migrating : Store ℕ
migrating = record store { migrations = ("mig-001", migration) ∷ [] }

bare-IsConsistent :
    IsConsistent (record new_store { backends = ("fast", fast) ∷ ("slow", slow) ∷ [] })
unfolding add_backend lookup insert with_defaults
bare-IsConsistent =
    add_backend-IsConsistent percent slow (record new_store { backends = ("fast", fast) ∷ [] }) refl
      refl (add_backend-IsConsistent percent fast new_store refl refl new_store-IsConsistent)

store-IsConsistent : IsConsistent store
store-IsConsistent = rw (← (ap (λ r. r.1) create-store)) (
    create_volume-IsConsistent percent request 6
      (record new_store { backends = ("fast", fast) ∷ ("slow", slow) ∷ [] }) bare-IsConsistent)

thread-IsReady : IsReady complete thread migrating
unfolding lookup
thread-IsReady mig v em live e = ground arith

migrating-IsConsistent : IsConsistent migrating
migrating-IsConsistent = IsConsistent-of store migrating refl refl store-IsConsistent

cancel_migration-stops_example :
    step_migration percent thread 20 (cancel_migration "mig-001" migrating).1
    ≡ ((cancel_migration "mig-001" migrating).1, none)
unfolding cancel_migration lookup
cancel_migration-stops_example =
    cancel_migration-stops percent "mig-001" 20 thread migrating refl refl

-- The volume was extended to 60 GB while the migration was under way.
abbrev grown : Store ℕ
grown = record store {
  backends = ("fast", record fast { allocated_capacity_gb = 60 }) ∷ ("slow", slow) ∷ [];
  volumes = ("vol-1", record (fresh request 6) { size_gb = 60 }) ∷ [];
}

extend-grown : (extend_volume percent "vol-1" 60 store).1 ≡ grown
unfolding extend_volume lookup insert sle slt add64 sub64
extend-grown = refl

grown-IsConsistent : IsConsistent grown
grown-IsConsistent =
    rw (← extend-grown) (extend_volume-IsConsistent percent "vol-1" 60 store store-IsConsistent)

stale_migration-unbalanced_example :
    ¬ IsConsistent (move_volume thread (record (fresh request 6) { size_gb = 60 }) grown)
unfolding lookup
stale_migration-unbalanced_example =
    stale_migration-unbalanced thread (record (fresh request 6) { size_gb = 60 })
      (record fast { allocated_capacity_gb = 60 }) slow grown grown-IsConsistent refl refl
      (λ e. absurd (ground (arith, str_iff "fast" "slow"))) refl refl (λ e. absurd (omega arith))

-- A clone that is flattened.
abbrev clone : Volume
clone = record source { volume_id = "vol-2"; snapshots = []; parent_snapshot_id = "snap-1" }

abbrev with_clone : Store ℕ
with_clone = record with_snap { volumes = ("vol-1", source) ∷ ("vol-2", clone) ∷ [] }

abbrev clock : List ℕ
clock = 11 ∷ 12 ∷ 13 ∷ 14 ∷ 15 ∷ 16 ∷ 17 ∷ 18 ∷ 19 ∷ 20 ∷ 21 ∷ []

abbrev flatten_thread : FlattenThread
flatten_thread = record { op_id = "op-001"; volume_id = "vol-2"; duration_ms = 4000; round = 1 }

abbrev flatten_op : Operation
flatten_op = record {
  operation_id = "op-001";
  kind = "flatten";
  volume_id = "vol-2";
  state = running;
  progress_percent = 0;
  elapsed_ms = 0;
  estimated_remaining_ms = 4000;
  started_at = 10;
}

start_flatten_ends_example :
    let s = (start_flatten "vol-2" 10 with_clone).1 in
    ((run_flatten percent flatten_thread clock s).1 ≡ none)
    × HasEnded percent "op-001" (run_flatten percent flatten_thread clock s).0
unfolding start_flatten lookup pad mul64 add64 sle
start_flatten_ends_example =
    start_flatten_ends percent "vol-2" 10 clock with_clone {op = flatten_op} {t = flatten_thread}
      refl refl

start_migration_ends_example :
    let s = (start_migration percent "vol-1" "slow" 10 store).1 in
    let t : MigrationThread = record thread { phase = begin } in
    ((run_migration percent t (22 ∷ 23 ∷ clock) s).1 ≡ none)
    × MigrationEnds.HasEnded "mig-001" (run_migration percent t (22 ∷ 23 ∷ clock) s).0
unfolding start_migration lookup slt add64 pad mul64 sle
start_migration_ends_example =
    start_migration_ends percent "vol-1" "slow" 10 (22 ∷ 23 ∷ clock) store
      {mig = record migration { progress_percent = 0 }} {t = record thread { phase = begin }} refl
      refl

-- A migration completes between two calls.
abbrev before_step : System ℕ
before_step = record { store = migrating; flattens = []; migrations = thread ∷ [] }

abbrev after_step : System ℕ
after_step = migrated percent [] [] thread 20 before_step

abbrev after_extend : System ℕ
after_extend = serve percent (Call.extend_volume_call "vol-1" 60) 21 after_step

run : Reach percent before_step after_extend
run =
    next (next here (Step.migrate [] [] thread 20 refl) thread-IsReady)
      (Step.call (Call.extend_volume_call "vol-1" 60) 21) tt

Reach-IsConsistent_example : IsConsistent after_extend.store
Reach-IsConsistent_example = Reach-IsConsistent percent run migrating-IsConsistent

-- A second flatten of the clone, after the first.
abbrev flattened : Store ℕ
flattened = record with_clone { operations = ("op-001", flatten_op) ∷ []; op_counter = 1 }

only_op-001 :
    (id : String) (op : Operation) → lookup id flattened.operations ≡ some op → id ≡ "op-001"
unfolding lookup
only_op-001 id op e = ground (arith, str_iff "op-001" id)

flattened-IsNumbered : IsNumbered flattened
unfolding op_id_of pad
flattened-IsNumbered id op e = (1, only_op-001 id op e, omega arith)

start_flatten_fresh_example :
    (lookup "op-002" flattened.operations ≡ none)
    × IsNumbered (start_flatten "vol-2" 30 flattened).1
unfolding start_flatten lookup pad mul64 add64 sle
start_flatten_fresh_example =
    start_flatten_fresh "vol-2" 30 flattened
      {op = record flatten_op { operation_id = "op-002"; started_at = 30 }}
      {t = record flatten_thread { op_id = "op-002" }} flattened-IsNumbered (omega arith) refl
