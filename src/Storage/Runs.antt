-- ===== src/Storage/Runs.antt =====
-- The storage simulator as a whole: the store, the goroutines that are under way, and the calls that
-- the HTTP handlers of storage-sim/internal/handler/storage.go and
-- storage-sim/internal/sim/management.go make. The steps interleave as they like.
use cirrus_sim.Storage.Backends
use cirrus_sim.Storage.Volumes
use cirrus_sim.Storage.Snapshots
use cirrus_sim.Storage.Flatten
use cirrus_sim.Storage.Migration
use cirrus_sim.Base.{◌≡◌, refl, String, List, Option, Bool, [], ◌++◌, some, ◌∷◌, none}
use cirrus_sim.Base.Exec.{Result, ok, err}
use cirrus_sim.Storage.Types.{Ratios, Store, Time, Error, Backend, QosPolicy, Volume, SimConfig}
use cirrus_sim.Storage.Moves.{IsReady, step_migration-IsConsistent}
use cirrus_sim.Base.Int64.{Int64}
use cirrus_sim.Storage.Flatten.{FlattenThread, step_flatten}
use cirrus_sim.Storage.Migration.{MigrationThread, step_migration}
use cirrus_sim.Base.Dict.{Dict}
use cirrus_sim.Storage.Consistent.{IsConsistent}
use cirrus_sim.Storage.JobKeeps.{
  step_flatten-IsConsistent, start_flatten-IsConsistent, start_migration-IsConsistent,
  cancel_migration-IsConsistent,
}
use cirrus_sim.Storage.BackendKeeps.{
  add_backend-IsConsistent, set_backend_state-IsConsistent, set_config-IsConsistent,
  reset-IsConsistent,
}
use cirrus_sim.Storage.VolumeLaws.{create_volume-IsConsistent, extend_volume-IsConsistent}
use cirrus_sim.Storage.VolumeKeeps.{
  delete_volume-IsConsistent, export_volume-IsConsistent, unexport_volume-IsConsistent,
}
use cirrus_sim.Storage.SnapshotKeeps.{
  create_snapshot-IsConsistent, delete_snapshot-IsConsistent, clone_from_snapshot-IsConsistent,
}

-- the `state.Volume` that `handleCreateVolume` builds from its request
unfoldable pub volume_of_request :
    String → String → Int64 → Bool → Option QosPolicy → Dict String String → Volume
volume_of_request backend_id volume_id size_gb thin qos metadata = record {
  volume_id = volume_id;
  backend_id = backend_id;
  size_gb = size_gb;
  consumed_gb = 0;
  thin_provisioned = thin;
  state = "";
  qos_policy = qos;
  metadata = metadata;
  created_at = 0;
  export_info = none;
  snapshots = [];
  parent_snapshot_id = "";
}

-- the `state.Backend` that `handleAddBackend` builds from its request
unfoldable pub backend_of_request :
    {R : Type 0} → String → Int64 → Int64 → List String → R → Backend R
backend_of_request id total iops capabilities ratio = record {
  backend_id = id;
  total_capacity_gb = total;
  used_capacity_gb = 0;
  allocated_capacity_gb = 0;
  total_iops = iops;
  used_iops_estimate = 0;
  capabilities = capabilities;
  state = "";
  overprovision_ratio = ratio;
}

-- The calls that change the store.
pub data Call (R : Type 0) : Type 0 where
  add_backend_call : String → Int64 → Int64 → List String → R → Call R
  set_backend_state_call : String → String → Call R
  create_volume_call :
      String → String → Int64 → Bool → Option QosPolicy → Dict String String → Call R
  delete_volume_call : String → Call R
  extend_volume_call : String → Int64 → Call R
  export_volume_call : String → String → String → Call R
  unexport_volume_call : String → Call R
  create_snapshot_call : String → String → Dict String String → Call R
  delete_snapshot_call : String → Call R
  clone_from_snapshot_call : String → String → Dict String String → Call R
  start_flatten_call : String → Call R
  start_migration_call : String → String → Call R
  cancel_migration_call : String → Call R
  set_config_call : SimConfig → Call R
  reset_call : Call R

pub record System (R : Type 0) : Type 0 where
  pub store : Store R
  pub flattens : List FlattenThread
  pub migrations : List MigrationThread

-- `go s.runFlatten(…)`, where the call got that far
abbrev pub spawn : {A T : Type 0} → Result Error (A × T) → List T → List T
spawn (ok (a, t)) ts = ts ++ t ∷ []
spawn (err e) ts = ts

module _ (F : Ratios) where
  open F use {Ratio}

  -- The store after a call, and the goroutines; those that are under way live on through a reset.
  pub serve : Call Ratio → Time → System Ratio → System Ratio
  serve (add_backend_call id total iops caps ratio) now y = record y {
    store = (Backends.add_backend F (backend_of_request id total iops caps ratio) y.store).1;
  }
  serve (set_backend_state_call id state) now y = record y {
    store = (Backends.set_backend_state id state y.store).1;
  }
  serve (create_volume_call backend id size thin qos metadata) now y = record y {
    store =
        (Volumes.create_volume F (volume_of_request backend id size thin qos metadata) now
          y.store).1;
  }
  serve (delete_volume_call id) now y = record y { store = (Volumes.delete_volume id y.store).1 }
  serve (extend_volume_call id size) now y = record y {
    store = (Volumes.extend_volume F id size y.store).1;
  }
  serve (export_volume_call id host protocol) now y = record y {
    store = (Volumes.export_volume id host protocol y.store).1;
  }
  serve (unexport_volume_call id) now y = record y {
    store = (Volumes.unexport_volume id y.store).1;
  }
  serve (create_snapshot_call volume id metadata) now y = record y {
    store = (Snapshots.create_snapshot volume id metadata now y.store).1;
  }
  serve (delete_snapshot_call id) now y = record y {
    store = (Snapshots.delete_snapshot id y.store).1;
  }
  serve (clone_from_snapshot_call snapshot id metadata) now y = record y {
    store = (Snapshots.clone_from_snapshot F snapshot id metadata now y.store).1;
  }
  serve (start_flatten_call id) now y =
      let (r, s) = Flatten.start_flatten id now y.store in
      record y { store = s; flattens = spawn r y.flattens }
  serve (start_migration_call id dest) now y =
      let (r, s) = Migration.start_migration F id dest now y.store in
      record y { store = s; migrations = spawn r y.migrations }
  serve (cancel_migration_call id) now y = record y {
    store = (Migration.cancel_migration id y.store).1;
  }
  serve (set_config_call cfg) now y = record y { store = Backends.set_config cfg y.store }
  serve reset_call now y = record y { store = Backends.reset y.store }

  abbrev pub rest : {T : Type 0} → Option T → List T
  rest none = []
  rest (some t) = t ∷ []

  -- A goroutine takes the mutex once, and goes on as the thread that is returned, or ends.
  abbrev pub flattened :
      List FlattenThread → List FlattenThread → FlattenThread → Time → System Ratio → System Ratio
  flattened before after t now y =
      let (s, next) = step_flatten F t now y.store in
      record y { store = s; flattens = before ++ rest next ++ after }

  abbrev pub migrated :
      List MigrationThread
      → List MigrationThread
      → MigrationThread
      → Time
      → System Ratio
      → System Ratio
  migrated before after t now y =
      let (s, next) = step_migration F t now y.store in
      record y { store = s; migrations = before ++ rest next ++ after }

  -- A step: a call, or a goroutine that takes the mutex once.
  pub data Step (y : System Ratio) : System Ratio → Type 0 where
    call : (c : Call Ratio) (now : Time) → Step y (serve c now y)
    flatten :
        (before after : List FlattenThread) (t : FlattenThread) (now : Time)
        → y.flattens ≡ before ++ t ∷ after
        → Step y (flattened before after t now y)
    migrate :
        (before after : List MigrationThread) (t : MigrationThread) (now : Time)
        → y.migrations ≡ before ++ t ∷ after
        → Step y (migrated before after t now y)

  -- Where a migration completes in this step, its volume is as it was when it was started.
  abbrev pub IsCalm : {y z : System Ratio} → Step y z → Type 0
  IsCalm (call c now) = Unit {0}
  IsCalm (flatten before after t now e) = Unit {0}
  IsCalm {y} (migrate before after t now e) = IsReady t.phase t y.store

  pub data Reach (y : System Ratio) : System Ratio → Type 0 where
    here : Reach y y
    next : {z w : System Ratio} → Reach y z → (st : Step z w) → IsCalm st → Reach y w

  serve-IsConsistent :
      (c : Call Ratio) (now : Time) (y : System Ratio)
      → IsConsistent y.store
      → IsConsistent (serve c now y).store
  unfolding serve backend_of_request
  serve-IsConsistent (add_backend_call id total iops caps ratio) now y c =
      add_backend-IsConsistent F (backend_of_request id total iops caps ratio) y.store refl refl c
  serve-IsConsistent (set_backend_state_call id state) now y c =
      set_backend_state-IsConsistent id state y.store c
  serve-IsConsistent (create_volume_call backend id size thin qos metadata) now y c =
      create_volume-IsConsistent F (volume_of_request backend id size thin qos metadata) now y.store
        c
  serve-IsConsistent (delete_volume_call id) now y c = delete_volume-IsConsistent id y.store c
  serve-IsConsistent (extend_volume_call id size) now y c =
      extend_volume-IsConsistent F id size y.store c
  serve-IsConsistent (export_volume_call id host protocol) now y c =
      export_volume-IsConsistent id host protocol y.store c
  serve-IsConsistent (unexport_volume_call id) now y c = unexport_volume-IsConsistent id y.store c
  serve-IsConsistent (create_snapshot_call volume id metadata) now y c =
      create_snapshot-IsConsistent volume id metadata now y.store c
  serve-IsConsistent (delete_snapshot_call id) now y c = delete_snapshot-IsConsistent id y.store c
  serve-IsConsistent (clone_from_snapshot_call snapshot id metadata) now y c =
      clone_from_snapshot-IsConsistent F snapshot id metadata now y.store c
  serve-IsConsistent (start_flatten_call id) now y c = start_flatten-IsConsistent F id now y.store c
  serve-IsConsistent (start_migration_call id dest) now y c =
      start_migration-IsConsistent F id dest now y.store c
  serve-IsConsistent (cancel_migration_call id) now y c = cancel_migration-IsConsistent id y.store c
  serve-IsConsistent (set_config_call cfg) now y c = set_config-IsConsistent cfg y.store c
  serve-IsConsistent reset_call now y c = reset-IsConsistent y.store

  Step-IsConsistent :
      {y z : System Ratio} (st : Step y z) → IsCalm st → IsConsistent y.store → IsConsistent z.store
  Step-IsConsistent {y} (call c now) calm h = serve-IsConsistent c now y h
  Step-IsConsistent {y} (flatten before after t now e) calm h =
      step_flatten-IsConsistent F t now y.store h
  Step-IsConsistent {y} (migrate before after t now e) calm h =
      step_migration-IsConsistent F t now y.store h calm

  -- From a consistent store, any calls and any interleaving of the goroutines lead to a consistent
  -- store: every backend's allocated and used capacity is the sum of the sizes of the volumes that
  -- lie on it (of the thick ones, for the used capacity), as `int64` values, and every volume's
  -- backend exists. The condition is that wherever a migration completes (it is there, it is not
  -- cancelled and its volume is there), the volume lies on the source with the size and the kind with
  -- which the migration was started, and the destination is there.
  pub Reach-IsConsistent :
      {y z : System Ratio} → Reach y z → IsConsistent y.store → IsConsistent z.store
  Reach-IsConsistent here h = h
  Reach-IsConsistent (next r st calm) h = Step-IsConsistent st calm (Reach-IsConsistent r h)
