-- ===== src/Storage/Types.antt =====
-- storage-sim/internal/state/store.go: the records, the constants and the sentinel errors.
-- Go's floats enter through `Ratios`; times are nanoseconds since the epoch, as `int64` patterns.
use cirrus_sim.Base.{ℕ, String, Bool, Option, List}
use cirrus_sim.Base.Int64.{Int64}
pub use cirrus_sim.Floats.{Ratios}
use cirrus_sim.Base.Dict.{Dict}
use cirrus_sim.Base.Exec.{Exec}

abbrev pub Time : Type 0
Time = Int64

pub record Snapshot : Type 0 where
  pub snapshot_id : String
  pub volume_id : String
  pub size_gb : Int64
  pub consumed_gb : Int64
  pub state : String
  pub child_clones : List String
  pub metadata : Dict String String
  pub created_at : Time

-- OperationState, with the phases that a migration adds to it
pub data OperationState : Type 0 where
  running completed failed : OperationState
  preparing transferring finishing : OperationState

pub record Operation : Type 0 where
  pub operation_id : String
  pub kind : String
  pub volume_id : String
  pub state : OperationState
  pub progress_percent : Int64
  pub elapsed_ms : Int64
  pub estimated_remaining_ms : Int64
  pub started_at : Time

abbrev pub backend_active : String
backend_active = "active"

abbrev pub backend_draining : String
backend_draining = "draining"

abbrev pub volume_available : String
volume_available = "available"

abbrev pub volume_in_use : String
volume_in_use = "in_use"

pub record QosPolicy : Type 0 where
  pub max_iops : Int64
  pub max_bandwidth_mbs : Int64

pub record Backend (R : Type 0) : Type 0 where
  pub backend_id : String
  pub total_capacity_gb : Int64
  pub used_capacity_gb : Int64
  pub allocated_capacity_gb : Int64
  pub total_iops : Int64
  pub used_iops_estimate : Int64
  pub capabilities : List String
  pub state : String
  pub overprovision_ratio : R

pub record ExportInfo : Type 0 where
  pub host_id : String
  pub protocol : String

pub record Volume : Type 0 where
  pub volume_id : String
  pub backend_id : String
  pub size_gb : Int64
  pub consumed_gb : Int64
  pub thin_provisioned : Bool
  pub state : String
  pub qos_policy : Option QosPolicy
  pub metadata : Dict String String
  pub created_at : Time
  pub export_info : Option ExportInfo
  pub snapshots : List String
  pub parent_snapshot_id : String

pub record SimConfig : Type 0 where
  pub default_latency_ms : Int64
  pub flatten_per_gb_ms : Int64
  pub migration_per_gb_ms : Int64

pub record Stats : Type 0 where
  pub backend_count : ℕ
  pub volume_count : ℕ
  pub export_count : ℕ

pub record Migration : Type 0 where
  pub migration_id : String
  pub volume_id : String
  pub source_backend_id : String
  pub dest_backend_id : String
  pub state : OperationState
  pub progress_percent : Int64
  pub bytes_transferred : Int64
  pub elapsed_ms : Int64
  pub estimated_remaining_ms : Int64
  pub started_at : Time
  pub cancelled : Bool

pub data Error : Type 0 where
  empty_backend_id backend_exists backend_not_found backend_not_active : Error
  empty_volume_id volume_exists volume_not_found volume_in_use_error : Error
  volume_has_snapshots volume_already_exported volume_not_exported : Error
  insufficient_capacity shrink_not_allowed : Error
  empty_snapshot_id snapshot_exists snapshot_not_found snapshot_has_clones : Error
  volume_no_parent operation_not_found migration_not_found : Error
  -- "cannot cancel in %s state", the one error of the store that has no sentinel
  cannot_cancel : OperationState → Error

-- The store less its mutex, its logger and its clock: each method below takes the time as an
-- argument where it reads the clock, and stands for one critical section of the mutex.
pub record Store (R : Type 0) : Type 0 where
  pub backends : Dict String (Backend R)
  pub volumes : Dict String Volume
  pub snapshots : Dict String Snapshot
  pub operations : Dict String Operation
  pub migrations : Dict String Migration
  pub config : SimConfig
  pub op_counter : Int64

abbrev pub Action : Type 0 → Type 0 → Type 0
Action R A = Exec Error (Store R) A
