-- ===== src/Libvirt/Types.antt =====
-- libvirt-sim/internal/state/domain.go, host.go and store.go: the records, the constants and the
-- sentinel errors.
use cirrus_sim.Base.{ℕ, String, List}
use cirrus_sim.Base.Dict.{Dict}
use cirrus_sim.Base.Exec.{Exec}
use cirrus_sim.Base.Int64.{Int64}

pub data DomainState : Type 0 where
  no_state running blocked paused shutdown shutoff crashed pm_suspended : DomainState

pub data MigrationState : Type 0 where
  idle prepared performing : MigrationState

abbrev pub Time : Type 0
Time = Int64

-- `int32`, as a bit pattern below 2 ^ 32
abbrev pub Int32 : Type 0
Int32 = ℕ

abbrev pub minus_one : Int32
minus_one = 0xffffffff

pub record Domain : Type 0 where
  pub name : String
  pub uuid : List ℕ
  pub id : Int32
  pub state : DomainState
  pub vcpus : Int64
  pub memory_kib : Int64
  pub xml : String
  pub created_at : Time
  pub started_at : Time
  pub interface_ids : List String
  pub migration_state : MigrationState
  pub migration_cookie : String

abbrev pub host_online : String
host_online = "online"

pub record Gpu : Type 0 where
  pub address : String
  pub model : String
  pub vendor_id : String
  pub device_id : String

pub record NumaNode : Type 0 where
  pub node_id : Int64
  pub cpus : List Int64
  pub memory_mb : Int64

pub record Host (R : Type 0) : Type 0 where
  pub host_id : String
  pub libvirt_port : Int64
  pub cpu_model : String
  pub cpu_sockets : Int64
  pub cores_per_socket : Int64
  pub threads_per_core : Int64
  pub memory_mb : Int64
  pub cpu_overcommit_ratio : R
  pub mem_overcommit_ratio : R
  pub numa_topology : List NumaNode
  pub gpus : List Gpu
  pub state : String
  pub domains : Dict String Domain

pub data Error : Type 0 where
  no_domain operation_invalid operation_denied : Error
  host_not_found host_exists port_in_use migration_in_progress : Error
  -- the two errors of `CanAllocate`, which have no sentinel
  insufficient_vcpus insufficient_memory : Error

pub record MigrationConfig : Type 0 where
  pub prepare_duration_ms : Int64
  pub base_transfer_duration_ms : Int64
  pub per_gb_memory_ms : Int64
  pub finish_duration_ms : Int64

-- The store less its locks. Each method below stands for one call, made as a whole.
pub record Store (R : Type 0) : Type 0 where
  pub hosts : Dict String (Host R)
  pub ports : Dict ℕ String
  pub next_domain_id : Int32
  pub migration_config : MigrationConfig
  pub migration_speed : ℕ

pub record Stats : Type 0 where
  pub total_hosts : ℕ
  pub online_hosts : ℕ
  pub total_domains : ℕ
  pub running_domains : ℕ
  pub total_vcpus_used : Int64
  pub total_memory_used : Int64

abbrev pub Action : Type 0 → Type 0 → Type 0
Action R A = Exec Error (Store R) A
