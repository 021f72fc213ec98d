-- ===== src/Storage/Requests.antt =====
-- storage-sim/internal/handler/storage.go: requests and responses. A request is its path values, headers
-- and body; a body that `json.Decode` refuses is `none`. The text of an error is left out of its
-- response.
use cirrus_sim.Storage.Types.{
  Backend, Error, cannot_cancel, Volume, volume_not_found, QosPolicy, backend_not_found, Snapshot,
  snapshot_not_found, Operation, operation_not_found, migration_not_found, Migration,
  volume_in_use_error, volume_has_snapshots, snapshot_has_clones, volume_already_exported,
  volume_not_exported, shrink_not_allowed, volume_no_parent, empty_snapshot_id,
  insufficient_capacity, backend_not_active, volume_exists, backend_exists, snapshot_exists,
  empty_backend_id, empty_volume_id,
}
use cirrus_sim.Base.{String, Option, ℕ, Bool, List, string_eq}
use cirrus_sim.Base.Dict.{Dict}
use cirrus_sim.Base.Int64.{Int64}

-- storage-sim/internal/handler/storage.go: the handlers. A request is its path values, headers and
-- body; a body that `json.Decode` refuses is `none`. The text of an error is left out of its response.

abbrev pub Body : Type 0 → Type 0
Body A = Option A

-- the bodies
pub record CreateVolumeRequest : Type 0 where
  pub volume_id : String
  pub size_gb : Int64
  pub thin_provisioned : Bool
  pub qos_policy : Option QosPolicy
  pub metadata : Dict String String

pub record ExportVolumeRequest : Type 0 where
  pub host_id : String
  pub protocol : String

pub record CreateSnapshotRequest : Type 0 where
  pub snapshot_id : String
  pub metadata : Dict String String

pub record CloneFromSnapshotRequest : Type 0 where
  pub volume_id : String
  pub metadata : Dict String String

-- the URL of the destination is not used
pub record StartMigrationRequest : Type 0 where
  pub volume_id : String
  pub dest_backend_id : String

-- the routes of `RegisterRoutes`, with what each handler takes from its request; the first string of a
-- request on a backend is the header `X-Backend-Id`
pub data Request : Type 0 where
  backend_info backend_health : String → Request
  create_volume_request : String → Body CreateVolumeRequest → Request
  get_volume_request : String → Request
  list_volumes_request : (backend_id state : String) → Request
  delete_volume_request : String → Request
  extend_volume_request : String → Body Int64 → Request
  export_volume_request : String → Body ExportVolumeRequest → Request
  unexport_volume_request : String → Request
  create_snapshot_request : String → Body CreateSnapshotRequest → Request
  list_snapshots_request : String → Request
  delete_snapshot_request : String → Request
  clone_from_snapshot_request : String → Body CloneFromSnapshotRequest → Request
  start_flatten_request : String → Request
  get_operation_request : String → Request
  start_migration_request : Body StartMigrationRequest → Request
  get_migration_request : String → Request
  cancel_migration_request : String → Request

-- what a response carries
pub data Content (R : Type 0) : Type 0 where
  no_content error_message : Content R
  of_backend : Backend R → Content R
  of_health : Int64 → Content R
  of_volume : Volume → Content R
  of_volumes : List Volume → Content R
  of_snapshot : Snapshot → Content R
  of_snapshots : List Snapshot → Content R
  of_operation of_started : Operation → Content R
  of_migration : Migration → Content R

pub record Response (R : Type 0) : Type 0 where
  pub status : ℕ
  pub content : Content R

-- `errorToHTTPStatus`; the store's errors wrap one sentinel, or none
unfoldable pub error_to_http_status : Error → ℕ
error_to_http_status volume_not_found = 404
error_to_http_status backend_not_found = 404
error_to_http_status snapshot_not_found = 404
error_to_http_status operation_not_found = 404
error_to_http_status migration_not_found = 404
error_to_http_status volume_in_use_error = 406
error_to_http_status volume_has_snapshots = 409
error_to_http_status snapshot_has_clones = 409
error_to_http_status volume_already_exported = 409
error_to_http_status volume_not_exported = 409
error_to_http_status shrink_not_allowed = 400
error_to_http_status volume_no_parent = 400
error_to_http_status empty_snapshot_id = 400
error_to_http_status insufficient_capacity = 507
error_to_http_status backend_not_active = 503
error_to_http_status volume_exists = 409
error_to_http_status backend_exists = 409
error_to_http_status snapshot_exists = 409
error_to_http_status empty_backend_id = 500
error_to_http_status empty_volume_id = 500
error_to_http_status (cannot_cancel state) = 500

-- the handlers that answer 404 to every error
abbrev pub not_found : Error → ℕ
not_found e = 404
