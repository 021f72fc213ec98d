-- ===== src/Storage/Failures.antt =====
-- What an error of storage-sim leaves behind it, in the store and on the wire.
use cirrus_sim.Storage.Snapshots.{
  delete_snapshot, create_snapshot, list_snapshots, clone_from_snapshot,
}
use cirrus_sim.Storage.Types.{Action, Store, Error, Time, Operation, Migration, Volume}
use cirrus_sim.Storage.Volumes.{
  get_volume, unexport_volume, export_volume, create_volume, extend_volume, delete_volume,
}
use cirrus_sim.Storage.Flatten.{get_operation, start_flatten, FlattenThread}
use cirrus_sim.Storage.Migration.{cancel_migration, get_migration, start_migration, MigrationThread}
use cirrus_sim.Floats.{Ratios}
use cirrus_sim.Storage.Backends.{get_backend}
use cirrus_sim.Base.{String, arith, ◌≡◌, ℕ, some, ◌<◌, ◌≤◌, none, refl}
use cirrus_sim.Base.Dict.{Dict}
use cirrus_sim.Base.Int64.{Int64}
use cirrus_sim.Base.Exec.{err, Result, ok}
use cirrus_sim.Storage.Http.{
  with_body, handle_start_flatten, handle_start_migration, with_backend_id, respond, write_json,
  handle,
}
use cirrus_sim.Storage.Runs.{System}
use cirrus_sim.Storage.Requests.{
  Body, Response, StartMigrationRequest, Request, error_to_http_status, not_found, backend_info,
  backend_health, create_volume_request, get_volume_request, list_volumes_request,
  delete_volume_request, extend_volume_request, export_volume_request, unexport_volume_request,
  create_snapshot_request, list_snapshots_request, delete_snapshot_request,
  clone_from_snapshot_request, start_flatten_request, get_operation_request,
  start_migration_request, get_migration_request, cancel_migration_request,
}

-- The call changes the store only where it succeeds.
abbrev Spares : {R A : Type 0} → Action R A → Type 0
Spares {R = R} m = (s : Store R) (e : Error) → (m s).0 ≡ err e → (m s).1 ≡ s

module _ {R : Type 0} where
  get_backend-Spares : (id : String) → Spares (get_backend {R = R} id)
  unfolding get_backend
  get_backend-Spares id s e h = ground arith

  get_volume-Spares : (id : String) → Spares (get_volume {R = R} id)
  unfolding get_volume
  get_volume-Spares id s e h = ground arith

  export_volume-Spares :
      (id host protocol : String) → Spares (export_volume {R = R} id host protocol)
  unfolding export_volume
  export_volume-Spares id host protocol s e h = ground arith

  unexport_volume-Spares : (id : String) → Spares (unexport_volume {R = R} id)
  unfolding unexport_volume
  unexport_volume-Spares id s e h = ground arith

  create_snapshot-Spares :
      (id sid : String) (metadata : Dict String String) (now : Time)
      → Spares (create_snapshot {R = R} id sid metadata now)
  unfolding create_snapshot
  create_snapshot-Spares id sid metadata now s e h = ground arith

  list_snapshots-Spares : (id : String) → Spares (list_snapshots {R = R} id)
  unfolding list_snapshots
  list_snapshots-Spares id s e h = ground arith

  delete_snapshot-Spares : (id : String) → Spares (delete_snapshot {R = R} id)
  unfolding delete_snapshot
  delete_snapshot-Spares id s e h = ground arith

  start_flatten-Spares : (id : String) (now : Time) → Spares (start_flatten {R = R} id now)
  unfolding start_flatten
  start_flatten-Spares id now s e h = ground arith

  get_operation-Spares : (id : String) → Spares (get_operation {R = R} id)
  unfolding get_operation
  get_operation-Spares id s e h = ground arith

  get_migration-Spares : (id : String) → Spares (get_migration {R = R} id)
  unfolding get_migration
  get_migration-Spares id s e h = ground arith

  cancel_migration-Spares : (id : String) → Spares (cancel_migration {R = R} id)
  unfolding cancel_migration
  cancel_migration-Spares id s e h = ground arith

module _ (F : Ratios) where
  open F use {Ratio}

  start_migration-Spares : (id dest : String) (now : Time) → Spares (start_migration F id dest now)
  unfolding start_migration
  start_migration-Spares id dest now s e h = ground arith

-- An answer of 400 or above leaves the system as it was.
abbrev Harmless : {R : Type 0} → (System R → Response R × System R) → Type 0
Harmless {R = R} k = (y : System R) → 400 ≤ (k y).0.status → (k y).1 ≡ y

module _ {R A : Type 0} where
  respond-Harmless :
      (code : Error → ℕ) (show : A → Response R) (m : Action R A)
      → Spares m
      → ((a : A) → (show a).status < 400)
      → Harmless (respond code show m)
  unfolding respond
  respond-Harmless code show m spares fine y bad = of (m y.store) refl
    where
      of : (o : Result Error A × Store R) → m y.store ≡ o → (respond code show m y).1 ≡ y
      of (ok a, s) e = absurd (ground (arith, e, fine a))
      of (err x, s) e = ground (arith, e, spares y.store x)

  with_body-Harmless :
      (body : Body A) (k : A → System R → Response R × System R)
      → ((a : A) → Harmless (k a))
      → Harmless (with_body body k)
  unfolding with_body
  with_body-Harmless none k h = λ y bad. refl
  with_body-Harmless (some a) k h = h a

module _ {R : Type 0} where
  with_backend_id-Harmless :
      (id : String) (k : System R → Response R × System R)
      → Harmless k
      → Harmless (with_backend_id id k)
  unfolding with_backend_id
  with_backend_id-Harmless id k h y bad = ground (arith, h y)

module _ (F : Ratios) where
  open F use {Ratio}

  start_flatten-Harmless : (id : String) (now : Time) → Harmless (handle_start_flatten F id now)
  unfolding handle_start_flatten write_json
  start_flatten-Harmless id now y bad = of (start_flatten id now y.store) refl
    where
      of :
          (o : Result Error (Operation × FlattenThread) × Store Ratio)
          → start_flatten id now y.store ≡ o
          → (handle_start_flatten F id now y).1 ≡ y
      of (ok a, s) e = absurd (ground (arith, e))
      of (err x, s) e = ground (arith, e, start_flatten-Spares id now y.store x)

  start_migration-Harmless :
      (req : StartMigrationRequest) (now : Time) → Harmless (handle_start_migration F req now)
  unfolding handle_start_migration write_json
  start_migration-Harmless req now y bad =
      of (start_migration F req.volume_id req.dest_backend_id now y.store) refl
    where
      of :
          (o : Result Error (Migration × MigrationThread) × Store Ratio)
          → start_migration F req.volume_id req.dest_backend_id now y.store ≡ o
          → (handle_start_migration F req now y).1 ≡ y
      of (ok a, s) e = absurd (ground (arith, e))
      of (err x, s) e =
          ground
            (arith, e, start_migration-Spares F req.volume_id req.dest_backend_id now y.store x)

  create_volume-Spares : (v : Volume) (now : Time) → Spares (create_volume F v now)
  unfolding create_volume
  create_volume-Spares v now s e h = ground arith

  extend_volume-Spares : (id : String) (size : Int64) → Spares (extend_volume F id size)
  unfolding extend_volume
  extend_volume-Spares id size s e h = ground arith

  clone_from_snapshot-Spares :
      (sid id : String) (metadata : Dict String String) (now : Time)
      → Spares (clone_from_snapshot F sid id metadata now)
  unfolding clone_from_snapshot
  clone_from_snapshot-Spares sid id metadata now s e h = ground arith

  delete_volume-Spares : (id : String) → Spares (delete_volume {R = Ratio} id)
  unfolding delete_volume
  delete_volume-Spares id s e h = ground arith

  -- A request that is answered with 400 or above leaves the store and the goroutines as they were.
  handle-Harmless : (r : Request) (now : Time) → Harmless (handle F r now)
  unfolding handle write_json
  handle-Harmless (backend_info id) now =
      with_backend_id-Harmless id _
        (respond-Harmless not_found _ (get_backend id) (get_backend-Spares id) (λ a. omega arith))
  handle-Harmless (backend_health id) now = with_backend_id-Harmless id _ (λ y.
      respond-Harmless not_found _ (get_backend id) (get_backend-Spares id) (λ a. omega arith) y)
  handle-Harmless (create_volume_request backend_id body) now =
      with_backend_id-Harmless backend_id _ (
        with_body-Harmless body _ (λ req.
          respond-Harmless error_to_http_status _ _ (create_volume-Spares _ now)
            (λ a. omega arith)))
  handle-Harmless (get_volume_request id) now =
      respond-Harmless not_found _ _ (get_volume-Spares id) (λ a. omega arith)
  handle-Harmless (list_volumes_request backend_id state) now = λ y bad. refl
  handle-Harmless (delete_volume_request id) now =
      respond-Harmless error_to_http_status _ _ (delete_volume-Spares id) (λ a. omega arith)
  handle-Harmless (extend_volume_request id body) now = with_body-Harmless body _ (λ size.
      respond-Harmless error_to_http_status _ _ (extend_volume-Spares id size) (λ a. omega arith))
  handle-Harmless (export_volume_request id body) now = with_body-Harmless body _ (λ req.
      respond-Harmless error_to_http_status _ _ (export_volume-Spares id req.host_id req.protocol)
        (λ a. omega arith))
  handle-Harmless (unexport_volume_request id) now =
      respond-Harmless error_to_http_status _ _ (unexport_volume-Spares id) (λ a. omega arith)
  handle-Harmless (create_snapshot_request id body) now = with_body-Harmless body _ (λ req.
      respond-Harmless error_to_http_status _ _
        (create_snapshot-Spares id req.snapshot_id req.metadata now) (λ a. omega arith))
  handle-Harmless (list_snapshots_request id) now =
      respond-Harmless error_to_http_status _ _ (list_snapshots-Spares id) (λ a. omega arith)
  handle-Harmless (delete_snapshot_request id) now =
      respond-Harmless error_to_http_status _ _ (delete_snapshot-Spares id) (λ a. omega arith)
  handle-Harmless (clone_from_snapshot_request id body) now = with_body-Harmless body _ (λ req.
      respond-Harmless error_to_http_status _ _
        (clone_from_snapshot-Spares id req.volume_id req.metadata now) (λ a. omega arith))
  handle-Harmless (start_flatten_request id) now = start_flatten-Harmless id now
  handle-Harmless (get_operation_request id) now =
      respond-Harmless error_to_http_status _ _ (get_operation-Spares id) (λ a. omega arith)
  handle-Harmless (start_migration_request body) now =
      with_body-Harmless body _ (λ req. start_migration-Harmless req now)
  handle-Harmless (get_migration_request id) now =
      respond-Harmless not_found _ _ (get_migration-Spares id) (λ a. omega arith)
  handle-Harmless (cancel_migration_request id) now =
      respond-Harmless error_to_http_status _ _ (cancel_migration-Spares id) (λ a. omega arith)
