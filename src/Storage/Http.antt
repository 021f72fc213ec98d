-- ===== src/Storage/Http.antt =====
-- storage-sim/internal/handler/storage.go: the handlers, on the store and the goroutines.
use cirrus_sim.Storage.Types.{Error, Action, Time}
use cirrus_sim.Base.{String, ℕ, if◌then◌else◌, some, ◌==◌, none, string_eq, ◌++◌, ◌∷◌, []}
use cirrus_sim.Floats.{Ratios}
use cirrus_sim.Storage.Runs.{System, volume_of_request}
use cirrus_sim.Storage.Flatten.{start_flatten, get_operation}
use cirrus_sim.Storage.Migration.{start_migration, get_migration, cancel_migration}
use cirrus_sim.Storage.Backends.{get_backend}
use cirrus_sim.Base.Exec.{ok, err}
use cirrus_sim.Storage.Volumes.{
  create_volume, get_volume, list_volumes, delete_volume, extend_volume, export_volume,
  unexport_volume,
}
use cirrus_sim.Storage.Snapshots.{
  create_snapshot, list_snapshots, delete_snapshot, clone_from_snapshot,
}
use cirrus_sim.Storage.Requests.{
  Request, Content, Response, Body, StartMigrationRequest, error_message, backend_info, no_content,
  of_started, of_migration, not_found, of_backend, backend_health, error_to_http_status, of_health,
  create_volume_request, of_volume, get_volume_request, list_volumes_request, of_volumes,
  delete_volume_request, extend_volume_request, export_volume_request, unexport_volume_request,
  create_snapshot_request, of_snapshot, list_snapshots_request, of_snapshots,
  delete_snapshot_request, clone_from_snapshot_request, start_flatten_request,
  get_operation_request, of_operation, start_migration_request, get_migration_request,
  cancel_migration_request,
}

-- storage-sim/internal/handler/storage.go: the handlers. A request is its path values, headers and
-- body; a body that `json.Decode` refuses is `none`. The text of an error is left out of its response.

module _ {R : Type 0} where
  -- `writeError`
  unfoldable pub write_error : ℕ → Response R
  write_error status = record { status = status; content = error_message }

  -- `writeJSON`
  unfoldable pub write_json : ℕ → Content R → Response R
  write_json status content = record { status = status; content = content }

  -- a call of the store, with the response of its handler
  unfoldable pub respond :
      {A : Type 0} → (Error → ℕ) → (A → Response R) → Action R A → System R → Response R × System R
  respond code show m y =
      let (r, s) = m y.store in
      elim r [
        | ok a ↦ (show a, record y { store = s })
        | err e ↦ (write_error (code e), record y { store = s })
      ]

  -- `json.NewDecoder(r.Body).Decode(&req)`, with the response of its callers
  unfoldable pub with_body :
      {A : Type 0}
      → Body A
      → (A → System R → Response R × System R)
      → System R
      → Response R × System R
  with_body none k y = (write_error 400, y)
  with_body (some a) k y = k a y

  -- the test of the header `X-Backend-Id`
  unfoldable pub with_backend_id :
      String → (System R → Response R × System R) → System R → Response R × System R
  with_backend_id id k y = if id == "" then (write_error 400, y) else k y

module _ (F : Ratios) where
  open F use {Ratio}

  -- `w.WriteHeader(http.StatusNoContent)`
  abbrev pub empty_response : Unit {0} → Response Ratio
  empty_response _ = write_json 204 no_content

  unfoldable pub handle_start_flatten : String → Time → System Ratio → Response Ratio × System Ratio
  handle_start_flatten id now y =
      let (r, s) = start_flatten id now y.store in
      elim r [
        | ok a ↦ (
          write_json 202 (of_started a.0),
          record y { store = s; flattens = y.flattens ++ a.1 ∷ [] },
        )
        | err e ↦ (write_error (error_to_http_status e), record y { store = s })
      ]

  unfoldable pub handle_start_migration :
      StartMigrationRequest → Time → System Ratio → Response Ratio × System Ratio
  handle_start_migration req now y =
      let (r, s) = start_migration F req.volume_id req.dest_backend_id now y.store in
      elim r [
        | ok a ↦ (
          write_json 202 (of_migration a.0),
          record y { store = s; migrations = y.migrations ++ a.1 ∷ [] },
        )
        | err e ↦ (write_error (error_to_http_status e), record y { store = s })
      ]

  -- the handler of each route
  unfoldable pub handle : Request → Time → System Ratio → Response Ratio × System Ratio
  handle (backend_info id) now =
      with_backend_id id (respond not_found (λ b. write_json 200 (of_backend b)) (get_backend id))
  handle (backend_health id) now = with_backend_id id (λ y.
      respond not_found (λ _. write_json 200 (of_health y.store.config.default_latency_ms))
        (get_backend id) y)
  handle (create_volume_request backend_id body) now = with_backend_id backend_id (
      with_body body (λ req.
        respond error_to_http_status (λ v. write_json 201 (of_volume v))
          (create_volume F
            (volume_of_request backend_id req.volume_id req.size_gb req.thin_provisioned
              req.qos_policy req.metadata)
            now)))
  handle (get_volume_request id) now =
      respond not_found (λ v. write_json 200 (of_volume v)) (get_volume id)
  handle (list_volumes_request backend_id state) now =
      λ y. (write_json 200 (of_volumes (list_volumes backend_id state y.store)), y)
  handle (delete_volume_request id) now =
      respond error_to_http_status empty_response (delete_volume id)
  handle (extend_volume_request id body) now = with_body body (λ new_size_gb.
      respond error_to_http_status (λ v. write_json 200 (of_volume v))
        (extend_volume F id new_size_gb))
  handle (export_volume_request id body) now = with_body body (λ req.
      respond error_to_http_status (λ v. write_json 200 (of_volume v))
        (export_volume id req.host_id req.protocol))
  handle (unexport_volume_request id) now =
      respond error_to_http_status (λ v. write_json 200 (of_volume v)) (unexport_volume id)
  handle (create_snapshot_request id body) now = with_body body (λ req.
      respond error_to_http_status (λ snap. write_json 201 (of_snapshot snap))
        (create_snapshot id req.snapshot_id req.metadata now))
  handle (list_snapshots_request id) now =
      respond error_to_http_status (λ snaps. write_json 200 (of_snapshots snaps))
        (list_snapshots id)
  handle (delete_snapshot_request id) now =
      respond error_to_http_status empty_response (delete_snapshot id)
  handle (clone_from_snapshot_request id body) now = with_body body (λ req.
      respond error_to_http_status (λ v. write_json 201 (of_volume v))
        (clone_from_snapshot F id req.volume_id req.metadata now))
  handle (start_flatten_request id) now = handle_start_flatten id now
  handle (get_operation_request id) now =
      respond error_to_http_status (λ op. write_json 200 (of_operation op)) (get_operation id)
  handle (start_migration_request body) now = with_body body (λ req. handle_start_migration req now)
  handle (get_migration_request id) now =
      respond not_found (λ m. write_json 200 (of_migration m)) (get_migration id)
  handle (cancel_migration_request id) now =
      respond error_to_http_status empty_response (cancel_migration id)
