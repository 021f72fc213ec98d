-- ===== src/Storage.antt =====
-- storage-sim/internal/state: the storage simulator's store.
pub mod Types
pub mod Backends
pub mod Volumes
pub mod Snapshots
pub mod Flatten
pub mod Migration
pub mod Effects
pub mod Accounting
pub mod Consistent
pub mod Rewrites
pub mod VolumeLaws
pub mod VolumeKeeps
pub mod SnapshotKeeps
pub mod JobKeeps
pub mod Moves
pub mod BackendKeeps
pub mod Runs
pub mod Decides
pub mod JobLaws
pub mod MigrationLaws
pub mod MigrationEnds
pub mod OperationIds
pub mod Requests
pub mod Http
pub mod Failures
