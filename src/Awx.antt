-- ===== src/Awx.antt =====
-- awx-sim/internal/state: job templates and the jobs that are launched from them.
pub mod Types
pub mod Store
pub mod Jobs
pub mod Runs
pub mod Finals
