-- ===== src/Ovsdb.antt =====
-- ovn-sim/internal/ovsdb: the in-memory OVSDB server of the OVN simulator.
pub mod Json
pub mod Rows
pub mod Mutations
pub mod Store
pub mod Named
pub mod Transact
pub mod Touches
pub mod Rollback
pub mod Atomic
pub mod Results
pub mod RowLaws
pub mod SetLaws
pub mod Monitor
pub mod Notices
pub mod Registered
