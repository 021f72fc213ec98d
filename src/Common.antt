-- ===== src/Common.antt =====
-- common/pkg: the event log and the fault engine that the simulators share.
pub mod EventLog
pub mod Paging
pub mod Fault
pub mod FaultLaws
