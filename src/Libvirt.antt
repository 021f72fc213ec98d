-- ===== src/Libvirt.antt =====
-- libvirt-sim/internal/state: the hosts and domains of the libvirt simulator.
pub mod Types
pub mod Domains
pub mod DomainXml
pub mod Hosts
pub mod Store
pub mod Migration
pub mod Capacity
pub mod Starts
pub mod LiveMigration
pub mod Ports
pub mod Touches
pub mod Runs
