-- ===== src/Netbox.antt =====
-- netbox-sim/internal/state: sites, locations, racks and devices.
pub mod Types
pub mod Store
pub mod Ancestors
pub mod Counts
