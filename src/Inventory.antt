-- ===== src/Inventory.antt =====
-- inventory/: inventories, their replication, the quick bar.
pub mod Equipment
pub mod Replication
pub mod Store
pub mod Operations
pub mod Stacks
pub mod Adding
pub mod Fitting
pub mod Conserving
pub mod Mirroring
pub mod Stats
pub mod QuickBar
mod Scenarios
