-- ===== src/DeltaReplicator.antt =====
-- framework/delta_replicator.{h,cpp}: patches between values, and what sends and applies them.
pub mod Values
pub mod Entries
pub mod Sameness
pub mod Typing
pub mod Patches
pub mod Applying
pub mod RoundTrip
pub mod Keyed
pub mod Server
pub mod Client
pub mod System
mod Scenarios
