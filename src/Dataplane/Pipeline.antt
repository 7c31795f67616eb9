-- ===== src/Dataplane/Pipeline.antt =====
-- crates/andromeda-dataplane/src/pipeline.rs: the forwarding pipeline.
pub mod State
pub mod Stamp
pub mod Tenant
pub mod Batch
pub mod Underlay
pub mod Bounds
pub mod Delivery
pub mod Fixed
pub mod Gateway
