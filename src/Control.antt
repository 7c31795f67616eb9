-- ===== src/Control.antt =====
-- The crate andromeda-control: the fabric map and its configuration.
pub mod Fabric
pub mod Config
mod Tests
pub mod ConfigTests
