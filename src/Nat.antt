-- ===== src/Nat.antt =====
-- The crate andromeda-nat: stateful address translation.
pub mod TimingWheel
pub mod State
pub mod Ports
pub mod Engine
pub mod Gc
pub mod Apply
mod Tests
mod EngineTests
