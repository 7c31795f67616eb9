-- ===== src/Cli.antt =====
-- The crate andromeda-cli: how the command line sets up a switch.
pub mod Args
pub mod Setup
pub mod Switch
pub mod Run
pub mod Main
pub mod Frames
pub mod Inspect
mod Tests
mod FrameTests
