-- ===== src/Dataplane.antt =====
-- The crate andromeda-dataplane: the forwarding pipeline and the ring between its threads.
pub mod Command
pub mod Pipeline
mod Tests
mod PortTests
mod WorkerTests
mod DeliveryTests
mod GatewayTests
mod CommandTests
mod ChannelTests
pub mod Spsc
pub mod Xsk
pub mod Loop
pub mod Switch
pub mod Workers
