-- ===== src/Core.antt =====
-- The crate andromeda-core: wire formats, checksums and the overlay.
pub mod Text
pub mod Errors
pub mod Checksum
pub mod Ethernet
pub mod Ipv4
pub mod Udp
pub mod Tcp
pub mod FiveTuple
pub mod Arp
pub mod Icmp
pub mod Overlay
mod Tests
mod ArpTests
mod IcmpTests
