-- ===== src/Lib.antt =====
-- Light Andromeda: a user-space overlay switch. A frame that a tenant sends is resolved by its VNI and
-- inner destination, translated by the NAT if it leaves for the gateway, and sent behind an outer
-- Ethernet, IPv4, UDP and Andromeda header; on the way back it is decapsulated, translated in reverse
-- and delivered.
--
-- The parts and their files:
-- Core: crates/andromeda-core/src. Core/Checksum is checksum.rs (the Internet checksum and its
--   incremental update), Core/Ethernet, Core/Ipv4, Core/Udp, Core/Tcp, Core/Arp and Core/Icmp are the
--   files of those names, Core/FiveTuple and Core/Errors are lib.rs, Core/Overlay is overlay.rs.
-- Nat: crates/andromeda-nat/src. Nat/TimingWheel is timing_wheel.rs; Nat/State, Nat/Ports, Nat/Engine
--   and Nat/Gc are `NatEngine` of lib.rs, and Nat/Apply its `apply`, which patches a packet in place.
-- Control: crates/andromeda-control/src. Control/Fabric is lib.rs; Control/Config is config.rs, with
--   `NodeConfig::parse` and `load` in Control/Config/Parse.
-- Dataplane: crates/andromeda-dataplane/src. Dataplane/Pipeline is pipeline.rs, one child for each
--   handler, and Dataplane/Spsc is spsc.rs. Dataplane/Xsk is `XskSocket` of afxdp.rs with the
--   functions of csrc/xsk_shim.c that it calls, Dataplane/Loop and Dataplane/Switch are its `run` and
--   `run_switch`, Dataplane/Workers is its `run_multiqueue`, and Dataplane/Command is control.rs.
-- Cli: crates/andromeda-cli/src/main.rs. Cli/Main is `main`, Cli/Run and Cli/Switch are `run_cmd` and
--   `switch_cmd` from their arguments to the state that they start, with Cli/Args and Cli/Setup for what
--   the two write alike, Cli/Frames is `selftest` and the frames and pipelines of the benchmarks, and
--   Cli/Inspect is `inspect_cmd`, whose printed lines are values.
-- Prelude: bytes, slices, writes in place, and hash maps as association lists.
--
-- A packet is a list of bytes, and a view (`Ipv4View`, `UdpViewMut`) is the buffer that it borrows: a
-- parse gives the buffer back or an error, and a setter gives the changed buffer. A method on
-- `&mut self` takes the state and returns the new one beside its result. Machine integers are natural
-- numbers with the wrap-around written out (`% 2 ^ 32` for the accumulator of a checksum, `% 65536` for
-- a length field); a shift or a mask is a division or a remainder. A hash map is an association list
-- of which only look-up, insertion, removal and `retain` are used. The shared handle of the fabric is
-- the fabric itself where one pipeline reads it, and a reload is a step between two frames; with several
-- workers, in Dataplane/Workers, it is the address of a cell, which each turn of a worker loads.
--
-- The rings of a socket are the lists of what stands in them. The kernel acts between the turns of a
-- loop: it receives a frame into the oldest one of the FILL ring, at an offset of it, or sends the
-- oldest descriptor of the TX ring. A turn is given what it observes: the clock, the stop flag, and
-- what `poll` finds. libxdp is the parameter `Libxdp`, with its documented behaviour in `IsLibxdp`.
-- Text is the list of its code points, and what is used of `str` stands in Core/Text. The readers of
-- TOML, of files and of UTF-8 are the parameter `Reader`.
--
-- Fuel: `Core.Checksum.fold_loop` takes the sum as fuel, and a round makes a sum above 65535 smaller;
-- `Nat.Ports.scan_ports` makes the rounds of the source's `for`; `Nat.TimingWheel.drain` likewise.
-- `Cli.Inspect.decode_frame` is given one more than the bytes, and each nested frame is shorter.
-- `Dataplane.Spsc.next_power` doubles at most as often as the capacity that is asked for.
--
-- Workers take whole turns: a command of the control socket takes effect between two turns.
--
-- Not modelled: the binding and closing of an AF_XDP socket, its wake-ups, the pinning of threads, the
-- binding of the Unix socket and its permissions, the timing and the statistics of the benchmarks
-- (`bench_cmd`, `bench_sweep`), what is printed by the commands other than `inspect`, and the memory
-- orderings of the ring.
pub mod Prelude
pub mod Core
pub mod Nat
pub mod Control
pub mod Dataplane
pub mod Cli
