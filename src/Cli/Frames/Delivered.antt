-- ===== src/Cli/Frames/Delivered.antt =====
-- The frames of the self test and of the benchmarks are delivered.
use light_andromeda.Prelude.{
  String, inr, inl, Bool-cases, le→ltb_false, write_at, take, ◌+◌, IsBytes, ◌≤◌, ◌^◌, some, ◌≡◌,
  length, true, refl, false, ◌<◌, Bytes, arith, Ipv4Addr, ℕ, ipv4, none,
}
use light_andromeda.Cli.Frames.{udp_frame, datagram, bench_config, bench_fabric}
use light_andromeda.Cli.Frames.Built.{udp_frame-IsWritten, length-datagram}
use light_andromeda.Control.Fabric
use light_andromeda.Control.Fabric.{NextHop}
use light_andromeda.Core.Ethernet
use light_andromeda.Core.Ipv4
use light_andromeda.Core.Ipv4.Written.{IsWritten}
use light_andromeda.Dataplane.Pipeline.Delivery.{IsReady, Carries, readdressed, tenant-to-tenant}
use light_andromeda.Dataplane.Pipeline.State.{Pipeline, new, forward}
use light_andromeda.Dataplane.Pipeline.Tenant.{on_tenant_frame, needs_frag}
use light_andromeda.Dataplane.Pipeline.Underlay.{on_underlay_frame, serves}
use light_andromeda.Nat.State.{NatEngine}

-- A pipeline of the benchmarks with an endpoint on another node and without NAT, over any engine and with any
-- name of their VPC.
abbrev pub east_west : String → NatEngine → Pipeline
east_west name nat = new (bench_config none none) (bench_fabric name true) nat

-- The endpoint.
abbrev pub endpoint : Ipv4Addr
endpoint = ipv4 10 0 0 20

abbrev pub endpoint_hop : NextHop
endpoint_hop = record {
  node_ip = ipv4 192 168 1 2;
  inner_mac = record { b0 = 2; b1 = 0; b2 = 0; b3 = 0; b4 = 0; b5 = 0x20 };
  local = false;
}

resolves :
    (name : String) (nat : NatEngine)
    → Fabric.resolve (east_west name nat).fabric 100 endpoint ≡ some endpoint_hop
unfolding bench_fabric Fabric.resolve light_andromeda.Prelude.Map.lookup new Fabric.add_endpoint
    light_andromeda.Prelude.Map.insert Fabric.add_vpc Fabric.new
resolves name nat = refl

east_west-IsReady : (name : String) (nat : NatEngine) → IsReady (east_west name nat)
unfolding new
east_west-IsReady name nat = record { tmpl = refl; local = omega arith }

east_west-serves : (name : String) (nat : NatEngine) → serves (east_west name nat) 100 ≡ true
unfolding new serves
east_west-serves name nat = refl

small_enough :
    (name : String) (nat : NatEngine) (pkt dg : Bytes) (src : ℕ)
    → IsWritten pkt src endpoint 17 dg
    → length dg ≤ 1430
    → needs_frag (east_west name nat).cfg pkt ≡ false
unfolding new
small_enough name nat pkt dg src w l =
    let le : Ipv4.total_length pkt ≤ 1450 = omega (arith, w.total_is) in
    let fits = le→ltb_false 1450 (Ipv4.total_length pkt) le in
    elim (Bool-cases (Ipv4.dont_fragment pkt)) [ inl d ↦ rw (d, fits) refl | inr d ↦ rw d refl ]

udp_frame-Carries :
    (name : String) (nat : NatEngine) (src sp dp : ℕ) (payload : Bytes)
    → src < 2 ^ 32
    → sp < 65536
    → dp < 65536
    → length payload ≤ 1422
    → IsBytes payload
    → let inner = udp_frame src endpoint sp dp payload in
      Carries (east_west name nat) inner (Ethernet.payload inner) endpoint_hop
unfolding new
udp_frame-Carries name nat src sp dp payload hs hsp hdp l b =
    let (parsed, ty, n, w, _, _, _, _) =
      udp_frame-IsWritten src endpoint sp dp payload hs (omega arith) hsp hdp (omega arith) b in
    let dg = datagram src endpoint sp dp payload in
    let pkt = Ethernet.payload (udp_frame src endpoint sp dp payload) in
    let m : length dg ≡ 8 + length payload =
      length-datagram src endpoint sp dp payload (omega arith) in
    record {
      ethernet = omega arith;
      ethertype = ty;
      parsed = w.parsed;
      resolved = rw w.dst_is (resolves name nat);
      small = small_enough name nat pkt dg src w (omega arith);
      inner_len = omega arith;
      node = omega arith;
    }

-- A frame of the benchmarks to their endpoint, from any address and with any ports and a payload of at
-- most 1422 bytes, is forwarded in a buffer that holds it with 50 bytes more by a pipeline of theirs
-- without NAT, and another such pipeline delivers from these bytes, in a buffer that holds the frame, the
-- frame with the endpoint's MAC.
udp_frame-delivered :
    (name : String) (nat nat_r : NatEngine) (src sp dp : ℕ) (payload out out_r : Bytes)
    (now now_r : ℕ)
    → src < 2 ^ 32
    → sp < 65536
    → dp < 65536
    → length payload ≤ 1422
    → IsBytes payload
    → 92 + length payload ≤ length out
    → 42 + length payload ≤ length out_r
    → let inner = udp_frame src endpoint sp dp payload in
      let (s', sent, d) = on_tenant_frame (east_west name nat) inner out now in
      let (r', got, e) =
        on_underlay_frame (east_west name nat_r) (take (50 + length inner) sent) out_r now_r in
      (length inner ≡ 42 + length payload)
      × (d ≡ forward (50 + length inner))
      × (e ≡ forward (length inner))
      × (got ≡ write_at out_r 0 (readdressed inner endpoint_hop))
unfolding new
udp_frame-delivered name nat nat_r src sp dp payload out out_r now now_r hs hsp hdp l b room
      room_r =
    let inner = udp_frame src endpoint sp dp payload in
    let (parsed, ty, n, w, _, _, _, _) =
      udp_frame-IsWritten src endpoint sp dp payload hs (omega arith) hsp hdp (omega arith) b in
    let (d, e, got) =
      tenant-to-tenant (east_west name nat) (east_west name nat_r) inner (Ethernet.payload inner)
        out out_r endpoint_hop now now_r (east_west-IsReady name nat)
        (udp_frame-Carries name nat src sp dp payload hs hsp hdp l b) (omega arith)
        (east_west-serves name nat_r) refl (omega arith) in
    (n, d, e, got)
