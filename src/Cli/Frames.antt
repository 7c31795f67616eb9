-- ===== src/Cli/Frames.antt =====
-- crates/andromeda-cli/src/main.rs: the frames and the pipelines that the commands make up, for the self
-- test, the benchmarks and `inspect`.
pub mod Built
pub mod Delivered
use light_andromeda.Prelude.{
  String, ℕ, ◌+◌, ◌%◌, Bool, true, false, Option, some, none, [], ◌∷◌, Bytes, Ipv4Addr, ipv4,
  length, replicate, take, write_at, update_slice, to_be16, if◌then◌else◌,
}
use light_andromeda.Core.Text.{Text, text}
use light_andromeda.Core.Ethernet
use light_andromeda.Core.Ethernet.{MacAddr}
use light_andromeda.Core.Errors.{Result, ok, err}
use light_andromeda.Core.Ipv4
use light_andromeda.Core.Overlay
use light_andromeda.Core.Overlay.{EncapParams, overlay_overhead}
use light_andromeda.Core.Udp
use light_andromeda.Control.Fabric
use light_andromeda.Control.Fabric.{Fabric}
use light_andromeda.Dataplane.Pipeline.State
use light_andromeda.Dataplane.Pipeline.State.{Pipeline, PipelineConfig}
use light_andromeda.Dataplane.Pipeline.Tenant.{Outcome, on_tenant_frame}
use light_andromeda.Nat.State as NatState

-- The UDP datagram, with its checksum.
unfoldable pub datagram : (src dst sp dp : ℕ) → Bytes → Bytes
datagram src dst sp dp payload =
    let dg0 = replicate (Udp.udp_hdr_len + length payload) 0 in
    let dg1 = (Udp.write_header dg0 sp dp (length payload % 65536)).0 in
    let dg2 = write_at dg1 Udp.udp_hdr_len payload in
    write_at dg2 6 (to_be16 (Udp.compute_checksum src dst dg2))

-- The IPv4 packet around a datagram.
unfoldable pub packet : (src dst : ℕ) → Bytes → Bytes
packet src dst dg =
    let ip0 = replicate (Ipv4.ipv4_min_hdr_len + length dg) 0 in
    let ip1 =
      update_slice ip0 0 20
        (λ h. (Ipv4.write_header h src dst Ipv4.proto_udp 64 1 true (length dg % 65536)).0) in
    write_at ip1 20 dg

abbrev pub frame_dst : MacAddr
frame_dst = record { b0 = 2; b1 = 0; b2 = 0; b3 = 0; b4 = 0; b5 = 0x0b }

abbrev pub frame_src : MacAddr
frame_src = record { b0 = 2; b1 = 0; b2 = 0; b3 = 0; b4 = 0; b5 = 0x0a }

-- The Ethernet frame around a packet.
unfoldable pub frame : Bytes → Bytes
frame ip =
    let f0 = replicate (Ethernet.eth_hdr_len + length ip) 0 in
    let f1 =
      update_slice f0 0 14
        (λ h. (Ethernet.write_header h frame_dst frame_src Ethernet.ethertype_ipv4).0) in
    write_at f1 14 ip

-- The frame that `udp_tenant_frame` and `demo_frame` make around a payload.
unfoldable pub udp_frame : (src dst sp dp : ℕ) → Bytes → Bytes
udp_frame src dst sp dp payload = frame (packet src dst (datagram src dst sp dp payload))

unfoldable pub udp_tenant_frame : (src dst sp dp payload_len : ℕ) → Bytes
unfolding udp_frame
udp_tenant_frame src dst sp dp payload_len = udp_frame src dst sp dp (replicate payload_len 0xab)

unfoldable pub demo_frame : (src dst : ℕ) → Bytes
unfolding udp_frame
demo_frame src dst = udp_frame src dst 40000 4242 (text "hello from the tenant")

-- The parameters of the packet that `inspect` decodes without an argument.
abbrev pub synth_params : EncapParams
synth_params = record {
  outer_src_mac = record { b0 = 2; b1 = 0; b2 = 0; b3 = 0; b4 = 0xa1; b5 = 1 };
  outer_dst_mac = record { b0 = 2; b1 = 0; b2 = 0; b3 = 0; b4 = 0xa1; b5 = 2 };
  outer_src_ip = ipv4 192 168 1 1;
  outer_dst_ip = ipv4 192 168 1 2;
  vni = 100;
  flow_hash = Overlay.flow_hash (ipv4 10 0 0 10) (ipv4 10 0 0 20) 17 40000 4242;
  ip_id = 0x4242;
  outer_udp_checksum = true;
}

-- None if `unwrap` panics.
unfoldable pub synth_overlay_packet : Option Bytes
synth_overlay_packet =
    let inner = udp_tenant_frame (ipv4 10 0 0 10) (ipv4 10 0 0 20) 40000 4242 12 in
    let (out, n) =
      Overlay.encap (replicate (overlay_overhead + length inner) 0) inner synth_params in
    elim n [ ok len ↦ some (take len out) | err e ↦ none ]

-- The configuration of `selftest` and of the benchmarks.
abbrev pub bench_config : Option Ipv4Addr → Option Ipv4Addr → PipelineConfig
bench_config nat_ip gateway = record {
  local_node_ip = ipv4 192 168 1 1;
  outer_src_mac = record { b0 = 2; b1 = 0; b2 = 0; b3 = 0; b4 = 0; b5 = 1 };
  outer_dst_mac = record { b0 = 2; b1 = 0; b2 = 0; b3 = 0; b4 = 0; b5 = 2 };
  vni = 100;
  nat_ip = nat_ip;
  gateway_node_ip = gateway;
  virtual_gateway_mac = record { b0 = 2; b1 = 0; b2 = 0; b3 = 0; b4 = 0; b5 = 0xff };
  outer_udp_checksum = false;
  underlay_mtu = 1500;
  virtual_gateway_ip = ipv4 10 0 0 1;
}

-- A VPC, and if asked for, an endpoint of it on another node.
unfoldable pub bench_fabric : (name : String) → Bool → Fabric
bench_fabric name east_west =
    let fabric =
      Fabric.add_vpc (Fabric.new (ipv4 192 168 1 1))
        (record { vni = 100; name = name; cidr = (ipv4 10 0 0 0, 24) }) in
    if east_west
    then (Fabric.add_endpoint fabric (record {
      vni = 100;
      inner_ip = ipv4 10 0 0 20;
      inner_mac = record { b0 = 2; b1 = 0; b2 = 0; b3 = 0; b4 = 0; b5 = 0x20 };
      node_ip = ipv4 192 168 1 2;
      local = false;
    }))
    else fabric

abbrev pub when : Bool → Ipv4Addr → Option Ipv4Addr
when b ip = if b then some ip else none

-- None if the assertions on the ports fail.
unfoldable pub build_pipeline : (east_west snat : Bool) → Option Pipeline
unfolding bench_fabric
build_pipeline east_west snat =
    let cfg = bench_config (when snat (ipv4 203 0 113 7)) (when snat (ipv4 192 168 1 254)) in
    elim (NatState.new (ipv4 203 0 113 7) 20000 60000) [
      | none ↦ none
      | some nat ↦ some (State.new cfg (bench_fabric "b" east_west) nat)
    ]

-- What `selftest` does with its frame: the pipeline, the buffer and the decision.
unfoldable pub selftest : Option Outcome
unfolding bench_fabric demo_frame
selftest = elim (NatState.new (ipv4 203 0 113 7) 20000 30000) [
  | none ↦ none
  | some nat ↦ some (
      on_tenant_frame (State.new (bench_config none none) (bench_fabric "demo" true) nat)
        (demo_frame (ipv4 10 0 0 10) (ipv4 10 0 0 20)) (replicate 2048 0) 1)
]
