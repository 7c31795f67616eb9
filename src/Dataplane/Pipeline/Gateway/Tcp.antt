-- ===== src/Dataplane/Pipeline/Gateway/Tcp.antt =====
-- A TCP packet on its way to the gateway: `on_tenant_frame` with the NAT's rewrite and its reply.
use light_andromeda.Prelude.{
  ℕ, ◌≡◌, ◌+◌, ◌<◌, ◌≤◌, ◌^◌, ◌++◌, ◌⊎◌, true, some, none, Bytes, length, take, drop,
}
use light_andromeda.Prelude.Map.{lookup, contains, nat_eq}
use light_andromeda.Core.Errors.{ok}
use light_andromeda.Core.FiveTuple.{FiveTuple, five_tuple_of}
use light_andromeda.Core.Ipv4
use light_andromeda.Core.Ipv4.Rewrite.{IsSound}
use light_andromeda.Core.Overlay.{decap}
use light_andromeda.Core.Overlay.RoundTrip.{decapsulated}
use light_andromeda.Core.Tcp
use light_andromeda.Nat.Apply
use light_andromeda.Nat.Apply.Sound.{l4_of, TcpVerifies}
use light_andromeda.Nat.Apply.Checksums.{TcpRewritten, apply-tcp}
use light_andromeda.Nat.Engine
use light_andromeda.Nat.Engine.{reply_of, rewrite_src, rewrite_dst}
use light_andromeda.Nat.Engine.Inv.{IsConsistent}
use light_andromeda.Nat.Engine.Rewrites.{process-IsRewrite}
use light_andromeda.Nat.Engine.RoundTrip.{process-round_trip}
use light_andromeda.Nat.State.{
  tuple_key, NatEngine, Binding, Rewrite, no_rewrite, outbound, inbound,
}
use light_andromeda.Dataplane.Pipeline.State.{Pipeline, forward, next_ip_id}
use light_andromeda.Dataplane.Pipeline.Stamp.{flow_hash_of}
use light_andromeda.Dataplane.Pipeline.Stamp.Equiv.{params_of}
use light_andromeda.Dataplane.Pipeline.Delivery.{IsReady}
use light_andromeda.Dataplane.Pipeline.Tenant.{on_tenant_frame}
use light_andromeda.Dataplane.Pipeline.Gateway.{Leaves}
use light_andromeda.Dataplane.Pipeline.Gateway.Delivered.{tenant-to-gateway}

-- A sound TCP packet whose checksum verifies.
pub record IsTcp (pkt : Bytes) : Type 0 where
  pub sound : IsSound pkt
  pub proto : Ipv4.protocol pkt ≡ 6
  pub parsed : Tcp.parse (l4_of pkt) ≡ ok (l4_of pkt)
  pub verifies : TcpVerifies pkt

-- The NAT has the invariant, its address and the port of the flow's binding are a `u32` and a `u16`, and the
-- flow is no reply to a forwarded connection.
pub record IsFlow (nat : NatEngine) (t : FiveTuple) : Type 0 where
  pub consistent : IsConsistent nat
  pub address : nat.nat_ip < 2 ^ 32
  pub not_reply : lookup t nat.dnat_rev ≡ none
  pub ports : (b : Binding) → lookup t nat.snat_fwd ≡ some b → b.port < 65536

-- The rewrite of the flow `t`: none, since every port is used, or to the address of the NAT and a port,
-- replies to which come back to the flow.
abbrev pub Translates : NatEngine → FiveTuple → NatEngine → Rewrite → ℕ → Type 0
Translates nat t nat' rw' later =
    ((rw' ≡ no_rewrite)
      × ((q : ℕ) → nat.port_min ≤ q → q ≤ nat.port_max → contains nat.used_ports q ≡ true))
    ⊎ ((p : ℕ) × (rw' ≡ rewrite_src nat.nat_ip p)
        × ((Engine.process nat' (reply_of nat.nat_ip t p) inbound later).1
            ≡ rewrite_dst t.src_ip t.src_port))

-- A TCP packet with right checksums for an address outside of the VNI arrives at the gateway: `decap` gives
-- back of the bytes that are sent the tenant's Ethernet header and a packet with right checksums, whose source is the
-- NAT's address and a port, whose destination is the tenant's, and whose segment, but for that port and the
-- checksum, is the tenant's. A reply to that address and port is rewritten to the tenant's own. Where every port of the range
-- is used, the packet has the tenant's addresses and ports.
-- The template is the configuration's, the frame fits the underlay and the buffer, the NAT has its
-- invariant, and the packet is no reply to a forwarded connection.
pub tcp-to-gateway :
    (s : Pipeline) (inner out : Bytes) (t : FiveTuple) (gw nat_ip now later : ℕ)
    → IsReady s
    → Leaves s inner gw nat_ip
    → IsTcp (drop 14 inner)
    → IsFlow s.nat t
    → five_tuple_of (drop 14 inner) ≡ some t
    → 50 + length inner ≤ length out
    → let (s', sent, d) = on_tenant_frame s inner out now in
      (d ≡ forward (50 + length inner))
      × ((pkt : Bytes) × (rw' : Rewrite) × (decap (take (50 + length inner) sent)
            ≡ ok (
                some (
                  decapsulated
                    (params_of s.cfg gw (flow_hash_of pkt) (next_ip_id s).1 s.cfg.vni)
                    (take 14 inner ++ pkt))))
          × TcpRewritten (drop 14 inner) pkt rw'
          × Translates s.nat t s'.nat rw' later)
tcp-to-gateway s inner out t gw nat_ip now later v c tcp flow e room =
    let rw' = (Engine.process s.nat t outbound now).1 in
    let (d, nat, back) = tenant-to-gateway s inner out t gw nat_ip now v c e room in
    let fields =
      process-IsRewrite s.nat t now flow.consistent.range flow.address flow.not_reply flow.ports in
    let (_, rewritten) =
      apply-tcp (drop 14 inner) rw' tcp.sound fields tcp.proto tcp.parsed tcp.verifies in
    let trip : Translates s.nat t (Engine.process s.nat t outbound now).0 rw' later =
      process-round_trip s.nat t now later flow.consistent flow.not_reply in
    (d, ((Apply.apply (drop 14 inner) rw').0, rw', back, rewritten, rw nat trip))
