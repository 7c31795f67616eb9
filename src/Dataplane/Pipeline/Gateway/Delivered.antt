-- ===== src/Dataplane/Pipeline/Gateway/Delivered.antt =====
-- `on_tenant_frame` against `decap` on the gateway.
use light_andromeda.Dataplane.Pipeline.Delivery.{flow_hash_of-lt, parse-long, IsReady}
use light_andromeda.Prelude.{
  le→ltb_false, arith, true, refl, sym, ◌∙◌, ap, write_at, some, none, ◌+◌, drop, ◌≡◌, ◌≤◌, ◌++◌,
  length, take, ℕ, Bytes,
}
use light_andromeda.Dataplane.Pipeline.Tenant.{
  encap_ip, encap_for_vni, on_tenant_frame, route, Route, encap_placed,
}
use light_andromeda.Core.Overlay.{decap, encap}
use light_andromeda.Dataplane.Pipeline.State.{Pipeline, forward, next_ip_id}
use light_andromeda.Core.Errors.{ok}
use light_andromeda.Core.Ethernet
use light_andromeda.Core.FiveTuple.{FiveTuple, five_tuple_of}
use light_andromeda.Core.Ipv4
use light_andromeda.Core.Overlay.RoundTrip.{decapsulated, decap-encap, IsParams}
use light_andromeda.Control.Fabric
use light_andromeda.Nat.Apply
use light_andromeda.Nat.Apply.Parses.{apply-parses}
use light_andromeda.Nat.Engine
use light_andromeda.Nat.State.{outbound}
use light_andromeda.Dataplane.Pipeline.Stamp.{flow_hash_of}
use light_andromeda.Dataplane.Pipeline.Stamp.Equiv.{params_of}
use light_andromeda.Dataplane.Pipeline.Gateway.{
  Leaves, translated, length-translated, encap_placed-translated,
}

abbrev gateway_route : ℕ → Route
gateway_route gw = record { dst_node = gw; new_dst_mac = none; do_snat = true }

route-gateway :
    (s : Pipeline) (vni ip gw nat_ip : ℕ)
    → Fabric.resolve s.fabric vni ip ≡ none
    → s.cfg.gateway_node_ip ≡ some gw
    → s.cfg.nat_ip ≡ some nat_ip
    → route s vni ip ≡ some (gateway_route gw)
unfolding route
route-gateway s vni ip gw nat_ip h g n = rw (h, g, n, route) refl

on_tenant_frame_routed :
    (s : Pipeline) (inner out : Bytes) (gw nat_ip now : ℕ)
    → Leaves s inner gw nat_ip
    → 50 + length inner ≤ length out
    → on_tenant_frame s inner out now
      ≡ encap_placed s
          (write_at out 50 inner)
          (gateway_route gw)
          (length inner)
          (flow_hash_of (drop 14 inner))
          now
          s.cfg.vni
unfolding on_tenant_frame encap_for_vni encap_ip Ethernet.payload
on_tenant_frame_routed s inner out gw nat_ip now c l =
    let eth : Ethernet.parse inner ≡ ok inner = parse-long inner c.ethernet in
    let way =
      route-gateway s s.cfg.vni (Ipv4.dst (drop 14 inner)) gw nat_ip c.unresolved c.gateway
        c.snat in
    rw (eth, encap_for_vni, c.ethertype, c.parsed)
      (rw (way, encap_ip) (rw (c.small, le→ltb_false (length out) (50 + length inner) l) refl))

-- A TCP or UDP frame for an address outside of the VNI is translated and forwarded to the gateway: the NAT is
-- that after the packet, and `decap` gives back of the bytes that are sent the frame with the packet that
-- the NAT's rewrite makes of the tenant's, under the flow hash of that packet.
-- The template is the configuration's, and the frame fits the underlay and the buffer.
pub tenant-to-gateway :
    (s : Pipeline) (inner out : Bytes) (t : FiveTuple) (gw nat_ip now : ℕ)
    → IsReady s
    → Leaves s inner gw nat_ip
    → five_tuple_of (drop 14 inner) ≡ some t
    → 50 + length inner ≤ length out
    → let (nat, rw') = Engine.process s.nat t outbound now in
      let (s', sent, d) = on_tenant_frame s inner out now in
      let pkt = (Apply.apply (drop 14 inner) rw').0 in
      let p = params_of s.cfg gw (flow_hash_of pkt) (next_ip_id s).1 s.cfg.vni in
      (d ≡ forward (50 + length inner))
      × (s'.nat ≡ nat)
      × (decap (take (50 + length inner) sent) ≡ ok (some (decapsulated p (take 14 inner ++ pkt))))
tenant-to-gateway s inner out t gw nat_ip now v c e room =
    let rw' = (Engine.process s.nat t outbound now).1 in
    let pkt = (Apply.apply (drop 14 inner) rw').0 in
    let frame = translated inner rw' in
    let p = params_of s.cfg gw (flow_hash_of pkt) (next_ip_id s).1 s.cfg.vni in
    let len = length-translated inner rw' in
    let (sent_is, nat, d) =
      encap_placed-translated s out inner t now c.ethernet room e gw (flow_hash_of (drop 14 inner))
        (apply-parses (drop 14 inner) rw' c.parsed) v c.inner_len in
    let runs = on_tenant_frame_routed s inner out gw nat_ip now c room in
    let fit : IsParams p = record {
      src = v.local;
      dst = c.node;
      flow_hash = flow_hash_of-lt pkt;
    } in
    let (_, back) =
      decap-encap out frame p fit (omega (arith, len, room)) (omega (arith, len, c.inner_len)) in
    (
      ap (λ o. o.2) runs ∙ d,
      ap (λ o. o.0.nat) runs ∙ nat,
      ap (λ o. decap (take (50 + length inner) o)) (ap (λ o. o.1) runs ∙ sent_is)
          ∙ ap (λ n. decap (take (50 + n) (encap out frame p).0)) (sym len)
          ∙ back,
    )
