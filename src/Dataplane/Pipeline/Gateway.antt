-- ===== src/Dataplane/Pipeline/Gateway.antt =====
-- From a tenant's frame to the gateway: `on_tenant_frame` with the translation of the NAT.
pub mod Delivered
pub mod Tcp
pub mod Reply
use light_andromeda.Dataplane.Pipeline.Delivery.{
  flow_hash_of-lt, parse-long, IsReady, stamped-encap,
}
use light_andromeda.Prelude.{
  le→ltb_false, length-take, drop-append, arith, true, slice, refl, update_slice-write_at, inr, sym,
  take-append-drop, ◌∙◌, ap, inl, ◌^◌, Bool-cases, ◌<◌, slice-write_at, write_at, false, some, none,
  ◌+◌, Stored-behind, drop, ◌≡◌, ◌≤◌, ◌++◌, length, take, ℕ, Bytes,
}
use light_andromeda.Dataplane.Pipeline.Tenant.{
  encap_ip, encap_for_vni, on_tenant_frame, route, Route, needs_frag, translate_out, snat_egress,
  encap_placed,
}
use light_andromeda.Core.Overlay.{decap, EncapParams, encap}
use light_andromeda.Dataplane.Pipeline.State.{template, Pipeline, forward, next_ip_id}
use light_andromeda.Core.Errors.{ok}
use light_andromeda.Core.Ethernet
use light_andromeda.Core.FiveTuple.{FiveTuple, five_tuple_of}
use light_andromeda.Core.Ipv4
use light_andromeda.Core.Overlay.RoundTrip.{decapsulated, decap-encap, IsParams}
use light_andromeda.Control.Fabric
use light_andromeda.Nat.Apply
use light_andromeda.Nat.Apply.Shape.{apply-Stored}
use light_andromeda.Nat.Apply.Parses.{apply-parses}
use light_andromeda.Nat.Apply.Checksums.{apply-noop}
use light_andromeda.Nat.Engine
use light_andromeda.Nat.State.{outbound, is_noop, Rewrite, NatEngine}
use light_andromeda.Dataplane.Pipeline.Stamp.{flow_hash_of, stamp_outer}
use light_andromeda.Dataplane.Pipeline.Stamp.Equiv.{params_of}

-- The inner frame is IPv4, no endpoint of the VNI has its destination, and it fits the underlay; frames
-- without an endpoint go to the gateway `gw`, translated to `nat_ip`.
pub record Leaves (s : Pipeline) (inner : Bytes) (gw nat_ip : ℕ) : Type 0 where
  pub ethernet : 14 ≤ length inner
  pub ethertype : Ethernet.ethertype inner ≡ Ethernet.ethertype_ipv4
  pub parsed : Ipv4.parse (drop 14 inner) ≡ ok (drop 14 inner)
  pub unresolved : Fabric.resolve s.fabric s.cfg.vni (Ipv4.dst (drop 14 inner)) ≡ none
  pub gateway : s.cfg.gateway_node_ip ≡ some gw
  pub snat : s.cfg.nat_ip ≡ some nat_ip
  pub small : needs_frag s.cfg (drop 14 inner) ≡ false
  pub inner_len : length inner ≤ 65499
  pub node : gw < 2 ^ 32

-- `stamp_outer` with the next identification, on a switch with the configuration of another one.
stamped-next :
    (s s1 : Pipeline) (out inner : Bytes) (dst flow vni : ℕ)
    → IsReady s
    → s1.cfg ≡ s.cfg
    → s1.tmpl ≡ s.tmpl
    → s1.ip_id ≡ s.ip_id
    → 50 + length inner ≤ length out
    → length inner ≤ 65499
    → stamp_outer
        (next_ip_id s1).0
        (write_at out 50 inner)
        (length inner)
        dst
        flow
        (next_ip_id s1).1
        vni
      ≡ (encap out inner (params_of s.cfg dst flow (next_ip_id s).1 vni)).0
unfolding next_ip_id
stamped-next s s1 out inner dst flow vni v cfg tmpl ip_id room n =
    let id = (next_ip_id s1).1 in
    let ready : IsReady (next_ip_id s1).0 = record {
      tmpl = tmpl ∙ v.tmpl ∙ ap template (sym cfg);
      local = rw cfg v.local;
    } in
    sym (
      ap (λ o. o.0)
        (stamped-encap (next_ip_id s1).0 out inner dst flow id vni ready room n (omega arith)))
    ∙ ap (λ c. (encap out inner (params_of c dst flow id vni)).0) cfg
    ∙ ap
        (λ i.
          (encap out inner
            (params_of s.cfg dst flow (next_ip_id (record s { ip_id = i })).1 vni)).0)
        ip_id

-- The packet after the rewrite, behind the Ethernet header that it had.
abbrev pub translated : Bytes → Rewrite → Bytes
translated inner rw' = take 14 inner ++ (Apply.apply (drop 14 inner) rw').0

pub length-translated :
    (inner : Bytes) (rw' : Rewrite) → length (translated inner rw') ≡ length inner
length-translated inner rw' = (Stored-behind 14 inner _ (apply-Stored (drop 14 inner) rw')).len

module _ (s : Pipeline) (out inner : Bytes) (t : FiveTuple) (now : ℕ) (l : 14 ≤ length inner)
    (room : 50 + length inner ≤ length out) (e : five_tuple_of (drop 14 inner) ≡ some t) where
  abbrev translation : NatEngine × Rewrite
  translation = Engine.process s.nat t outbound now

  translate_out-placed :
      let (s1, out1) = translate_out s (write_at out 50 inner) 64 (50 + length inner) now in
      (out1 ≡ write_at out 50 (translated inner translation.1))
      × (s1.nat ≡ translation.0)
      × (s1.cfg ≡ s.cfg)
      × (s1.tmpl ≡ s.tmpl)
      × (s1.ip_id ≡ s.ip_id)
  unfolding translate_out
  translate_out-placed =
      let rw' = translation.1 in
      let same = slice-write_at out 50 14 inner room l in
      elim (Bool-cases (is_noop rw')) [
        | inl n ↦
            let kept : translated inner rw' ≡ inner =
              ap (λ p. take 14 inner ++ p.0) (apply-noop (drop 14 inner) rw' n)
              ∙ take-append-drop 14 inner in
            rw (same, e, n, translate_out) (ap (write_at out 50) (sym kept), refl, refl, refl, refl)
        | inr n ↦
            let placed =
              update_slice-write_at out 50 14 inner room l (λ p. (Apply.apply p rw').0)
                (apply-Stored (drop 14 inner) rw').len in
            rw (same, e, n, translate_out) (placed, refl, refl, refl, refl)
      ]

  -- The packet that is sent, and the entropy of its flow.
  abbrev sent_pkt : Bytes
  sent_pkt = (Apply.apply (drop 14 inner) translation.1).0

  snat_egress-placed :
      (flow : ℕ)
      → Ipv4.parse sent_pkt ≡ ok sent_pkt
      → let (s1, out1, flow1) =
          snat_egress s (write_at out 50 inner) (50 + length inner) flow now in
        (out1 ≡ write_at out 50 (translated inner translation.1))
        × (s1.nat ≡ translation.0)
        × (s1.cfg ≡ s.cfg)
        × (s1.tmpl ≡ s.tmpl)
        × (s1.ip_id ≡ s.ip_id)
        × (flow1 ≡ flow_hash_of sent_pkt)
  unfolding snat_egress
  snat_egress-placed flow p =
      let (same_out, nat, cfg, tmpl, ip_id) = translate_out-placed in
      let frame = translated inner translation.1 in
      let len = length-translated inner translation.1 in
      let at : slice (write_at out 50 frame) 64 (50 + length inner) ≡ sent_pkt =
        ap (λ n. slice (write_at out 50 frame) 64 (50 + n)) (sym len)
        ∙ slice-write_at out 50 14 frame (omega (arith, len, room)) (omega (arith, len, l))
        ∙ drop-append (take 14 inner) sent_pkt 14 (length-take 14 inner l) in
      rw (same_out, at, p, snat_egress) (same_out, nat, cfg, tmpl, ip_id, refl)

  -- The header of the parameters, around the packet that is sent.
  abbrev gateway_params : ℕ → EncapParams
  gateway_params gw = params_of s.cfg gw (flow_hash_of sent_pkt) (next_ip_id s).1 s.cfg.vni

  pub encap_placed-translated :
      (gw flow : ℕ)
      → Ipv4.parse sent_pkt ≡ ok sent_pkt
      → IsReady s
      → length inner ≤ 65499
      → let (s1, out1, d) =
          encap_placed s
            (write_at out 50 inner)
            (record { dst_node = gw; new_dst_mac = none; do_snat = true })
            (length inner)
            flow
            now
            s.cfg.vni in
        (out1 ≡ (encap out (translated inner translation.1) (gateway_params gw)).0)
        × (s1.nat ≡ translation.0)
        × (d ≡ forward (50 + length inner))
  unfolding encap_placed next_ip_id
  encap_placed-translated gw flow p v n =
      let (same_out, nat, cfg, tmpl, ip_id, flow_eq) = snat_egress-placed flow p in
      let placed = snat_egress s (write_at out 50 inner) (50 + length inner) flow now in
      let s1 = placed.0 in
      let id = (next_ip_id s1).1 in
      let frame = translated inner translation.1 in
      let len = length-translated inner translation.1 in
      let stamp : Bytes → ℕ → ℕ → Bytes =
        λ o k f. stamp_outer (next_ip_id s1).0 o k gw f id s.cfg.vni in
      (
        ap (λ o. stamp o (length inner) placed.2) same_out
            ∙ ap (λ f. stamp (write_at out 50 frame) (length inner) f) flow_eq
            ∙ ap (λ k. stamp (write_at out 50 frame) k (flow_hash_of sent_pkt)) (sym len)
            ∙ stamped-next s s1 out frame gw (flow_hash_of sent_pkt) s.cfg.vni v cfg tmpl ip_id
                (omega (arith, len, room)) (omega (arith, len, n)),
        nat,
        refl,
      )
