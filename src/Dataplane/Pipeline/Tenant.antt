-- ===== src/Dataplane/Pipeline/Tenant.antt =====
-- crates/andromeda-dataplane/src/pipeline.rs: `encap_for_vni`, `on_tenant_frame` and
-- `on_tenant_frame_inplace`. A handler returns the pipeline and the buffer that it leaves, and its
-- decision.
use light_andromeda.Core.Arp
use light_andromeda.Core.Ethernet
use light_andromeda.Core.Ethernet.{MacAddr}
use light_andromeda.Core.Errors.{ok, err}
use light_andromeda.Core.FiveTuple.{five_tuple_of}
use light_andromeda.Core.Icmp
use light_andromeda.Core.Ipv4
use light_andromeda.Core.Overlay.{overlay_overhead}
use light_andromeda.Control.Fabric
use light_andromeda.Nat.Apply
use light_andromeda.Nat.Engine
use light_andromeda.Nat.State.{outbound, is_noop}
use light_andromeda.Dataplane.Pipeline.State.{
  Pipeline, PipelineConfig, Decision, forward, reply, inc, next_ip_id, drop_frame,
}
use light_andromeda.Dataplane.Pipeline.Stamp.{flow_hash_of, stamp_outer}
use light_andromeda.Prelude.{
  ℕ, ◌+◌, ◌-◌, Bool, true, false, ◌&&◌, not, Option, none, some, String, Bytes, Ipv4Addr, slice,
  length, write_at, update_slice, ltb, ◌==◌, if◌then◌else◌,
}

abbrev pub Outcome : Type 0
Outcome = Pipeline × Bytes × Decision

-- `return self.drop(why)`
abbrev pub drop_with : Pipeline → Bytes → String → Outcome
drop_with s out why = let (s1, d) = drop_frame s why in (s1, out, d)

-- Where a frame goes: the node, the new inner destination MAC, and whether to SNAT it.
pub record Route : Type 0 where
  pub dst_node : Ipv4Addr
  pub new_dst_mac : Option MacAddr
  pub do_snat : Bool

abbrev pub is_some {ℓ} : {A : Type ℓ} → Option A → Bool
is_some none = false
is_some (some a) = true

-- The next hop within the VNI, or the gateway, or no route.
unfoldable pub route : Pipeline → ℕ → Ipv4Addr → Option Route
route s vni inner_dst = elim (Fabric.resolve s.fabric vni inner_dst) [
  | some nh ↦
      some (record { dst_node = nh.node_ip; new_dst_mac = some nh.inner_mac; do_snat = false })
  | none ↦ elim s.cfg.gateway_node_ip [
    | some gw ↦ some (record { dst_node = gw; new_dst_mac = none; do_snat = is_some s.cfg.nat_ip })
    | none ↦ none
  ]
]

-- `underlay_mtu.saturating_sub(OVERLAY_OVERHEAD as u16)`
abbrev pub inner_mtu : PipelineConfig → ℕ
inner_mtu cfg = cfg.underlay_mtu - overlay_overhead

-- `df && total_len > inner_mtu`
abbrev pub needs_frag : PipelineConfig → Bytes → Bool
needs_frag cfg ip = Ipv4.dont_fragment ip && ltb (inner_mtu cfg) (Ipv4.total_length ip)

unfoldable pub arp_reply : Pipeline → Bytes → Bytes → Outcome
arp_reply s eth out = elim (Arp.parse (Ethernet.payload eth)) [
  | ok a ↦
      if Arp.is_request a && not (Arp.target_ip a == Arp.sender_ip a)
      then (let (out1, n) = Arp.write_reply out (Ethernet.payload eth) s.cfg.virtual_gateway_mac in
          elim n [
            | ok len ↦ (
              record s { stats = record s.stats { arp_replied = inc s.stats.arp_replied } },
              out1,
              reply len,
            )
            | err e ↦ drop_with s out1 "arp-build"
          ])
      else drop_with s out "arp-ignored"
  | err e ↦ drop_with s out "arp-ignored"
]

-- The ICMP reply to a datagram that does not fit.
unfoldable pub pmtud_reply : Pipeline → Bytes → Bytes → Outcome
pmtud_reply s inner out =
    let (out1, n) =
      Icmp.write_frag_needed out inner s.cfg.virtual_gateway_mac s.cfg.virtual_gateway_ip
        (inner_mtu s.cfg) in
    elim n [
      | ok len ↦ (
        record s { stats = record s.stats { pmtud_replied = inc s.stats.pmtud_replied } },
        out1,
        reply len,
      )
      | err e ↦ drop_with s out1 "pmtud-build"
    ]

-- The inner destination MAC at its place behind the headroom.
unfoldable pub set_inner_mac : Bytes → Option MacAddr → Bytes
set_inner_mac out none = out
set_inner_mac out (some m) = write_at out overlay_overhead (Ethernet.mac_bytes m)

-- The translation of the packet at `ip_off .. end`, if it has a five-tuple.
unfoldable pub translate_out : Pipeline → Bytes → (ip_off end now : ℕ) → Pipeline × Bytes
translate_out s out ip_off end now = elim (five_tuple_of (slice out ip_off end)) [
  | none ↦ (s, out)
  | some t ↦
      let (nat, rw') = Engine.process s.nat t outbound now in
      let s1 : Pipeline = record s { nat = nat } in
      if is_noop rw' then (s1, out) else (
        record s1 { stats = record s1.stats { natted = inc s1.stats.natted } },
        update_slice out ip_off end (λ p. (Apply.apply p rw').0),
      )
]

-- SNAT on egress; the flow entropy is that of the new tuple.
unfoldable pub snat_egress : Pipeline → Bytes → (end flow now : ℕ) → Pipeline × Bytes × ℕ
unfolding translate_out
snat_egress s out end flow now =
    let ip_off = overlay_overhead + Ethernet.eth_hdr_len in
    let (s1, out1) = translate_out s out ip_off end now in
    elim (Ipv4.parse (slice out1 ip_off end)) [
      | ok ip2 ↦ (s1, out1, flow_hash_of ip2)
      | err e ↦ (s1, out1, flow)
    ]

-- What `encap_for_vni` and `on_tenant_frame_inplace` share once the inner frame stands behind the
-- headroom: the MAC, the translation and the outer header.
unfoldable pub encap_placed : Pipeline → Bytes → Route → (inner_len flow now vni : ℕ) → Outcome
unfolding set_inner_mac snat_egress next_ip_id
encap_placed s out r inner_len flow now vni =
    let end = overlay_overhead + inner_len in
    let out1 = set_inner_mac out r.new_dst_mac in
    let (s1, out2, flow1) =
      if r.do_snat then snat_egress s out1 end flow now else (s, out1, flow) in
    let (s2, ip_id) = next_ip_id s1 in
    let out3 = stamp_outer s2 out2 inner_len r.dst_node flow1 ip_id vni in
    (record s2 { stats = record s2.stats { encapped = inc s2.stats.encapped } }, out3, forward end)

-- `encap_for_vni` from the parsed inner IPv4 header on.
unfoldable pub encap_ip : Pipeline → (inner out ip : Bytes) → (now vni : ℕ) → Outcome
encap_ip s inner out ip now vni = elim (route s vni (Ipv4.dst ip)) [
  | none ↦ drop_with s out "no-route"
  | some r ↦
      if needs_frag s.cfg ip
      then pmtud_reply s inner out
      else if ltb (length out) (overlay_overhead + length inner)
      then drop_with s out "encap-out-too-small"
      else encap_placed s (write_at out overlay_overhead inner) r (length inner) (flow_hash_of ip)
          now vni
]

unfoldable pub encap_for_vni : Pipeline → (inner out : Bytes) → (now vni : ℕ) → Outcome
encap_for_vni s inner out now vni = elim (Ethernet.parse inner) [
  | err e ↦ drop_with s out "bad-inner-eth"
  | ok eth ↦
      if Ethernet.ethertype eth == Ethernet.ethertype_arp
      then arp_reply s eth out
      else if not (Ethernet.ethertype eth == Ethernet.ethertype_ipv4)
      then drop_with s out "non-ipv4-inner"
      else (elim (Ipv4.parse (Ethernet.payload eth)) [
        | ok ip ↦ encap_ip s inner out ip now vni
        | err e ↦ drop_with s out "bad-inner-ip"
      ])
]

unfoldable pub on_tenant_frame : Pipeline → (inner out : Bytes) → ℕ → Outcome
on_tenant_frame s inner out now = encap_for_vni s inner out now s.cfg.vni

-- `on_tenant_frame_inplace` from the parsed inner IPv4 header on.
unfoldable pub inplace_ip : Pipeline → (frame inner ip : Bytes) → (now : ℕ) → Outcome
inplace_ip s frame inner ip now = elim (route s s.cfg.vni (Ipv4.dst ip)) [
  | none ↦ drop_with s frame "no-route"
  | some r ↦
      if needs_frag s.cfg ip
      then pmtud_reply s inner frame
      else encap_placed s frame r (length inner) (flow_hash_of ip) now s.cfg.vni
]

-- `on_tenant_frame_inplace` past the check of the length.
unfoldable pub inplace_frame : Pipeline → (frame inner : Bytes) → (now : ℕ) → Outcome
inplace_frame s frame inner now = elim (Ethernet.parse inner) [
  | err e ↦ drop_with s frame "bad-inner-eth"
  | ok eth ↦
      if not (Ethernet.ethertype eth == Ethernet.ethertype_ipv4)
      then drop_with s frame "non-ipv4-inner"
      else (elim (Ipv4.parse (Ethernet.payload eth)) [
        | ok ip ↦ inplace_ip s frame inner ip now
        | err e ↦ drop_with s frame "bad-inner-ip"
      ])
]

unfoldable pub on_tenant_frame_inplace : Pipeline → Bytes → (inner_len now : ℕ) → Outcome
on_tenant_frame_inplace s frame inner_len now =
    let end = overlay_overhead + inner_len in
    if ltb (length frame) end
    then drop_with s frame "frame-too-small"
    else inplace_frame s frame (slice frame overlay_overhead end) now
