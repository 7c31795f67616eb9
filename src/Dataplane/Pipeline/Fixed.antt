-- ===== src/Dataplane/Pipeline/Fixed.antt =====
-- What no handler changes: the configuration, the fabric and the template of the outer header.
use light_andromeda.Prelude.{
  length, write_at, Option-cases, inr, inl, refl, Bool-cases, arith, ◌≡◌, ◌+◌, Bytes, ℕ, ◌∙◌,
}
use light_andromeda.Dataplane.Pipeline.State.{Pipeline, drop_frame, next_ip_id, gc}
use light_andromeda.Dataplane.Pipeline.Tenant.{
  Route, route, arp_reply, pmtud_reply, translate_out, snat_egress, encap_placed, encap_ip,
  encap_for_vni, on_tenant_frame, set_inner_mac,
}
use light_andromeda.Dataplane.Pipeline.Stamp.{flow_hash_of}
use light_andromeda.Dataplane.Pipeline.Underlay.{translate_in, deliver, on_underlay_frame}
use light_andromeda.Core.Ethernet
use light_andromeda.Core.Errors.{Result-cases}
use light_andromeda.Core.Overlay
use light_andromeda.Core.Ipv4
use light_andromeda.Core.Overlay.{overlay_overhead}

pub record Fixed (s s' : Pipeline) : Type 0 where
  pub cfg : s'.cfg ≡ s.cfg
  pub fabric : s'.fabric ≡ s.fabric
  pub tmpl : s'.tmpl ≡ s.tmpl

pub Fixed-refl : (s : Pipeline) → Fixed s s
Fixed-refl s = record { cfg = refl; fabric = refl; tmpl = refl }

pub Fixed-trans : (s t u : Pipeline) → Fixed s t → Fixed t u → Fixed s u
Fixed-trans s t u p q = record {
  cfg = q.cfg ∙ p.cfg;
  fabric = q.fabric ∙ p.fabric;
  tmpl = q.tmpl ∙ p.tmpl;
}

arp_reply-Fixed : (s : Pipeline) (eth out : Bytes) → Fixed s (arp_reply s eth out).0
unfolding arp_reply drop_frame
arp_reply-Fixed s eth out = ground arith

pmtud_reply-Fixed : (s : Pipeline) (inner out : Bytes) → Fixed s (pmtud_reply s inner out).0
unfolding pmtud_reply drop_frame
pmtud_reply-Fixed s inner out = ground arith

translate_out-Fixed :
    (s : Pipeline) (out : Bytes) (ip_off end now : ℕ)
    → Fixed s (translate_out s out ip_off end now).0
unfolding translate_out
translate_out-Fixed s out ip_off end now = ground arith

snat_egress-Fixed :
    (s : Pipeline) (out : Bytes) (end flow now : ℕ) → Fixed s (snat_egress s out end flow now).0
unfolding snat_egress
snat_egress-Fixed s out end flow now =
    ground (arith, translate_out-Fixed s out (overlay_overhead + Ethernet.eth_hdr_len) end now)

encap_placed-Fixed :
    (s : Pipeline) (out : Bytes) (r : Route) (inner_len flow now vni : ℕ)
    → Fixed s (encap_placed s out r inner_len flow now vni).0
unfolding encap_placed next_ip_id
encap_placed-Fixed s out r inner_len flow now vni =
    let end = overlay_overhead + inner_len in
    let f = snat_egress-Fixed s (set_inner_mac out r.new_dst_mac) end flow now in
    elim (Bool-cases r.do_snat) [
      | inl e ↦ rw (e, encap_placed) (record { cfg = f.cfg; fabric = f.fabric; tmpl = f.tmpl })
      | inr e ↦ rw (e, encap_placed) (record { cfg = refl; fabric = refl; tmpl = refl })
    ]

encap_ip-Fixed :
    (s : Pipeline) (inner out ip : Bytes) (now vni : ℕ)
    → Fixed s (encap_ip s inner out ip now vni).0
unfolding encap_ip drop_frame
encap_ip-Fixed s inner out ip now vni = elim (Option-cases (route s vni (Ipv4.dst ip))) [
  | inl e ↦ rw (e, encap_ip) (record { cfg = refl; fabric = refl; tmpl = refl })
  | inr (r, e) ↦
      let placed =
        encap_placed-Fixed s (write_at out overlay_overhead inner) r (length inner)
          (flow_hash_of ip) now vni in
      rw (e, encap_ip) (ground (arith, placed, pmtud_reply-Fixed s inner out))
]

pub on_tenant_frame-Fixed :
    (s : Pipeline) (inner out : Bytes) (now : ℕ) → Fixed s (on_tenant_frame s inner out now).0
unfolding on_tenant_frame encap_for_vni drop_frame Ethernet.parse Ipv4.parse
on_tenant_frame-Fixed s inner out now = ground (
  arith,
  arp_reply-Fixed s inner out,
  encap_ip-Fixed s inner out (Ethernet.payload inner) now s.cfg.vni,
)

translate_in-Fixed :
    (s : Pipeline) (out : Bytes) (inner_len now : ℕ) → Fixed s (translate_in s out inner_len now).0
unfolding translate_in
translate_in-Fixed s out inner_len now = ground arith

deliver-Fixed : (s : Pipeline) (inner out : Bytes) (now : ℕ) → Fixed s (deliver s inner out now).0
unfolding deliver
deliver-Fixed s inner out now =
    let f = translate_in-Fixed s (write_at out 0 inner) (length inner) now in ground (arith, f)

pub on_underlay_frame-Fixed :
    (s : Pipeline) (frame out : Bytes) (now : ℕ) → Fixed s (on_underlay_frame s frame out now).0
unfolding on_underlay_frame drop_frame
on_underlay_frame-Fixed s frame out now = elim (Result-cases (Overlay.decap frame)) [
  | inr (x, e) ↦ rw (e, on_underlay_frame) (record { cfg = refl; fabric = refl; tmpl = refl })
  | inl (d, e) ↦ elim (Option-cases d) [
    | inl n ↦ rw (e, n, on_underlay_frame) (record { cfg = refl; fabric = refl; tmpl = refl })
    | inr (p, n) ↦ rw (e, n, on_underlay_frame) (ground (arith, deliver-Fixed s p.inner out now))
  ]
]

pub gc-Fixed : (s : Pipeline) (now idle : ℕ) → Fixed s (gc s now idle).0
unfolding gc
gc-Fixed s now idle = record { cfg = refl; fabric = refl; tmpl = refl }
