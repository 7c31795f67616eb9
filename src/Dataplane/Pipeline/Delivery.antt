-- ===== src/Dataplane/Pipeline/Delivery.antt =====
-- From a tenant's frame on one node to its delivery on another: `on_tenant_frame` against
-- `on_underlay_frame`.
use light_andromeda.Prelude.{
  sym, ◌∙◌, take, none, true, ◌%◌, [], zero, ◌∷◌, suc, copy_over, ap, length-write_at, false, some,
  le→ltb_false, arith, ◌^◌, length, ◌+◌, ◌<◌, ◌≤◌, ℕ, write_at, ◌≡◌, refl, Bytes,
}
use light_andromeda.Core.Overlay.RoundTrip.{decapsulated, decap-encap, IsParams}
use light_andromeda.Dataplane.Pipeline.Underlay.{deliver, on_underlay_frame, serves}
use light_andromeda.Dataplane.Pipeline.Tenant.{
  encap_for_vni, encap_ip, on_tenant_frame, needs_frag, route, set_inner_mac, encap_placed,
}
use light_andromeda.Control.Fabric
use light_andromeda.Control.Fabric.{NextHop}
use light_andromeda.Core.Ethernet
use light_andromeda.Core.Ethernet.{MacAddr}
use light_andromeda.Core.Errors.{ok}
use light_andromeda.Core.Ipv4
use light_andromeda.Core.Overlay
use light_andromeda.Core.Overlay.{EncapParams, decap, encap, encap_in_place}
use light_andromeda.Dataplane.Pipeline.State.{Pipeline, template, forward, next_ip_id}
use light_andromeda.Dataplane.Pipeline.Stamp.{flow_hash_of, stamp_outer}
use light_andromeda.Dataplane.Pipeline.Stamp.Equiv.{params_of, stamp_outer-eq}

-- The inner frame is IPv4 and parsed as `ip`, its destination is the endpoint `nh` of the node's VNI,
-- and it fits the underlay.
pub record Carries (s : Pipeline) (inner ip : Bytes) (nh : NextHop) : Type 0 where
  pub ethernet : 14 ≤ length inner
  pub ethertype : Ethernet.ethertype inner ≡ Ethernet.ethertype_ipv4
  pub parsed : Ipv4.parse (Ethernet.payload inner) ≡ ok ip
  pub resolved : Fabric.resolve s.fabric s.cfg.vni (Ipv4.dst ip) ≡ some nh
  pub small : needs_frag s.cfg ip ≡ false
  pub inner_len : length inner ≤ 65499
  pub node : nh.node_ip < 2 ^ 32

-- The template is that of the configuration, whose address is a `u32`.
pub record IsReady (s : Pipeline) : Type 0 where
  pub tmpl : s.tmpl ≡ template s.cfg
  pub local : s.cfg.local_node_ip < 2 ^ 32

pub flow_hash_of-lt : (ip : Bytes) → flow_hash_of ip < 65536
unfolding flow_hash_of Overlay.flow_hash
flow_hash_of-lt ip = ground arith

-- The frame as the endpoint gets it.
abbrev pub readdressed : Bytes → NextHop → Bytes
readdressed inner nh = write_at inner 0 (Ethernet.mac_bytes nh.inner_mac)

copy_over-copy_over :
    (bytes inner out : Bytes)
    → length bytes ≤ length inner
    → length inner ≤ length out
    → copy_over bytes (copy_over inner out) ≡ copy_over (copy_over bytes inner) out
copy_over-copy_over [] inner out l h = refl
copy_over-copy_over (b ∷ bs) [] out l h = absurd (omega (arith, l))
copy_over-copy_over (b ∷ bs) (x ∷ xs) [] l h = absurd (omega (arith, h))
copy_over-copy_over (b ∷ bs) (x ∷ xs) (y ∷ ys) l h =
    ap (λ zs. b ∷ zs) (copy_over-copy_over bs xs ys (omega (arith, l)) (omega (arith, h)))

write_at-write_at :
    (i : ℕ) (out inner bytes : Bytes)
    → i + length inner ≤ length out
    → length bytes ≤ length inner
    → write_at (write_at out i inner) i bytes ≡ write_at out i (write_at inner 0 bytes)
write_at-write_at zero out inner bytes h l =
    copy_over-copy_over bytes inner out l (omega (arith, h))
write_at-write_at (suc i) [] inner bytes h l = refl
write_at-write_at (suc i) (y ∷ ys) inner bytes h l =
    ap (λ zs. y ∷ zs) (write_at-write_at i ys inner bytes (omega (arith, h)) l)

-- The stores of `encap_placed` are those of `encap`.
pub stamped-encap :
    (s : Pipeline) (out inner : Bytes) (dst flow id vni : ℕ)
    → IsReady s
    → 50 + length inner ≤ length out
    → length inner ≤ 65499
    → id < 65536
    → encap out inner (params_of s.cfg dst flow id vni) ≡ (
      stamp_outer s (write_at out 50 inner) (length inner) dst flow id vni,
      ok (50 + length inner),
    )
unfolding encap
stamped-encap s out inner dst flow id vni v l n h =
    rw (le→ltb_false (length out) (50 + length inner) l) (
      stamp_outer-eq s (write_at out 50 inner) (length inner) dst flow id vni v.tmpl
        (omega (arith, length-write_at out 50 inner, l)) n h)

-- What `on_tenant_frame` does with a frame that it carries: the header of the parameters, a fresh
-- identification and the new destination MAC.
abbrev carried : Pipeline → Bytes → NextHop → (ip : Bytes) → EncapParams
carried s inner nh ip = params_of s.cfg nh.node_ip (flow_hash_of ip) (next_ip_id s).1 s.cfg.vni

length-readdressed : (inner : Bytes) (nh : NextHop) → length (readdressed inner nh) ≡ length inner
length-readdressed inner nh = length-write_at inner 0 (Ethernet.mac_bytes nh.inner_mac)

route-resolved :
    (s : Pipeline) (vni ip : ℕ) (nh : NextHop)
    → Fabric.resolve s.fabric vni ip ≡ some nh
    → route s vni ip
      ≡ some (record { dst_node = nh.node_ip; new_dst_mac = some nh.inner_mac; do_snat = false })
unfolding route
route-resolved s vni ip nh h = rw (h, route) refl

encap_placed-readdressed :
    (s : Pipeline) (out inner : Bytes) (nh : NextHop) (flow now vni : ℕ)
    → 14 ≤ length inner
    → 50 + length inner ≤ length out
    → let (s', out', d) =
        encap_placed s
          (write_at out 50 inner)
          (record { dst_node = nh.node_ip; new_dst_mac = some nh.inner_mac; do_snat = false })
          (length inner)
          flow
          now
          vni in
      (out'
        ≡ stamp_outer
            (next_ip_id s).0
            (write_at out 50 (readdressed inner nh))
            (length inner)
            nh.node_ip
            flow
            (next_ip_id s).1
            vni)
      × (d ≡ forward (50 + length inner))
unfolding encap_placed set_inner_mac next_ip_id
encap_placed-readdressed s out inner nh flow now vni e l = (
  ap (λ o. stamp_outer (next_ip_id s).0 o (length inner) nh.node_ip flow (next_ip_id s).1 vni)
      (write_at-write_at 50 out inner (Ethernet.mac_bytes nh.inner_mac) l (omega (arith, e))),
  refl,
)

encap_ip-carried :
    (s : Pipeline) (inner out ip : Bytes) (nh : NextHop) (now : ℕ)
    → Carries s inner ip nh
    → 50 + length inner ≤ length out
    → encap_ip s inner out ip now s.cfg.vni
      ≡ encap_placed s
          (write_at out 50 inner)
          (record { dst_node = nh.node_ip; new_dst_mac = some nh.inner_mac; do_snat = false })
          (length inner)
          (flow_hash_of ip)
          now
          s.cfg.vni
unfolding encap_ip
encap_ip-carried s inner out ip nh now c l =
    rw (route-resolved s s.cfg.vni (Ipv4.dst ip) nh c.resolved, encap_ip)
      (rw (c.small, le→ltb_false (length out) (50 + length inner) l) refl)

pub parse-long : (inner : Bytes) → 14 ≤ length inner → Ethernet.parse inner ≡ ok inner
unfolding Ethernet.parse
parse-long inner h = rw (le→ltb_false (length inner) 14 h) refl

on_tenant_frame-carried :
    (s : Pipeline) (inner out ip : Bytes) (nh : NextHop) (now : ℕ)
    → Carries s inner ip nh
    → 50 + length inner ≤ length out
    → on_tenant_frame s inner out now
      ≡ encap_placed s
          (write_at out 50 inner)
          (record { dst_node = nh.node_ip; new_dst_mac = some nh.inner_mac; do_snat = false })
          (length inner)
          (flow_hash_of ip)
          now
          s.cfg.vni
unfolding on_tenant_frame encap_for_vni
on_tenant_frame-carried s inner out ip nh now c l =
    let eth : Ethernet.parse inner ≡ ok inner = parse-long inner c.ethernet in
    rw (eth, encap_for_vni, c.ethertype, c.parsed) (encap_ip-carried s inner out ip nh now c l)

-- What a switch without NAT makes of a frame that it decapsulates for a VNI that it serves.
on_underlay_frame-decap :
    (r : Pipeline) (frame out : Bytes) (now : ℕ) (p : EncapParams) (inner : Bytes)
    → decap frame ≡ ok (some (decapsulated p inner))
    → serves r (Overlay.new p.vni p.flow_hash).vni ≡ true
    → r.cfg.nat_ip ≡ none
    → length inner ≤ length out
    → let (r', out', d) = on_underlay_frame r frame out now in
      (out' ≡ write_at out 0 inner) × (d ≡ forward (length inner))
unfolding on_underlay_frame deliver
on_underlay_frame-decap r frame out now p inner e v n l =
    rw (e, on_underlay_frame, v, le→ltb_false (length out) (length inner) l, n, deliver)
      (refl, refl)

-- The bytes that are sent are those of `encap`.
sent-encap :
    (s : Pipeline) (inner ip out : Bytes) (nh : NextHop) (now : ℕ)
    → IsReady s
    → Carries s inner ip nh
    → 50 + length inner ≤ length out
    → (on_tenant_frame s inner out now).1
      ≡ (encap out (readdressed inner nh) (carried s inner nh ip)).0
unfolding next_ip_id
sent-encap s inner ip out nh now v c l =
    let frame = readdressed inner nh in
    let same = length-readdressed inner nh in
    let s1 = (next_ip_id s).0 in
    let id = (next_ip_id s).1 in
    let flow = flow_hash_of ip in
    let ready : IsReady s1 = record { tmpl = v.tmpl; local = v.local } in
    let placed = encap_placed-readdressed s out inner nh flow now s.cfg.vni c.ethernet l in
    ap (λ o. o.1) (on_tenant_frame-carried s inner out ip nh now c l)
    ∙ placed.0
    ∙ ap (λ n. stamp_outer s1 (write_at out 50 frame) n nh.node_ip flow id s.cfg.vni) (sym same)
    ∙ sym (
        ap (λ o. o.0)
          (stamped-encap s1 out frame nh.node_ip flow id s.cfg.vni ready (omega (arith, same, l))
            (omega (arith, same, c.inner_len)) (omega arith)))

-- An IPv4 frame for an endpoint of the fabric that fits the underlay and the buffer is forwarded with
-- 50 bytes in front, and a node without NAT that serves the VNI forwards to its tenant, of these bytes, the frame with
-- the endpoint's MAC as its destination, in a buffer that holds it: whatever the outer UDP checksum.
pub tenant-to-tenant :
    (s r : Pipeline) (inner ip out out_r : Bytes) (nh : NextHop) (now now_r : ℕ)
    → IsReady s
    → Carries s inner ip nh
    → 50 + length inner ≤ length out
    → serves r (s.cfg.vni % 0x1000000) ≡ true
    → r.cfg.nat_ip ≡ none
    → length inner ≤ length out_r
    → let (s', sent, d) = on_tenant_frame s inner out now in
      let (r', got, e) = on_underlay_frame r (take (50 + length inner) sent) out_r now_r in
      (d ≡ forward (50 + length inner))
      × (e ≡ forward (length inner))
      × (got ≡ write_at out_r 0 (readdressed inner nh))
unfolding Overlay.new
tenant-to-tenant s r inner ip out out_r nh now now_r v c l serve no_nat room =
    let p = carried s inner nh ip in
    let frame = readdressed inner nh in
    let same = length-readdressed inner nh in
    let sent = (on_tenant_frame s inner out now).1 in
    let fit : IsParams p = record { src = v.local; dst = c.node; flow_hash = flow_hash_of-lt ip } in
    let (_, back) =
      decap-encap out frame p fit (omega (arith, same, l)) (omega (arith, same, c.inner_len)) in
    let cut : decap (take (50 + length inner) sent) ≡ ok (some (decapsulated p frame)) =
      ap decap (
        ap (λ o. take (50 + length inner) o) (sent-encap s inner ip out nh now v c l)
        ∙ ap (λ n. take (50 + n) (encap out frame p).0) (sym same))
      ∙ back in
    let (got, forwarded) =
      on_underlay_frame-decap r (take (50 + length inner) sent) out_r now_r p frame cut serve no_nat
        (omega (arith, same, room)) in
    (
      ap (λ o. o.2) (on_tenant_frame-carried s inner out ip nh now c l)
          ∙ (encap_placed-readdressed s out inner nh (flow_hash_of ip) now s.cfg.vni c.ethernet
              l).1,
      forwarded ∙ ap forward same,
      got,
    )
