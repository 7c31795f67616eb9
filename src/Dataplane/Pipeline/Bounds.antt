-- ===== src/Dataplane/Pipeline/Bounds.antt =====
-- The frame that a handler forwards or replies with lies within the output buffer.
use light_andromeda.Dataplane.Pipeline.Stamp.{flow_hash_of}
use light_andromeda.Core.Overlay.{overlay_overhead}
use light_andromeda.Prelude.{
  ◌-◌, inr, inl, String, Bool-cases, Option-cases, drop, length-take, length-drop, slice, ℕ, ◌≤◌,
  ◌≡◌, ◌+◌, Bytes, length, refl, arith, ltb,
}
use light_andromeda.Dataplane.Pipeline.Tenant.{
  needs_frag, inplace_frame, inner_mtu, Route, pmtud_reply, encap_placed, inplace_ip,
  on_tenant_frame_inplace, route,
}
use light_andromeda.Dataplane.Pipeline.State.{
  drop_frame, Pipeline, Decision, forward, reply, dropped, pass,
}
use light_andromeda.Core.Arp
use light_andromeda.Core.Icmp
use light_andromeda.Core.Ethernet
use light_andromeda.Core.Ipv4
use light_andromeda.Core.Errors.{Result, ok, err}
use light_andromeda.Core.Ethernet.{MacAddr}
use light_andromeda.Dataplane.Pipeline.Underlay.{deliver, on_underlay_frame}

-- What the decision sends is no longer than `n`.
abbrev pub Fits : ℕ → Decision → Type 0
Fits n (forward m) = m ≤ n
Fits n (reply m) = m ≤ n
Fits n (dropped why) = Unit
Fits n pass = Unit

abbrev Within : ℕ → Result ℕ → Type 0
Within n (ok m) = m ≤ n
Within n (err e) = Unit

write_frag_needed-Within :
    (out orig : Bytes) (m : MacAddr) (ip mtu : ℕ)
    → Within (length out) (Icmp.write_frag_needed out orig m ip mtu).1
unfolding Icmp.write_frag_needed Ethernet.parse
write_frag_needed-Within out orig m ip mtu = ground arith

pmtud_reply-Fits :
    (s : Pipeline) (inner out : Bytes) → Fits (length out) (pmtud_reply s inner out).2
unfolding pmtud_reply drop_frame
pmtud_reply-Fits s inner out = ground (
  arith,
  write_frag_needed-Within out inner s.cfg.virtual_gateway_mac s.cfg.virtual_gateway_ip
      (inner_mtu s.cfg),
)

encap_placed-forward :
    (s : Pipeline) (out : Bytes) (r : Route) (inner_len flow now vni : ℕ)
    → (encap_placed s out r inner_len flow now vni).2 ≡ forward (overlay_overhead + inner_len)
unfolding encap_placed
encap_placed-forward s out r inner_len flow now vni = refl

drop_frame-dropped : (s : Pipeline) (why : String) → (drop_frame s why).1 ≡ dropped why
unfolding drop_frame
drop_frame-dropped s why = refl

Fits-forward : (n m : ℕ) (d : Decision) → d ≡ forward m → m ≤ n → Fits n d
Fits-forward n m d e h = rw e h

inplace_ip-Fits :
    (s : Pipeline) (frame inner ip : Bytes) (now : ℕ)
    → overlay_overhead + length inner ≤ length frame
    → Fits (length frame) (inplace_ip s frame inner ip now).2
unfolding drop_frame inplace_ip
inplace_ip-Fits s frame inner ip now m = elim (Option-cases (route s s.cfg.vni (Ipv4.dst ip))) [
  | inl e ↦ rw (e, inplace_ip) tt
  | inr (r, e) ↦ elim (Bool-cases (needs_frag s.cfg ip)) [
    | inl h ↦ rw (e, inplace_ip, h) (pmtud_reply-Fits s inner frame)
    | inr h ↦
        let d = encap_placed-forward s frame r (length inner) (flow_hash_of ip) now s.cfg.vni in
        rw (e, inplace_ip, h, d) m
  ]
]

inplace_frame-Fits :
    (s : Pipeline) (frame inner : Bytes) (now : ℕ)
    → overlay_overhead + length inner ≤ length frame
    → Fits (length frame) (inplace_frame s frame inner now).2
unfolding inplace_frame Ethernet.parse Ipv4.parse drop_frame
inplace_frame-Fits s frame inner now m =
    ground (arith, inplace_ip-Fits s frame inner (Ethernet.payload inner) now m)

-- A frame that `on_tenant_frame_inplace` sends is no longer than its buffer.
pub on_tenant_frame_inplace-Fits :
    (s : Pipeline) (frame : Bytes) (inner_len now : ℕ)
    → Fits (length frame) (on_tenant_frame_inplace s frame inner_len now).2
unfolding on_tenant_frame_inplace drop_frame
on_tenant_frame_inplace-Fits s frame inner_len now =
    let end = overlay_overhead + inner_len in
    let inner = slice frame overlay_overhead end in
    elim (Bool-cases (ltb (length frame) end)) [
      | inl l ↦ rw l tt
      | inr l ↦
          let m : end ≤ length frame = ground (arith, l) in
          let len : length inner ≡ inner_len = omega (
            arith,
            length-drop overlay_overhead frame,
            length-take (end - overlay_overhead) (drop overlay_overhead frame),
          ) in
          rw l (inplace_frame-Fits s frame inner now (omega (arith, len, m)))
    ]

-- A frame that `on_underlay_frame` delivers is no longer than the output buffer.
pub on_underlay_frame-Fits :
    (s : Pipeline) (frame out : Bytes) (now : ℕ)
    → Fits (length out) (on_underlay_frame s frame out now).2
unfolding on_underlay_frame deliver drop_frame
on_underlay_frame-Fits s frame out now = ground arith
