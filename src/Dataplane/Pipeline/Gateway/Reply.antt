-- ===== src/Dataplane/Pipeline/Gateway/Reply.antt =====
-- From the underlay to a tenant behind the NAT: `on_underlay_frame` with the reverse translation.
use light_andromeda.Prelude.{
  ℕ, ◌≡◌, ◌+◌, ◌<◌, ◌≤◌, ◌^◌, ◌%◌, ◌++◌, true, some, Bytes, length, take, drop, write_at, inl, inr,
  Bool-cases, ap, sym, ◌∙◌, refl, arith, slice-write_at, update_slice-write_at, slice, update_slice,
  take-append-drop, le→ltb_false,
}
use light_andromeda.Prelude.Map.{lookup}
use light_andromeda.Core.Errors.{ok}
use light_andromeda.Core.Ethernet
use light_andromeda.Core.FiveTuple.{FiveTuple, five_tuple_of}
use light_andromeda.Core.Overlay
use light_andromeda.Core.Overlay.{EncapParams, decap, encap}
use light_andromeda.Core.Overlay.RoundTrip.{decapsulated, decap-encap, IsParams}
use light_andromeda.Nat.Apply
use light_andromeda.Nat.Apply.Shape.{apply-Stored}
use light_andromeda.Nat.Apply.Sound.{IsRewrite}
use light_andromeda.Nat.Apply.Checksums.{TcpRewritten, apply-tcp, apply-noop}
use light_andromeda.Nat.Engine
use light_andromeda.Nat.Engine.{reply_of, rewrite_dst}
use light_andromeda.Nat.Engine.Inv.{IsConsistent, process-reply}
use light_andromeda.Nat.State.{tuple_key, Binding, is_noop, inbound}
use light_andromeda.Dataplane.Pipeline.State.{Pipeline, forward}
use light_andromeda.Dataplane.Pipeline.Delivery.{parse-long}
use light_andromeda.Dataplane.Pipeline.Tenant.{is_some}
use light_andromeda.Dataplane.Pipeline.Underlay.{translate_in, deliver, serves, on_underlay_frame}
use light_andromeda.Dataplane.Pipeline.Gateway.{translated}
use light_andromeda.Dataplane.Pipeline.Gateway.Tcp.{IsTcp}

-- The frame is IPv4 of the flow `t`, in a VNI that the switch serves, and the switch translates.
pub record Returns (s : Pipeline) (inner : Bytes) (vni : ℕ) (t : FiveTuple) : Type 0 where
  pub ethernet : 14 ≤ length inner
  pub ethertype : Ethernet.ethertype inner ≡ Ethernet.ethertype_ipv4
  pub tuple : five_tuple_of (drop 14 inner) ≡ some t
  pub served : serves s (vni % 0x1000000) ≡ true
  pub snat : is_some s.cfg.nat_ip ≡ true

translate_in-placed :
    (s : Pipeline) (out inner : Bytes) (t : FiveTuple) (now : ℕ)
    → 14 ≤ length inner
    → length inner ≤ length out
    → five_tuple_of (drop 14 inner) ≡ some t
    → let (nat, rw') = Engine.process s.nat t inbound now in
      let (s1, out1) = translate_in s (write_at out 0 inner) (length inner) now in
      (out1 ≡ write_at out 0 (translated inner rw')) × (s1.nat ≡ nat)
unfolding translate_in
translate_in-placed s out inner t now l room e =
    let rw' = (Engine.process s.nat t inbound now).1 in
    let z : length inner ≡ 0 + length inner = omega arith in
    let fits : 0 + length inner ≤ length out = omega (arith, room) in
    let same : slice (write_at out 0 inner) 14 (length inner) ≡ drop 14 inner =
      ap (λ n. slice (write_at out 0 inner) 14 n) z ∙ slice-write_at out 0 14 inner fits l in
    elim (Bool-cases (is_noop rw')) [
      | inl n ↦
          let kept : translated inner rw' ≡ inner =
            ap (λ p. take 14 inner ++ p.0) (apply-noop (drop 14 inner) rw' n)
            ∙ take-append-drop 14 inner in
          rw (same, e, n, translate_in) (ap (write_at out 0) (sym kept), refl)
      | inr n ↦
          let patch : Bytes → Bytes = λ p. (Apply.apply p rw').0 in
          let placed =
            ap (λ m. update_slice (write_at out 0 inner) 14 m patch) z
            ∙ update_slice-write_at out 0 14 inner fits l patch
                (apply-Stored (drop 14 inner) rw').len in
          rw (same, e, n, translate_in) (placed, refl)
    ]

on_underlay_frame-translated :
    (s : Pipeline) (frame out inner : Bytes) (p : EncapParams) (t : FiveTuple) (now : ℕ)
    → decap frame ≡ ok (some (decapsulated p inner))
    → Returns s inner p.vni t
    → length inner ≤ length out
    → let (nat, rw') = Engine.process s.nat t inbound now in
      let (s', got, d) = on_underlay_frame s frame out now in
      (d ≡ forward (length inner)) × (got ≡ write_at out 0 (translated inner rw')) × (s'.nat ≡ nat)
unfolding on_underlay_frame deliver Overlay.new
on_underlay_frame-translated s frame out inner p t now e c room =
    let (got, nat) = translate_in-placed s out inner t now c.ethernet room c.tuple in
    rw
      (
        e,
        on_underlay_frame,
        c.served,
        le→ltb_false (length out) (length inner) room,
        c.snat,
        parse-long inner c.ethernet,
        c.ethertype,
        deliver,
      )
      (refl, got, nat)

-- A TCP reply to a flow, with right checksums, from the remote address and port of the flow to the
-- address of the NAT and the port of the flow, in an inner frame of at most 65499 bytes that `encap`
-- wrote into a buffer that holds it, of a VNI that the switch serves, is delivered, in a buffer that
-- holds the inner frame, with right checksums and the flow's own source as its destination, behind the
-- Ethernet header that it had. The NAT has its invariant and a binding of the flow, whose source is a
-- `u32` and a `u16`.
pub tcp-to-tenant :
    (s : Pipeline) (buf out inner : Bytes) (p : EncapParams) (flow : FiveTuple) (b : Binding)
    (now : ℕ)
    → IsParams p
    → IsConsistent s.nat
    → lookup flow s.nat.snat_fwd ≡ some b
    → flow.src_ip < 2 ^ 32
    → flow.src_port < 65536
    → Returns s inner p.vni (reply_of s.nat.nat_ip flow b.port)
    → IsTcp (drop 14 inner)
    → 50 + length inner ≤ length buf
    → length inner ≤ 65499
    → length inner ≤ length out
    → let sent = take (50 + length inner) (encap buf inner p).0 in
      let (s', got, d) = on_underlay_frame s sent out now in
      (d ≡ forward (length inner))
      × ((pkt : Bytes) × (got ≡ write_at out 0 (take 14 inner ++ pkt))
          × TcpRewritten (drop 14 inner) pkt (rewrite_dst flow.src_ip flow.src_port))
tcp-to-tenant s buf out inner p flow b now fit v h ip port c tcp room n fits =
    let t = reply_of s.nat.nat_ip flow b.port in
    let rw' = rewrite_dst flow.src_ip flow.src_port in
    let back = (decap-encap buf inner p fit room n).1 in
    let (d, got, nat) =
      on_underlay_frame-translated s (take (50 + length inner) (encap buf inner p).0) out inner p t
        now back c fits in
    let made = process-reply s.nat flow b now v h in
    let fields : IsRewrite rw' = record {
      src_ip = tt;
      dst_ip = ip;
      src_port = tt;
      dst_port = port;
    } in
    let rewritten =
      (apply-tcp (drop 14 inner) rw' tcp.sound fields tcp.proto tcp.parsed tcp.verifies).1 in
    (
      d,
      (
        (Apply.apply (drop 14 inner) rw').0,
        got ∙ ap (λ w. write_at out 0 (translated inner w)) made,
        rewritten,
      ),
    )
