-- ===== src/Dataplane/Pipeline/Batch/Inplace.antt =====
-- `encap_batch_inplace` against `on_tenant_frame_inplace`, one call for each slot.
use light_andromeda.Prelude.{
  slice-end, ap, le→ltb_false, false, ◌%◌, ◌∙◌, ◌≤◌, length-drop, length-slice, update_slice, arith,
  sym, ◌==◌, ltb, if◌then◌else◌, Bool-cases, inr, Option-cases, inl, [], slice, ◌∷◌, refl, length,
  List, ◌+◌, drop, ◌<◌, ◌≡◌, ℕ, Bytes,
}
use light_andromeda.Dataplane.Pipeline.Batch.{
  encap_batch_inplace, overlay_overhead, u64_mod, batch_frame, batch_loop, batch_ip, batch_slot,
  BatchState,
}
use light_andromeda.Core.Errors.{Result-cases}
use light_andromeda.Core.Ethernet
use light_andromeda.Core.Ipv4
use light_andromeda.Core.Icmp
use light_andromeda.Dataplane.Pipeline.State.{drop_frame, FrameSlot, Pipeline}
use light_andromeda.Dataplane.Pipeline.Stamp.{flow_hash_of}
use light_andromeda.Dataplane.Pipeline.Tenant.{
  route, needs_frag, pmtud_reply, inner_mtu, inplace_ip, inplace_frame, on_tenant_frame_inplace,
}
use light_andromeda.Dataplane.Pipeline.Batch.Header.{settled, Sent, kept, round, routed_agrees}

route-settled :
    (b : BatchState) (drops vni dst : ℕ)
    → route (settled b drops) vni dst ≡ route b.pipeline vni dst
unfolding route
route-settled b drops vni dst = refl

-- An ICMP reply is not forwarded.
pmtud_reply-kept :
    (s : Pipeline) (inner frame : Bytes) (n : ℕ)
    → kept s frame n (pmtud_reply s inner frame) ≡ (s, frame, n)
unfolding pmtud_reply drop_frame
pmtud_reply-kept s inner frame n =
    let made =
      Icmp.write_frag_needed frame inner s.cfg.virtual_gateway_mac s.cfg.virtual_gateway_ip
        (inner_mtu s.cfg) in
    elim (Result-cases made.1) [
      | inl (len, e) ↦ rw (e, pmtud_reply) refl
      | inr (x, e) ↦ rw (e, pmtud_reply) refl
    ]

-- A frame that is forwarded has a route and is not too long; the order of the two tests is no matter.
ip_agrees :
    (b : BatchState) (drops : ℕ) (frame inner ip : Bytes) (now : ℕ)
    → length frame ≡ overlay_overhead + length inner
    → round drops (batch_ip b frame ip (length inner) now)
      ≡ kept (settled b drops) frame b.forwarded (inplace_ip (settled b drops) frame inner ip now)
unfolding batch_ip inplace_ip drop_frame
ip_agrees b drops frame inner ip now h =
    let s = b.pipeline in
    let same = route-settled b drops s.cfg.vni (Ipv4.dst ip) in
    elim (Option-cases (route s s.cfg.vni (Ipv4.dst ip))) [
      | inl e ↦ elim (Bool-cases (needs_frag s.cfg ip)) [
        | inl f ↦ rw (same, e, f, batch_ip, inplace_ip) refl
        | inr f ↦ rw (same, e, f, batch_ip, inplace_ip) refl
      ]
      | inr (r, e) ↦ elim (Bool-cases (needs_frag s.cfg ip)) [
        | inl f ↦
            rw (same, e, f, batch_ip, inplace_ip)
              (sym (pmtud_reply-kept (settled b drops) inner frame b.forwarded))
        | inr f ↦
            rw (same, e, f, batch_ip, inplace_ip)
              (routed_agrees b drops frame r (length inner) (flow_hash_of ip) now h)
      ]
    ]

frame_agrees :
    (b : BatchState) (drops : ℕ) (frame inner : Bytes) (now : ℕ)
    → drop overlay_overhead frame ≡ inner
    → length frame ≡ overlay_overhead + length inner
    → round drops (batch_frame b frame (length inner) now)
      ≡ kept (settled b drops) frame b.forwarded (inplace_frame (settled b drops) frame inner now)
unfolding batch_frame inplace_frame drop_frame
frame_agrees b drops frame inner now d h = elim (Result-cases (Ethernet.parse inner)) [
  | inr (x, e) ↦ rw (d, e, batch_frame, inplace_frame) refl
  | inl (eth, e) ↦ elim (Bool-cases (Ethernet.ethertype eth == Ethernet.ethertype_ipv4)) [
    | inr t ↦ rw (d, e, t, batch_frame, inplace_frame) refl
    | inl t ↦ elim (Result-cases (Ipv4.parse (Ethernet.payload eth))) [
      | inr (x, f) ↦ rw (d, e, t, f, batch_frame, inplace_frame) refl
      | inl (ip, f) ↦
          rw (d, e, t, f, batch_frame, inplace_frame) (ip_agrees b drops frame inner ip now h)
    ]
  ]
]

-- A slot by a call of `on_tenant_frame_inplace` on its part of the buffer. What the call does with a
-- frame that it does not forward is taken back.
unfoldable pub inplace_slot : Pipeline → Bytes → ℕ → FrameSlot → ℕ → Sent
inplace_slot s buf n slot now =
    let end = slot.offset + overlay_overhead + slot.inner_len in
    let frame = slice buf slot.offset end in
    let (s1, frame1, n1) = kept s frame n (on_tenant_frame_inplace s frame slot.inner_len now) in
    if ltb (length buf) end
    then (s, buf, n)
    else (s1, update_slice buf slot.offset end (λ _. frame1), n1)

-- One call for each slot, in their order.
unfoldable pub inplace_loop : Pipeline → Bytes → ℕ → List FrameSlot → ℕ → Sent
unfolding inplace_slot
inplace_loop s buf n [] now = (s, buf, n)
inplace_loop s buf n (slot ∷ slots) now =
    let (s1, buf1, n1) = inplace_slot s buf n slot now in inplace_loop s1 buf1 n1 slots now

abbrev sent : ℕ → BatchState → Sent
sent drops b = (settled b drops, b.buf, b.forwarded)

-- A call on a frame of the batch.
call_agrees :
    (b : BatchState) (drops : ℕ) (frame : Bytes) (inner_len now : ℕ)
    → length frame ≡ overlay_overhead + inner_len
    → round drops (batch_frame b frame inner_len now)
      ≡ kept
          (settled b drops)
          frame
          b.forwarded
          (on_tenant_frame_inplace (settled b drops) frame inner_len now)
unfolding on_tenant_frame_inplace
call_agrees b drops frame inner_len now h =
    let end = overlay_overhead + inner_len in
    let inner = drop overlay_overhead frame in
    let n : length inner ≡ inner_len = omega (arith, length-drop overlay_overhead frame) in
    let fits : ltb (length frame) end ≡ false = le→ltb_false (length frame) end (omega arith) in
    let at : slice frame overlay_overhead end ≡ inner = slice-end frame overlay_overhead end h in
    let same = frame_agrees b drops frame inner now refl (omega arith) in
    rw (on_tenant_frame_inplace, fits, at, ← n) same

-- The frame back in the buffer.
abbrev placed : (Bytes → Bytes) → Sent → Sent
placed f (s, frame, n) = (s, f frame, n)

slot_agrees :
    (b : BatchState) (drops : ℕ) (slot : FrameSlot) (now : ℕ)
    → sent drops (batch_slot b slot now) ≡ inplace_slot (settled b drops) b.buf b.forwarded slot now
unfolding batch_slot inplace_slot
slot_agrees b drops slot now =
    let end = slot.offset + overlay_overhead + slot.inner_len in
    let frame = slice b.buf slot.offset end in
    elim (Bool-cases (ltb (length b.buf) end)) [
      | inl short ↦ rw (short, batch_slot, inplace_slot) refl
      | inr fits ↦
          let m : end ≤ length b.buf = ground (arith, fits) in
          let l : length frame ≡ overlay_overhead + slot.inner_len =
            omega (arith, length-slice b.buf slot.offset end (omega arith) m) in
          rw (fits, batch_slot, inplace_slot)
            (ap (placed (λ f. update_slice b.buf slot.offset end (λ _. f)))
              (call_agrees b drops frame slot.inner_len now l))
    ]

loop_agrees :
    (b : BatchState) (drops : ℕ) (slots : List FrameSlot) (now : ℕ)
    → sent drops (batch_loop b slots now)
      ≡ inplace_loop (settled b drops) b.buf b.forwarded slots now
unfolding batch_loop inplace_loop
loop_agrees b drops [] now = refl
loop_agrees b drops (slot ∷ slots) now =
    rw (← slot_agrees b drops slot now) (loop_agrees (batch_slot b slot now) drops slots now)

-- The locals as the loop starts.
abbrev started : Pipeline → Bytes → BatchState
started s buf = record {
  pipeline = s;
  buf = buf;
  ip_id = s.ip_id;
  forwarded = 0;
  natted = 0;
  mtu_dropped = 0;
}

settled-started :
    (s : Pipeline) (buf : Bytes)
    → s.stats.encapped < u64_mod
    → s.stats.natted < u64_mod
    → settled (started s buf) s.stats.drops ≡ s
settled-started s buf e n =
    let e' : (s.stats.encapped + 0) % u64_mod ≡ s.stats.encapped = omega arith in
    let n' : (s.stats.natted + 0) % u64_mod ≡ s.stats.natted = omega arith in rw (e', n') refl

-- A batch leaves the same pipeline but for its count of drops, the same buffer and the same count of
-- frames as one call of `on_tenant_frame_inplace` for each slot, in order, if what such a call does with
-- a frame that it does not forward is taken back.
pub encap_batch_inplace-loop :
    (s : Pipeline) (buf : Bytes) (slots : List FrameSlot) (now : ℕ)
    → s.stats.encapped < u64_mod
    → s.stats.natted < u64_mod
    → let (s1, buf1, n) = encap_batch_inplace s buf slots now in
      (record s1 { stats = record s1.stats { drops = s.stats.drops } }, buf1, n)
      ≡ inplace_loop s buf 0 slots now
unfolding encap_batch_inplace
encap_batch_inplace-loop s buf slots now e n =
    let same = settled-started s buf e n in
    let steps = loop_agrees (started s buf) s.stats.drops slots now in
    steps ∙ ap (λ q. inplace_loop q buf 0 slots now) same
