-- ===== src/Dataplane/Pipeline/Batch/Header.antt =====
-- What a forwarded frame gets from the batch and from `on_tenant_frame_inplace`: the translation and the
-- outer header.
use light_andromeda.Prelude.{
  Stored-behind, ap, update_slice-end, inr, none, ◌∙◌, inl, drop, arith, length-write_at,
  Option-cases, Bool-cases, some, ◌%◌, slice-end, refl, ◌+◌, length, Option, ◌≡◌, ℕ, Bytes,
}
use light_andromeda.Dataplane.Pipeline.Batch.{
  five_tuple_of, u64_mod, overlay_overhead, batch_translate, batch_snat, batch_routed, BatchState,
}
use light_andromeda.Core.Errors.{Result-cases}
use light_andromeda.Core.Ethernet.{MacAddr}
use light_andromeda.Dataplane.Pipeline.State.{Pipeline, forward, reply, dropped, inc, next_ip_id}
use light_andromeda.Core.Ethernet
use light_andromeda.Core.Ipv4
use light_andromeda.Nat.Apply
use light_andromeda.Nat.Apply.Shape.{apply-Stored}
use light_andromeda.Nat.Engine
use light_andromeda.Nat.State.{outbound, is_noop}
use light_andromeda.Dataplane.Pipeline.State
use light_andromeda.Dataplane.Pipeline.Stamp.{stamp_outer}
use light_andromeda.Dataplane.Pipeline.Tenant.{
  Outcome, Route, set_inner_mac, translate_out, snat_egress, encap_placed,
}

-- The pipeline that the locals of the loop amount to, with `drops` as it was before the batch.
abbrev pub settled : BatchState → ℕ → Pipeline
settled b drops =
    let s = b.pipeline in
    record s {
      ip_id = b.ip_id;
      stats = record s.stats {
        encapped = (s.stats.encapped + b.forwarded) % u64_mod;
        natted = (s.stats.natted + b.natted) % u64_mod;
        drops = drops;
      };
    }

-- The pipeline, the buffer, and how many frames were forwarded.
abbrev pub Sent : Type 0
Sent = Pipeline × Bytes × ℕ

-- A call of which only a forwarded frame counts: what it does otherwise is taken back.
abbrev pub kept : Pipeline → Bytes → ℕ → Outcome → Sent
kept s frame n (s1, out, forward m) = (s1, out, (n + 1) % u64_mod)
kept s frame n (s1, out, reply m) = (s, frame, n)
kept s frame n (s1, out, dropped why) = (s, frame, n)
kept s frame n (s1, out, State.pass) = (s, frame, n)

-- What a round leaves of the frame, of the pipeline and of the count.
abbrev pub round : ℕ → BatchState × Bytes → Sent
round drops r = (settled r.0 drops, r.1, r.0.forwarded)

inc_settled : (n m : ℕ) → (n + (m + 1) % u64_mod) % u64_mod ≡ inc ((n + m) % u64_mod)
inc_settled n m = omega arith

set_inner_mac-length :
    (frame : Bytes) (m : Option MacAddr) → length (set_inner_mac frame m) ≡ length frame
unfolding set_inner_mac
set_inner_mac-length frame none = refl
set_inner_mac-length frame (some m) = length-write_at frame overlay_overhead (Ethernet.mac_bytes m)

-- The translation of a frame that ends where the slot does.
translate_agrees :
    (b : BatchState) (drops : ℕ) (frame : Bytes) (ip_off end now : ℕ)
    → length frame ≡ end
    → let (s1, out) = translate_out (settled b drops) frame ip_off end now in
      let (b1, out1) = batch_translate b frame ip_off now in
      (settled b1 drops ≡ s1)
      × (out1 ≡ out)
      × (b1.forwarded ≡ b.forwarded)
      × (b1.pipeline.cfg ≡ b.pipeline.cfg)
      × (length out ≡ end)
unfolding translate_out batch_translate
translate_agrees b drops frame ip_off end now h =
    let same = slice-end frame ip_off end h in
    elim (Option-cases (five_tuple_of (drop ip_off frame))) [
      | inl e ↦ rw (same, e, translate_out, batch_translate) (refl, refl, refl, refl, h)
      | inr (t, e) ↦
          let rw' = (Engine.process b.pipeline.nat t outbound now).1 in
          let p = drop ip_off frame in
          elim (Bool-cases (is_noop rw')) [
            | inl n ↦ rw (same, e, n, translate_out, batch_translate) (refl, refl, refl, refl, h)
            | inr n ↦
                let patched = update_slice-end frame ip_off end (λ q. (Apply.apply q rw').0) h in
                let stored = (Stored-behind ip_off frame _ (apply-Stored p rw')).len in
                rw (same, e, n, patched, translate_out, batch_translate, inc_settled)
                  (refl, refl, refl, refl, stored ∙ h)
          ]
    ]

snat_agrees :
    (b : BatchState) (drops : ℕ) (frame : Bytes) (end flow now : ℕ)
    → length frame ≡ end
    → let (s1, out, flow1) = snat_egress (settled b drops) frame end flow now in
      let (b1, out1, flow2) = batch_snat b frame flow now in
      (settled b1 drops ≡ s1)
      × (out1 ≡ out)
      × (flow2 ≡ flow1)
      × (b1.forwarded ≡ b.forwarded)
      × (b1.pipeline.cfg ≡ b.pipeline.cfg)
unfolding snat_egress batch_snat
snat_agrees b drops frame end flow now h =
    let ip_off = overlay_overhead + Ethernet.eth_hdr_len in
    let (same_s, same_out, same_n, same_cfg, l) = translate_agrees b drops frame ip_off end now h in
    let out = (translate_out (settled b drops) frame ip_off end now).1 in
    let same = slice-end out ip_off end l in
    elim (Result-cases (Ipv4.parse (drop ip_off out))) [
      | inl (ip, e) ↦
          rw (same, same_out, e, snat_egress, batch_snat) (same_s, same_out, refl, same_n, same_cfg)
      | inr (x, e) ↦
          rw (same, same_out, e, snat_egress, batch_snat) (same_s, same_out, refl, same_n, same_cfg)
    ]

-- The header depends on the pipeline by its template and its configuration only.
stamp_outer_config :
    (s s' : Pipeline) (out : Bytes) (inner_len dst flow id vni : ℕ)
    → s.cfg ≡ s'.cfg
    → s.tmpl ≡ s'.tmpl
    → stamp_outer s out inner_len dst flow id vni ≡ stamp_outer s' out inner_len dst flow id vni
unfolding stamp_outer
stamp_outer_config s s' out inner_len dst flow id vni c t = rw (c, t) refl

-- The last steps of a frame: its identification, its count and its header.
abbrev stamped : Pipeline → Bytes → Route → (inner_len flow vni n : ℕ) → Sent
stamped s out r inner_len flow vni n =
    let (s2, ip_id) = next_ip_id s in
    (
      record s2 { stats = record s2.stats { encapped = inc s2.stats.encapped } },
      stamp_outer s2 out inner_len r.dst_node flow ip_id vni,
      (n + 1) % u64_mod,
    )

-- The same steps in the batch.
abbrev batch_stamped : BatchState → Bytes → Route → (inner_len flow : ℕ) → BatchState × Bytes
batch_stamped b out r inner_len flow =
    let ip_id = (b.ip_id + 1) % 65536 in
    (
      record b { ip_id = ip_id; forwarded = (b.forwarded + 1) % u64_mod },
      stamp_outer b.pipeline out inner_len r.dst_node flow ip_id b.pipeline.cfg.vni,
    )

stamped_agrees :
    (b : BatchState) (drops : ℕ) (out : Bytes) (r : Route) (inner_len flow : ℕ)
    → round drops (batch_stamped b out r inner_len flow)
      ≡ stamped (settled b drops) out r inner_len flow b.pipeline.cfg.vni b.forwarded
unfolding next_ip_id
stamped_agrees b drops out r inner_len flow =
    let s2 = (next_ip_id (settled b drops)).0 in
    let id = (b.ip_id + 1) % 65536 in
    let e =
      stamp_outer_config b.pipeline s2 out inner_len r.dst_node flow id b.pipeline.cfg.vni refl
        refl in
    rw (e, inc_settled) refl

-- The same against a pipeline that is reached another way.
stamped_as :
    (b : BatchState) (drops : ℕ) (out out' : Bytes) (r : Route) (inner_len flow flow' vni n : ℕ)
    (s : Pipeline)
    → settled b drops ≡ s
    → out ≡ out'
    → flow ≡ flow'
    → b.pipeline.cfg.vni ≡ vni
    → b.forwarded ≡ n
    → round drops (batch_stamped b out r inner_len flow) ≡ stamped s out' r inner_len flow' vni n
stamped_as b drops out out' r inner_len flow flow' vni n s e1 e2 e3 e4 e5 =
    rw (← e1, ← e2, ← e3, ← e4, ← e5) (stamped_agrees b drops out r inner_len flow)

-- A routed frame.
pub routed_agrees :
    (b : BatchState) (drops : ℕ) (frame : Bytes) (r : Route) (inner_len flow now : ℕ)
    → length frame ≡ overlay_overhead + inner_len
    → round drops (batch_routed b frame r inner_len flow now)
      ≡ kept
          (settled b drops)
          frame
          b.forwarded
          (encap_placed (settled b drops) frame r inner_len flow now b.pipeline.cfg.vni)
unfolding batch_routed encap_placed
routed_agrees b drops frame r inner_len flow now h =
    let frame1 = set_inner_mac frame r.new_dst_mac in
    let end = overlay_overhead + inner_len in
    elim (Bool-cases r.do_snat) [
      | inl e ↦
          let l : length frame1 ≡ end = set_inner_mac-length frame r.new_dst_mac ∙ h in
          let (same_s, same_out, same_flow, same_n, same_cfg) =
            snat_agrees b drops frame1 end flow now l in
          let b1 = (batch_snat b frame1 flow now).0 in
          let vni = ap (λ c. c.vni) same_cfg in
          rw (e, batch_routed, encap_placed)
            (stamped_as b1 drops _ _ r inner_len _ _ _ _ _ same_s same_out same_flow vni same_n)
      | inr e ↦ rw (e, batch_routed, encap_placed) (stamped_agrees b drops frame1 r inner_len flow)
    ]
