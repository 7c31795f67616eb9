-- ===== src/Dataplane/Switch/Fixed.antt =====
-- What a turn of the switch leaves of the pipeline: its configuration, its fabric and its template.
use light_andromeda.Dataplane.Loop.{nat_idle_timeout_ms, RunOpts, Turn, collect, count_rx}
use light_andromeda.Prelude.{
  [], ◌∷◌, Bool-cases, inr, refl, false, ◌%◌, true, arith, inl, ◌≡◌, Bool, Option-cases, ℕ, max,
  List,
}
use light_andromeda.Dataplane.Switch.{
  u32_mod, Switch, Ready, send_reply, tenant_decision, encap_to_underlay, tenant_frame,
  tenant_frames, underlay_decision, decap_to_tenant, underlay_frame, underlay_frames, poll_tenant,
  poll_underlay, switch_turn,
}
use light_andromeda.Dataplane.Pipeline.Fixed.{
  Fixed, Fixed-refl, Fixed-trans, on_tenant_frame-Fixed, on_underlay_frame-Fixed, gc-Fixed,
}
use light_andromeda.Dataplane.Pipeline.State.{Pipeline, Decision, forward, reply, dropped}
use light_andromeda.Dataplane.Pipeline.State
use light_andromeda.Dataplane.Xsk
use light_andromeda.Dataplane.Xsk.{Xsk, Libxdp}

collect-Fixed : (p : Pipeline) (t : Turn) → Fixed p (collect p t)
collect-Fixed p t = elim (Bool-cases t.gc_due) [
  | inl e ↦ rw e (gc-Fixed p t.gc_ms nat_idle_timeout_ms)
  | inr e ↦ rw e (Fixed-refl p)
]

module _ (l : Libxdp) where
  send_reply-pipeline :
      (w : Switch) (bytes : List ℕ) (m : ℕ) → (send_reply l w bytes m).pipeline ≡ w.pipeline
  unfolding send_reply
  send_reply-pipeline w bytes m = ground arith

  tenant_decision-pipeline :
      (w : Switch) (a : ℕ) (d : Decision) → (tenant_decision l w a d).pipeline ≡ w.pipeline
  unfolding tenant_decision
  tenant_decision-pipeline w a (forward m) = ground arith
  tenant_decision-pipeline w a (reply m) =
      send_reply-pipeline (record w { underlay = Xsk.recycle w.underlay a })
        (Xsk.frame w.underlay a (m % u32_mod)) m
  tenant_decision-pipeline w a (dropped why) = refl
  tenant_decision-pipeline w a State.pass = refl

  encap_to_underlay-Fixed :
      (w : Switch) (addr len now : ℕ)
      → Fixed w.pipeline (encap_to_underlay l w addr len now).pipeline
  unfolding encap_to_underlay
  encap_to_underlay-Fixed w addr len now =
      let (u1, tx) = Xsk.alloc_tx w.underlay in
      elim (Option-cases tx) [
        | inl e ↦ rw (e, encap_to_underlay) (Fixed-refl w.pipeline)
        | inr (a, e) ↦
            let done =
              on_tenant_frame-Fixed w.pipeline (Xsk.frame w.tenant addr len) (Xsk.frame_mut u1 a)
                now in
            rw (e, encap_to_underlay, tenant_decision-pipeline) done
      ]

  underlay_decision-pipeline :
      (w : Switch) (a : ℕ) (d : Decision) → (underlay_decision l w a d).pipeline ≡ w.pipeline
  unfolding underlay_decision
  underlay_decision-pipeline w a (forward m) = ground arith
  underlay_decision-pipeline w a (reply m) = refl
  underlay_decision-pipeline w a (dropped why) = refl
  underlay_decision-pipeline w a State.pass = refl

  decap_to_tenant-Fixed :
      (w : Switch) (addr len now : ℕ) → Fixed w.pipeline (decap_to_tenant l w addr len now).pipeline
  unfolding decap_to_tenant
  decap_to_tenant-Fixed w addr len now =
      let (t1, tx) = Xsk.alloc_tx w.tenant in
      elim (Option-cases tx) [
        | inl e ↦ rw (e, decap_to_tenant) (Fixed-refl w.pipeline)
        | inr (a, e) ↦
            let done =
              on_underlay_frame-Fixed w.pipeline (Xsk.frame w.underlay addr len)
                (Xsk.frame_mut t1 a) now in
            rw (e, decap_to_tenant, underlay_decision-pipeline) done
      ]

  tenant_frames-Fixed :
      (now : ℕ) (w : Switch) (ds : List (ℕ × ℕ))
      → Fixed w.pipeline (tenant_frames l now w ds).pipeline
  unfolding tenant_frames tenant_frame
  tenant_frames-Fixed now w [] = Fixed-refl w.pipeline
  tenant_frames-Fixed now w (d ∷ ds) =
      let w1 = tenant_frame l now w d in
      Fixed-trans w.pipeline w1.pipeline _
        (encap_to_underlay-Fixed (record w { stats = count_rx w.stats d.1 }) d.0 d.1 now)
        (tenant_frames-Fixed now w1 ds)

  underlay_frames-Fixed :
      (now : ℕ) (w : Switch) (ds : List (ℕ × ℕ))
      → Fixed w.pipeline (underlay_frames l now w ds).pipeline
  unfolding underlay_frames underlay_frame
  underlay_frames-Fixed now w [] = Fixed-refl w.pipeline
  underlay_frames-Fixed now w (d ∷ ds) =
      let w1 = underlay_frame l now w d in
      Fixed-trans w.pipeline w1.pipeline _
        (decap_to_tenant-Fixed (record w { stats = count_rx w.stats d.1 }) d.0 d.1 now)
        (underlay_frames-Fixed now w1 ds)

  poll_tenant-Fixed :
      (batch now : ℕ) (ready : Bool) (w : Switch)
      → Fixed w.pipeline (poll_tenant l batch now ready w).pipeline
  unfolding poll_tenant
  poll_tenant-Fixed batch now true w =
      let (x, ds) = Xsk.rx_burst l w.tenant batch in
      tenant_frames-Fixed now (record w { tenant = x }) ds
  poll_tenant-Fixed batch now false w = Fixed-refl w.pipeline

  poll_underlay-Fixed :
      (batch now : ℕ) (ready : Bool) (w : Switch)
      → Fixed w.pipeline (poll_underlay l batch now ready w).pipeline
  unfolding poll_underlay
  poll_underlay-Fixed batch now true w =
      let (x, ds) = Xsk.rx_burst l w.underlay batch in
      underlay_frames-Fixed now (record w { underlay = x }) ds
  poll_underlay-Fixed batch now false w = Fixed-refl w.pipeline

  pub switch_turn-Fixed :
      (opts : RunOpts) (t : Turn) (ready : Ready) (w : Switch)
      → Fixed w.pipeline (switch_turn l opts t ready w).pipeline
  unfolding switch_turn
  switch_turn-Fixed opts t ready w =
      let batch = max opts.batch 1 in
      let w1 = record w { pipeline = collect w.pipeline t } in
      let w2 = poll_tenant l batch t.now_ms ready.tenant w1 in
      Fixed-trans w.pipeline w1.pipeline _ (collect-Fixed w.pipeline t) (
        Fixed-trans w1.pipeline w2.pipeline _ (poll_tenant-Fixed batch t.now_ms ready.tenant w1)
          (poll_underlay-Fixed batch t.now_ms ready.underlay w2))
