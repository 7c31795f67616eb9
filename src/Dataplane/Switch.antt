-- ===== src/Dataplane/Switch.antt =====
-- crates/andromeda-dataplane/src/afxdp.rs: `run_switch`, the forwarding loop between a tenant port and
-- an underlay port, of a UMEM each. The line of live statistics is left out.
pub mod Frames
pub mod Fixed
use light_andromeda.Core.Checksum.{u32_mod}
use light_andromeda.Dataplane.Pipeline.State.{Pipeline, Decision, forward, reply}
use light_andromeda.Dataplane.Pipeline.Tenant
use light_andromeda.Dataplane.Pipeline.Underlay
use light_andromeda.Dataplane.Xsk
use light_andromeda.Dataplane.Xsk.{Xsk, Libxdp}
use light_andromeda.Dataplane.Xsk.Kernel.{KernelEvent, kernel_events}
use light_andromeda.Dataplane.Loop.{
  RunOpts, RunStats, Turn, stops, count_rx, count_tx, count_drop, count_decap, collect, service,
}
use light_andromeda.Prelude.{ℕ, ◌%◌, max, List, [], ◌∷◌, Bool, none, some, if◌then◌else◌, write_at}

pub record Switch : Type 0 where
  pub tenant : Xsk
  pub underlay : Xsk
  pub pipeline : Pipeline
  pub stats : RunStats

-- The ports with frames to read, of one `poll` on both.
pub record Ready : Type 0 where
  pub tenant : Bool
  pub underlay : Bool

-- What happens before a turn: the kernel's events on the two ports.
pub record Between : Type 0 where
  pub tenant : List KernelEvent
  pub underlay : List KernelEvent

module _ (l : Libxdp) where
  -- The reply of `m` bytes, copied into a frame of the tenant port and queued there.
  unfoldable pub send_reply : Switch → (reply_bytes : List ℕ) → ℕ → Switch
  send_reply w reply_bytes m =
      let (t1, t_addr) = Xsk.alloc_tx w.tenant in
      elim t_addr [
        | none ↦ record w { tenant = t1; stats = count_drop w.stats }
        | some a ↦
            let t2 = Xsk.write_frame t1 a (write_at (Xsk.frame_mut t1 a) 0 reply_bytes) in
            let (t3, queued) = Xsk.tx_one l t2 a (m % u32_mod) in
            if queued
            then record w { tenant = t3; stats = count_tx w.stats }
            else record w { tenant = Xsk.recycle t3 a; stats = count_drop w.stats }
      ]

  -- What is done with the frame at `a` of the underlay port, in which the pipeline has built.
  unfoldable pub tenant_decision : Switch → ℕ → Decision → Switch
  tenant_decision w a (forward m) =
      let (u1, queued) = Xsk.tx_one l w.underlay a (m % u32_mod) in
      if queued
      then record w { underlay = u1; stats = count_tx w.stats }
      else record w { underlay = Xsk.recycle u1 a; stats = count_drop w.stats }
  tenant_decision w a (reply m) =
      let reply_bytes = Xsk.frame w.underlay a (m % u32_mod) in
      send_reply (record w { underlay = Xsk.recycle w.underlay a }) reply_bytes m
  tenant_decision w a d = record w {
    underlay = Xsk.recycle w.underlay a;
    stats = count_drop w.stats;
  }

  -- A frame of the tenant port, without the last `recycle`.
  unfoldable pub encap_to_underlay : Switch → (addr len now : ℕ) → Switch
  encap_to_underlay w addr len now =
      let (u1, tx) = Xsk.alloc_tx w.underlay in
      elim tx [
        | none ↦ record w { underlay = u1; stats = count_drop w.stats }
        | some a ↦
            let (p, out, d) =
              Tenant.on_tenant_frame w.pipeline (Xsk.frame w.tenant addr len) (Xsk.frame_mut u1 a)
                now in
            tenant_decision (record w { underlay = Xsk.write_frame u1 a out; pipeline = p }) a d
      ]

  unfoldable pub tenant_frame : ℕ → Switch → ℕ × ℕ → Switch
  tenant_frame now w (addr, len) =
      let w1 = encap_to_underlay (record w { stats = count_rx w.stats len }) addr len now in
      record w1 { tenant = Xsk.recycle w1.tenant addr }

  unfoldable pub tenant_frames : ℕ → Switch → List (ℕ × ℕ) → Switch
  tenant_frames now w [] = w
  tenant_frames now w (d ∷ ds) = tenant_frames now (tenant_frame now w d) ds

  -- What is done with the frame at `a` of the tenant port.
  unfoldable pub underlay_decision : Switch → ℕ → Decision → Switch
  underlay_decision w a (forward m) =
      let (t1, queued) = Xsk.tx_one l w.tenant a (m % u32_mod) in
      if queued
      then record w { tenant = t1; stats = count_decap (count_tx w.stats) }
      else record w { tenant = Xsk.recycle t1 a; stats = count_drop w.stats }
  underlay_decision w a d = record w { tenant = Xsk.recycle w.tenant a; stats = count_drop w.stats }

  -- A frame of the underlay port, without the last `recycle`.
  unfoldable pub decap_to_tenant : Switch → (addr len now : ℕ) → Switch
  decap_to_tenant w addr len now =
      let (t1, tx) = Xsk.alloc_tx w.tenant in
      elim tx [
        | none ↦ record w { tenant = t1; stats = count_drop w.stats }
        | some a ↦
            let (p, out, d) =
              Underlay.on_underlay_frame w.pipeline (Xsk.frame w.underlay addr len)
                (Xsk.frame_mut t1 a) now in
            underlay_decision (record w { tenant = Xsk.write_frame t1 a out; pipeline = p }) a d
      ]

  unfoldable pub underlay_frame : ℕ → Switch → ℕ × ℕ → Switch
  underlay_frame now w (addr, len) =
      let w1 = decap_to_tenant (record w { stats = count_rx w.stats len }) addr len now in
      record w1 { underlay = Xsk.recycle w1.underlay addr }

  unfoldable pub underlay_frames : ℕ → Switch → List (ℕ × ℕ) → Switch
  underlay_frames now w [] = w
  underlay_frames now w (d ∷ ds) = underlay_frames now (underlay_frame now w d) ds

  -- The two directions of a turn: a port with nothing to read is skipped.
  unfoldable pub poll_tenant : ℕ → ℕ → Bool → Switch → Switch
  poll_tenant batch now ready w =
      let (x, ds) = Xsk.rx_burst l w.tenant batch in
      if ready then tenant_frames now (record w { tenant = x }) ds else w

  unfoldable pub poll_underlay : ℕ → ℕ → Bool → Switch → Switch
  poll_underlay batch now ready w =
      let (x, ds) = Xsk.rx_burst l w.underlay batch in
      if ready then underlay_frames now (record w { underlay = x }) ds else w

  -- A turn that does not break out of the loop.
  unfoldable pub switch_turn : RunOpts → Turn → Ready → Switch → Switch
  switch_turn opts t ready w =
      let batch = max opts.batch 1 in
      let w1 = record w { pipeline = collect w.pipeline t } in
      let w2 = poll_tenant batch t.now_ms ready.tenant w1 in
      let w3 = poll_underlay batch t.now_ms ready.underlay w2 in
      record w3 { underlay = service l w3.underlay batch; tenant = service l w3.tenant batch }

  unfoldable pub run_switch : RunOpts → List (Turn × Ready × Between) → Switch → Switch
  run_switch opts [] w = w
  run_switch opts ((t, ready, es) ∷ ts) w =
      let w1 = record w {
        tenant = kernel_events w.tenant es.tenant;
        underlay = kernel_events w.underlay es.underlay;
      } in
      let rest = run_switch opts ts (switch_turn opts t ready w1) in
      if stops opts w1.stats t then w1 else rest
