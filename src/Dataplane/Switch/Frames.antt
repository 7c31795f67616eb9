-- ===== src/Dataplane/Switch/Frames.antt =====
-- The forwarding loop between the two ports keeps the frames of both UMEMs.
use light_andromeda.Dataplane.Xsk.Holds.{
  Holds-open_bound, Holds-write_frame, Holds-tx_one, Holds-recycle, Holds-alloc_tx, Holds-rx_burst,
  Holds, addrs_of,
}
use light_andromeda.Prelude.{
  ◌*◌, ◌<◌, Bytes, write_at, ◌%◌, inr, false, inl, true, max, ◌∷◌, [], Bool, ℕ, List, ◌≡◌,
  Bool-cases,
}
use light_andromeda.Dataplane.Xsk.Frames.{owned}
use light_andromeda.Dataplane.Switch.{
  Switch, Ready, Between, send_reply, tenant_decision, encap_to_underlay, tenant_frame,
  tenant_frames, underlay_decision, decap_to_tenant, underlay_frame, underlay_frames, poll_tenant,
  poll_underlay, switch_turn, run_switch,
}
use light_andromeda.Dataplane.Loop.{RunOpts, RunStats, Turn, stops, count_rx, collect}
use light_andromeda.Dataplane.Loop.Frames.{Holds-service}
use light_andromeda.Dataplane.Pipeline.State.{Pipeline, Decision, forward, reply, dropped, pass}
use light_andromeda.Dataplane.Xsk.Received.{Holds-kernel_events, Holds-owned}
use light_andromeda.Dataplane.Xsk.Kernel.{AllStart, kernel_events}
use light_andromeda.Core.Checksum.{u32_mod}
use light_andromeda.Dataplane.Xsk.{Libxdp, IsLibxdp, XskConfig, frame_mut, alloc_tx, open_bound}

-- Both ports have their frames, but for those that are held.
abbrev pub BothHold : XskConfig → XskConfig → Switch → List ℕ → List ℕ → Type 0
BothHold ct cu w ht hu = Holds ct w.tenant ht × Holds cu w.underlay hu

module _ (l : Libxdp) (s : IsLibxdp l) {ct cu : XskConfig} where
  BothHold-send_reply :
      (w : Switch) (bytes : List ℕ) (m : ℕ) {ht hu : List ℕ}
      → BothHold ct cu w ht hu
      → BothHold ct cu (send_reply l w bytes m) ht hu
  unfolding send_reply
  BothHold-send_reply w bytes m {ht} {hu} (vt, vu) = elim (Holds-alloc_tx vt) [
    | inl (n, h) ↦ rw (n, send_reply) (h, vu)
    | inr (b, e, h) ↦
        rw (e, send_reply)
          (elim (Holds-tx_one l s b (m % u32_mod)
            (Holds-write_frame b (write_at (frame_mut (alloc_tx w.tenant).0 b) 0 bytes) h)) [
              | inl (q, k) ↦ rw q (k, vu)
              | inr (q, k) ↦ rw q (Holds-recycle k, vu)
            ])
  ]

  BothHold-tenant_decision :
      (w : Switch) (a : ℕ) (d : Decision) {ht hu : List ℕ}
      → BothHold ct cu w ht (a ∷ hu)
      → BothHold ct cu (tenant_decision l w a d) ht hu
  unfolding tenant_decision
  BothHold-tenant_decision w a (forward m) (vt, vu) = elim (Holds-tx_one l s a (m % u32_mod) vu) [
    | inl (q, k) ↦ rw q (vt, k)
    | inr (q, k) ↦ rw q (vt, Holds-recycle k)
  ]
  BothHold-tenant_decision w a (reply m) (vt, vu) = BothHold-send_reply _ _ m (vt, Holds-recycle vu)
  BothHold-tenant_decision w a (dropped why) (vt, vu) = (vt, Holds-recycle vu)
  BothHold-tenant_decision w a pass (vt, vu) = (vt, Holds-recycle vu)

  BothHold-underlay_decision :
      (w : Switch) (a : ℕ) (d : Decision) {ht hu : List ℕ}
      → BothHold ct cu w (a ∷ ht) hu
      → BothHold ct cu (underlay_decision l w a d) ht hu
  unfolding underlay_decision
  BothHold-underlay_decision w a (forward m) (vt, vu) = elim (Holds-tx_one l s a (m % u32_mod) vt) [
    | inl (q, k) ↦ rw q (k, vu)
    | inr (q, k) ↦ rw q (Holds-recycle k, vu)
  ]
  BothHold-underlay_decision w a (reply m) (vt, vu) = (Holds-recycle vt, vu)
  BothHold-underlay_decision w a (dropped why) (vt, vu) = (Holds-recycle vt, vu)
  BothHold-underlay_decision w a pass (vt, vu) = (Holds-recycle vt, vu)

  BothHold-encap_to_underlay :
      (w : Switch) (addr len now : ℕ) {ht hu : List ℕ}
      → BothHold ct cu w ht hu
      → BothHold ct cu (encap_to_underlay l w addr len now) ht hu
  unfolding encap_to_underlay
  BothHold-encap_to_underlay w addr len now (vt, vu) = elim (Holds-alloc_tx vu) [
    | inl (n, h) ↦ rw (n, encap_to_underlay) (vt, h)
    | inr (b, e, h) ↦
        rw (e, encap_to_underlay) (BothHold-tenant_decision _ b _ (vt, Holds-write_frame b _ h))
  ]

  BothHold-decap_to_tenant :
      (w : Switch) (addr len now : ℕ) {ht hu : List ℕ}
      → BothHold ct cu w ht hu
      → BothHold ct cu (decap_to_tenant l w addr len now) ht hu
  unfolding decap_to_tenant
  BothHold-decap_to_tenant w addr len now (vt, vu) = elim (Holds-alloc_tx vt) [
    | inl (n, h) ↦ rw (n, decap_to_tenant) (h, vu)
    | inr (b, e, h) ↦
        rw (e, decap_to_tenant) (BothHold-underlay_decision _ b _ (Holds-write_frame b _ h, vu))
  ]

  BothHold-tenant_frames :
      (now : ℕ) (w : Switch) (ds : List (ℕ × ℕ))
      → BothHold ct cu w (addrs_of ds) []
      → BothHold ct cu (tenant_frames l now w ds) [] []
  unfolding tenant_frames tenant_frame
  BothHold-tenant_frames now w [] v = v
  BothHold-tenant_frames now w ((addr, len) ∷ ds) v =
      let (vt, vu) =
        BothHold-encap_to_underlay (record w { stats = count_rx w.stats len }) addr len now v in
      BothHold-tenant_frames now (tenant_frame l now w (addr, len)) ds (Holds-recycle vt, vu)

  BothHold-underlay_frames :
      (now : ℕ) (w : Switch) (ds : List (ℕ × ℕ))
      → BothHold ct cu w [] (addrs_of ds)
      → BothHold ct cu (underlay_frames l now w ds) [] []
  unfolding underlay_frames underlay_frame
  BothHold-underlay_frames now w [] v = v
  BothHold-underlay_frames now w ((addr, len) ∷ ds) v =
      let (vt, vu) =
        BothHold-decap_to_tenant (record w { stats = count_rx w.stats len }) addr len now v in
      BothHold-underlay_frames now (underlay_frame l now w (addr, len)) ds (vt, Holds-recycle vu)

  BothHold-poll_tenant :
      (batch now : ℕ) (ready : Bool) (w : Switch)
      → BothHold ct cu w [] []
      → BothHold ct cu (poll_tenant l batch now ready w) [] []
  unfolding poll_tenant
  BothHold-poll_tenant batch now true w (vt, vu) =
      BothHold-tenant_frames now _ _ (Holds-rx_burst l s batch vt, vu)
  BothHold-poll_tenant batch now false w v = v

  BothHold-poll_underlay :
      (batch now : ℕ) (ready : Bool) (w : Switch)
      → BothHold ct cu w [] []
      → BothHold ct cu (poll_underlay l batch now ready w) [] []
  unfolding poll_underlay
  BothHold-poll_underlay batch now true w (vt, vu) =
      BothHold-underlay_frames now _ _ (vt, Holds-rx_burst l s batch vu)
  BothHold-poll_underlay batch now false w v = v

  BothHold-switch_turn :
      (opts : RunOpts) (t : Turn) (ready : Ready) (w : Switch)
      → BothHold ct cu w [] []
      → BothHold ct cu (switch_turn l opts t ready w) [] []
  unfolding switch_turn
  BothHold-switch_turn opts t ready w v =
      let batch = max opts.batch 1 in
      let w1 = record w { pipeline = collect w.pipeline t } in
      let (vt, vu) =
        BothHold-poll_underlay batch t.now_ms ready.underlay _
          (BothHold-poll_tenant batch t.now_ms ready.tenant w1 v) in
      (Holds-service l s _ batch vt, Holds-service l s _ batch vu)

-- On each port, the frames that the kernel receives start within their frames.
abbrev pub BothBegin : XskConfig → XskConfig → List (Turn × Ready × Between) → Type 0
BothBegin ct cu [] = Unit
BothBegin ct cu ((t, ready, es) ∷ ts) =
    AllStart ct.frame_size es.tenant × AllStart cu.frame_size es.underlay × BothBegin ct cu ts

pub BothHold-run_switch :
    (l : Libxdp)
    → IsLibxdp l
    → (ct cu : XskConfig) (opts : RunOpts) (ts : List (Turn × Ready × Between)) (w : Switch)
    → BothBegin ct cu ts
    → BothHold ct cu w [] []
    → BothHold ct cu (run_switch l opts ts w) [] []
unfolding run_switch
BothHold-run_switch l s ct cu opts [] w b v = v
BothHold-run_switch l s ct cu opts ((t, ready, es) ∷ ts) w (bt, bu, bs) (vt, vu) =
    let w1 = record w {
      tenant = kernel_events w.tenant es.tenant;
      underlay = kernel_events w.underlay es.underlay;
    } in
    let v1 : BothHold ct cu w1 [] [] = (
      Holds-kernel_events ct w.tenant es.tenant bt vt,
      Holds-kernel_events cu w.underlay es.underlay bu vu,
    ) in
    elim (Bool-cases (stops opts w1.stats t)) [
      | inl e ↦ rw (e, run_switch) v1
      | inr e ↦
          rw (e, run_switch)
            (BothHold-run_switch l s ct cu opts ts _ bs
              (BothHold-switch_turn l s opts t ready w1 v1))
    ]

-- Between two ports that are opened over UMEMs with frames, by whatever the loop is given and the
-- kernel does, each frame of either UMEM has one owner: it stands once in the free list and the rings
-- of its own port. The reservations and peeks of libxdp are as it documents them.
pub run_switch-owned :
    (l : Libxdp)
    → IsLibxdp l
    → (ct cu : XskConfig) (area_t area_u : Bytes) (opts : RunOpts)
      (ts : List (Turn × Ready × Between)) (p : Pipeline) (stats : RunStats)
    → BothBegin ct cu ts
    → 0 < ct.frame_size
    → 0 < cu.frame_size
    → (k j : ℕ) → k < ct.n_frames
    → j < cu.n_frames
    → let w : Switch = run_switch l opts ts (record {
      tenant = open_bound l ct area_t;
      underlay = open_bound l cu area_u;
      pipeline = p;
      stats = stats;
    }) in
      (owned w.tenant (k * ct.frame_size) ≡ 1) × (owned w.underlay (j * cu.frame_size) ≡ 1)
run_switch-owned l s ct cu area_t area_u opts ts p stats b ft fu k j kt ju =
    let (vt, vu) =
      BothHold-run_switch l s ct cu opts ts _ b
        (Holds-open_bound l s ct area_t, Holds-open_bound l s cu area_u) in
    (Holds-owned vt ft k kt, Holds-owned vu fu j ju)
