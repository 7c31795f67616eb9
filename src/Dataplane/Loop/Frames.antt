-- ===== src/Dataplane/Loop/Frames.antt =====
-- The forwarding loop of one socket keeps the frames of its UMEM.
use light_andromeda.Dataplane.Xsk.Holds.{
  Holds-open_bound, Holds-complete_tx, Holds-write_frame, Holds-rx_burst, Holds-refill,
  Holds-recycle, Holds-tx_one, Holds-alloc_tx, addrs_of, Holds,
}
use light_andromeda.Prelude.{◌≡◌, ◌*◌, ◌<◌, Bytes, ◌%◌, inr, inl, max, [], ◌∷◌, List, ℕ, Bool-cases}
use light_andromeda.Dataplane.Xsk.Frames.{owned}
use light_andromeda.Dataplane.Xsk.{open_bound, XskConfig, IsLibxdp}
use light_andromeda.Dataplane.Loop.{
  Pipeline, u32_mod, collect, kernel_events, service, Decision, Xsk, KernelEvent, Libxdp, Mode,
  RunOpts, RunStats, Turn, Runner, queue_or_drop, send_decision, encap_frame, decap_frame,
  run_frame, run_frames, run_turn, run, stops,
}
use light_andromeda.Dataplane.Pipeline.State.{forward, reply, dropped, pass}
use light_andromeda.Dataplane.Xsk.Received.{Holds-kernel_events, Holds-owned}
use light_andromeda.Core.Checksum.{u32_mod}
use light_andromeda.Dataplane.Xsk.Kernel.{AllStart}

-- `alloc_tx` as it is scrutinised.
module _ (l : Libxdp) (s : IsLibxdp l) {c : XskConfig} where
  Holds-queue_or_drop :
      (x : Xsk) (stats : RunStats) (b m : ℕ) {held : List ℕ}
      → Holds c x (b ∷ held)
      → Holds c (queue_or_drop l x stats b m).0 held
  unfolding queue_or_drop
  Holds-queue_or_drop x stats b m {held} v = elim (Holds-tx_one l s b (m % u32_mod) v) [
    | inl (q, h) ↦ rw q h
    | inr (q, h) ↦ rw q (Holds-recycle h)
  ]

  Holds-send_decision :
      (x : Xsk) (stats : RunStats) (b : ℕ) (d : Decision) {held : List ℕ}
      → Holds c x (b ∷ held)
      → Holds c (send_decision l x stats b d).0 held
  unfolding send_decision
  Holds-send_decision x stats b (forward m) v = Holds-queue_or_drop x stats b m v
  Holds-send_decision x stats b (reply m) v = Holds-queue_or_drop x stats b m v
  Holds-send_decision x stats b (dropped why) v = Holds-recycle v
  Holds-send_decision x stats b pass v = Holds-recycle v

  Holds-encap_frame :
      (r : Runner) (addr len now : ℕ) {held : List ℕ}
      → Holds c r.sock held
      → Holds c (encap_frame l r addr len now).sock held
  unfolding encap_frame
  Holds-encap_frame r addr len now {held} v = elim (Holds-alloc_tx v) [
    | inl (n, h) ↦ rw (n, encap_frame) h
    | inr (b, e, h) ↦
        rw (e, encap_frame) (Holds-send_decision _ r.stats b _ (Holds-write_frame b _ h))
  ]

  Holds-decap_frame :
      (r : Runner) (addr len now : ℕ) {held : List ℕ}
      → Holds c r.sock held
      → Holds c (decap_frame l r addr len now).sock held
  unfolding decap_frame
  Holds-decap_frame r addr len now {held} v = elim (Holds-alloc_tx v) [
    | inl (n, h) ↦ rw (n, decap_frame) h
    | inr (b, e, h) ↦ rw (e, decap_frame) (Holds-recycle (Holds-write_frame b _ h))
  ]

  Holds-run_frame :
      (mode : Mode) (now : ℕ) (r : Runner) (d : ℕ × ℕ) {held : List ℕ}
      → Holds c r.sock (d.0 ∷ held)
      → Holds c (run_frame l mode now r d).sock held
  unfolding run_frame
  Holds-run_frame Mode.dump now r (addr, len) v = Holds-recycle v
  Holds-run_frame Mode.encap now r (addr, len) v =
      Holds-recycle (Holds-encap_frame _ addr len now v)
  Holds-run_frame Mode.decap now r (addr, len) v =
      Holds-recycle (Holds-decap_frame _ addr len now v)

  Holds-run_frames :
      (mode : Mode) (now : ℕ) (r : Runner) (ds : List (ℕ × ℕ))
      → Holds c r.sock (addrs_of ds)
      → Holds c (run_frames l mode now r ds).sock []
  unfolding run_frames
  Holds-run_frames mode now r [] v = v
  Holds-run_frames mode now r (d ∷ ds) v =
      Holds-run_frames mode now (run_frame l mode now r d) ds (Holds-run_frame mode now r d v)

  pub Holds-service : (x : Xsk) (batch : ℕ) → Holds c x [] → Holds c (service l x batch) []
  Holds-service x batch v = Holds-refill l s batch (Holds-complete_tx l s batch v)

  Holds-run_turn :
      (opts : RunOpts) (t : Turn) (r : Runner)
      → Holds c r.sock []
      → Holds c (run_turn l opts t r).sock []
  unfolding run_turn
  Holds-run_turn opts t r v =
      let batch = max opts.batch 1 in
      let r1 = record r { pipeline = collect r.pipeline t } in
      elim (Bool-cases t.readable) [
        | inl e ↦
            rw (e, run_turn)
              (Holds-service _ batch
                (Holds-run_frames opts.mode t.now_ms _ _ (Holds-rx_burst l s batch v)))
        | inr e ↦ rw (e, run_turn) (Holds-service _ batch v)
      ]

abbrev pub AllBegin : ℕ → List (Turn × List KernelEvent) → Type 0
AllBegin frame_size [] = Unit
AllBegin frame_size ((t, es) ∷ ts) = AllStart frame_size es × AllBegin frame_size ts

pub Holds-run :
    (l : Libxdp)
    → IsLibxdp l
    → (c : XskConfig) (opts : RunOpts) (ts : List (Turn × List KernelEvent)) (r : Runner)
    → AllBegin c.frame_size ts
    → Holds c r.sock []
    → Holds c (run l opts ts r).sock []
unfolding run
Holds-run l s c opts [] r b v = v
Holds-run l s c opts ((t, es) ∷ ts) r (b, bs) v =
    let r1 = record r { sock = kernel_events r.sock es } in
    let v1 : Holds c r1.sock [] = Holds-kernel_events c r.sock es b v in
    elim (Bool-cases (stops opts r1.stats t)) [
      | inl e ↦ rw (e, run) v1
      | inr e ↦ rw (e, run) (Holds-run l s c opts ts _ bs (Holds-run_turn l s opts t r1 v1))
    ]

-- On a socket that is opened over a UMEM with frames, in each mode, by whatever the loop is given and
-- the kernel does, each frame has one owner: it stands once in the free list and the four rings, so
-- none is lost and none is handed out twice. The reservations and peeks of libxdp are as it documents
-- them.
pub run-owned :
    (l : Libxdp)
    → IsLibxdp l
    → (c : XskConfig) (area : Bytes) (opts : RunOpts) (ts : List (Turn × List KernelEvent))
      (p : Pipeline) (stats : RunStats)
    → AllBegin c.frame_size ts
    → 0 < c.frame_size
    → (k : ℕ) → k < c.n_frames
    → let r : Runner =
        run l opts ts (record { sock = open_bound l c area; pipeline = p; stats = stats }) in
      owned r.sock (k * c.frame_size) ≡ 1
run-owned l s c area opts ts p stats b f k h =
    Holds-owned (Holds-run l s c opts ts _ b (Holds-open_bound l s c area)) f k h
