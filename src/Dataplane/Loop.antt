-- ===== src/Dataplane/Loop.antt =====
-- crates/andromeda-dataplane/src/afxdp.rs: `run`, the forwarding loop on one socket. A turn of the loop
-- is given what it observes of the clock, the stop flag and `poll`; what is printed is left out.
pub mod Frames
use light_andromeda.Core.Checksum.{u32_mod}
use light_andromeda.Dataplane.Pipeline.State
use light_andromeda.Dataplane.Pipeline.State.{Pipeline, Decision, forward, reply, inc}
use light_andromeda.Dataplane.Pipeline.Tenant
use light_andromeda.Dataplane.Pipeline.Underlay
use light_andromeda.Dataplane.Xsk
use light_andromeda.Dataplane.Xsk.{Xsk, Libxdp}
use light_andromeda.Dataplane.Xsk.Kernel.{KernelEvent, kernel_events}
use light_andromeda.Nat.TimingWheel.{u64_mod}
use light_andromeda.Prelude.{
  ℕ, ◌+◌, ◌%◌, max, List, [], ◌∷◌, Bool, false, Option, none, some, ◌||◌, leb, if◌then◌else◌,
}

pub data Mode : Type 0 where
  dump encap decap : Mode

pub record RunOpts : Type 0 where
  pub mode : Mode
  pub max_packets : Option ℕ
  pub max_secs : Option ℕ
  pub batch : ℕ

pub record RunStats : Type 0 where
  pub rx : ℕ
  pub tx : ℕ
  pub dropped : ℕ
  pub decapped : ℕ
  pub bytes_in : ℕ

abbrev pub no_stats : RunStats
no_stats = record { rx = 0; tx = 0; dropped = 0; decapped = 0; bytes_in = 0 }

abbrev pub nat_idle_timeout_ms : ℕ
nat_idle_timeout_ms = 120000

-- What a turn observes: the stop flag, the seconds since the start, whether the interval of the
-- garbage collection has passed, the time of it and that of the frames in milliseconds, and whether
-- `poll` finds frames.
pub record Turn : Type 0 where
  pub stop : Bool
  pub secs : ℕ
  pub gc_due : Bool
  pub gc_ms : ℕ
  pub readable : Bool
  pub now_ms : ℕ

abbrev pub reached : Option ℕ → ℕ → Bool
reached none n = false
reached (some m) n = leb m n

-- The three tests at the head of the loop.
unfoldable pub stops : RunOpts → RunStats → Turn → Bool
stops opts stats t = t.stop || reached opts.max_packets stats.rx || reached opts.max_secs t.secs

abbrev pub count_rx : RunStats → ℕ → RunStats
count_rx stats len = record stats { rx = inc stats.rx; bytes_in = (stats.bytes_in + len) % u64_mod }

abbrev pub count_tx : RunStats → RunStats
count_tx stats = record stats { tx = inc stats.tx }

abbrev pub count_drop : RunStats → RunStats
count_drop stats = record stats { dropped = inc stats.dropped }

abbrev pub count_decap : RunStats → RunStats
count_decap stats = record stats { decapped = inc stats.decapped }

pub record Runner : Type 0 where
  pub sock : Xsk
  pub pipeline : Pipeline
  pub stats : RunStats

abbrev pub collect : Pipeline → Turn → Pipeline
collect p t = if t.gc_due then (State.gc p t.gc_ms nat_idle_timeout_ms).0 else p

module _ (l : Libxdp) where
  -- A built frame of `m` bytes is queued, or else given back and counted as dropped.
  unfoldable pub queue_or_drop : Xsk → RunStats → (tx_addr m : ℕ) → Xsk × RunStats
  queue_or_drop x stats tx_addr m =
      let (x1, queued) = Xsk.tx_one l x tx_addr (m % u32_mod) in
      if queued then (x1, count_tx stats) else (Xsk.recycle x1 tx_addr, count_drop stats)

  unfoldable pub send_decision : Xsk → RunStats → ℕ → Decision → Xsk × RunStats
  send_decision x stats tx_addr (forward m) = queue_or_drop x stats tx_addr m
  send_decision x stats tx_addr (reply m) = queue_or_drop x stats tx_addr m
  send_decision x stats tx_addr d = (Xsk.recycle x tx_addr, count_drop stats)

  -- `Mode::Encap`, without the last `recycle`.
  unfoldable pub encap_frame : Runner → (addr len now : ℕ) → Runner
  encap_frame r addr len now =
      let (x1, tx) = Xsk.alloc_tx r.sock in
      elim tx [
        | none ↦ record r { sock = x1; stats = count_drop r.stats }
        | some tx_addr ↦
            let (p, out, d) =
              Tenant.on_tenant_frame r.pipeline (Xsk.frame x1 addr len) (Xsk.frame_mut x1 tx_addr)
                now in
            let (x2, stats) = send_decision (Xsk.write_frame x1 tx_addr out) r.stats tx_addr d in
            record { sock = x2; pipeline = p; stats = stats }
      ]

  abbrev decap_stats : RunStats → Decision → RunStats
  decap_stats stats (forward m) = count_decap stats
  decap_stats stats d = stats

  -- `Mode::Decap`, likewise: what is built is printed and given back.
  unfoldable pub decap_frame : Runner → (addr len now : ℕ) → Runner
  decap_frame r addr len now =
      let (x1, tx) = Xsk.alloc_tx r.sock in
      elim tx [
        | none ↦ record r { sock = x1 }
        | some tx_addr ↦
            let (p, out, d) =
              Underlay.on_underlay_frame r.pipeline (Xsk.frame x1 addr len)
                (Xsk.frame_mut x1 tx_addr) now in
            record {
              sock = Xsk.recycle (Xsk.write_frame x1 tx_addr out) tx_addr;
              pipeline = p;
              stats = decap_stats r.stats d;
            }
      ]

  abbrev handle : Mode → Runner → (addr len now : ℕ) → Runner
  handle dump r addr len now = r
  handle encap r addr len now = encap_frame r addr len now
  handle decap r addr len now = decap_frame r addr len now

  -- A frame of the burst.
  unfoldable pub run_frame : Mode → ℕ → Runner → ℕ × ℕ → Runner
  run_frame mode now r (addr, len) =
      let r1 = handle mode (record r { stats = count_rx r.stats len }) addr len now in
      record r1 { sock = Xsk.recycle r1.sock addr }

  unfoldable pub run_frames : Mode → ℕ → Runner → List (ℕ × ℕ) → Runner
  run_frames mode now r [] = r
  run_frames mode now r (d ∷ ds) = run_frames mode now (run_frame mode now r d) ds

  -- `complete_tx(batch)`, then `refill(batch)`.
  abbrev pub service : Xsk → ℕ → Xsk
  service x batch = (Xsk.refill l (Xsk.complete_tx l x batch).0 batch).0

  -- A turn that does not break out of the loop.
  unfoldable pub run_turn : RunOpts → Turn → Runner → Runner
  run_turn opts t r =
      let batch = max opts.batch 1 in
      let r1 = record r { pipeline = collect r.pipeline t } in
      let (x, ds) = Xsk.rx_burst l r1.sock batch in
      let r2 = run_frames opts.mode t.now_ms (record r1 { sock = x }) ds in
      if t.readable
      then record r2 { sock = service r2.sock batch }
      else record r1 { sock = service r1.sock batch }

  -- `run` on the turns that it is given, with what the kernel does before each.
  unfoldable pub run : RunOpts → List (Turn × List KernelEvent) → Runner → Runner
  run opts [] r = r
  run opts ((t, es) ∷ ts) r =
      let r1 = record r { sock = kernel_events r.sock es } in
      let rest = run opts ts (run_turn opts t r1) in if stops opts r1.stats t then r1 else rest
