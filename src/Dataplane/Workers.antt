-- ===== src/Dataplane/Workers.antt =====
-- crates/andromeda-dataplane/src/afxdp.rs: `run_multiqueue`. A handle of a fabric is the address of the
-- cell that it points to; a worker loads the fabric from the cell of its own handle, and a reload stores
-- into the cell of the control socket's. A step is a turn of one worker or a command of the control
-- socket, in any order; a worker takes whole turns.
pub mod Shared
use light_andromeda.Prelude.{
  false, true, Bool, ℕ, zero, suc, Option, some, none, List, [], ◌∷◌, ◌==◌, String, Ipv4Addr, Bytes,
  if◌then◌else◌,
}
use light_andromeda.Control.Config.Parse.{Reader}
use light_andromeda.Control.Fabric.{Fabric}
use light_andromeda.Core.Text.{Text}
use light_andromeda.Dataplane.Command.{apply_command}
use light_andromeda.Dataplane.Loop.{RunOpts, RunStats, Turn, stops, no_stats}
use light_andromeda.Dataplane.Pipeline.State
use light_andromeda.Dataplane.Pipeline.State.{PipelineConfig, reload_fabric}
use light_andromeda.Dataplane.Switch.{Switch, Ready, Between, switch_turn}
use light_andromeda.Dataplane.Xsk.{Libxdp, XskConfig, open_bound}
use light_andromeda.Dataplane.Xsk.Kernel.{kernel_events}
use light_andromeda.Nat.State as NatState

-- The cells of the handles, by their addresses.
abbrev pub Cells : Type 0
Cells = ℕ → Fabric

-- `ArcSwap::store`
abbrev pub store : Cells → ℕ → Fabric → Cells
store cells a f = λ b. if b == a then f else cells b

-- A worker, the handle of its pipeline, and whether its loop goes on.
pub record Worker : Type 0 where
  pub switch : Switch
  pub handle : ℕ
  pub running : Bool

-- The handle is that of the control socket; the workers stand by their queues.
pub record Workers : Type 0 where
  pub cells : Cells
  pub handle : ℕ
  pub workers : List Worker

pub data Step : Type 0 where
  turn : (q : ℕ) → Turn → Ready → Between → Step
  command : Text → Step

abbrev pub update_nth : List Worker → ℕ → (Worker → Worker) → List Worker
update_nth [] q f = []
update_nth (w ∷ ws) zero f = f w ∷ ws
update_nth (w ∷ ws) (suc q) f = w ∷ update_nth ws q f

-- What a worker's pipeline loads from its handle.
abbrev pub load : Cells → Worker → Worker
load cells v =
    let w = v.switch in
    record v { switch = record w { pipeline = reload_fabric w.pipeline (cells v.handle) } }

-- The body of a worker's thread before its loop, on two sockets that were bound; none if it panics
-- because the assertions on the ports fail.
unfoldable pub spawn :
    Libxdp
    → XskConfig
    → PipelineConfig
    → (nat_ip low high : ℕ) → Cells
    → (handle : ℕ) → (area_t area_u : Bytes) → Option Worker
spawn l xcfg cfg nat_ip low high cells handle area_t area_u = elim (NatState.new nat_ip low high) [
  | none ↦ none
  | some nat ↦ some (record {
    switch = record {
      tenant = open_bound l xcfg area_t;
      underlay = open_bound l xcfg area_u;
      pipeline = State.new cfg (cells handle) nat;
      stats = no_stats;
    };
    handle = handle;
    running = true;
  })
]

-- The loop over the queues, each worker with a clone of the handle, over the UMEMs of its two sockets.
-- The ports of all are the same, so that all panic or none.
unfoldable pub spawn_all :
    Libxdp
    → XskConfig
    → PipelineConfig
    → (nat_ip low high : ℕ) → Cells
    → (handle : ℕ) → List (Bytes × Bytes)
    → List Worker
spawn_all l xcfg cfg nat_ip low high cells handle [] = []
spawn_all l xcfg cfg nat_ip low high cells handle ((area_t, area_u) ∷ areas) =
    let rest = spawn_all l xcfg cfg nat_ip low high cells handle areas in
    elim (spawn l xcfg cfg nat_ip low high cells handle area_t area_u) [
      | none ↦ rest
      | some w ↦ w ∷ rest
    ]

-- The workers that `run_multiqueue` starts.
abbrev pub started :
    Libxdp
    → XskConfig
    → PipelineConfig
    → (nat_ip low high : ℕ) → Cells
    → (handle : ℕ) → List (Bytes × Bytes)
    → Workers
started l xcfg cfg nat_ip low high cells handle areas = record {
  cells = cells;
  handle = handle;
  workers = spawn_all l xcfg cfg nat_ip low high cells handle areas;
}

module _ (l : Libxdp) (opts : RunOpts) where
  -- A round of a worker's loop, with what the kernel does before it; a worker that stops stays so.
  unfoldable pub next_round : Turn → Ready → Between → Worker → Worker
  next_round t ready es v =
      let w = v.switch in
      let w1 = record w {
        tenant = kernel_events w.tenant es.tenant;
        underlay = kernel_events w.underlay es.underlay;
      } in
      if stops opts w1.stats t
      then record v { switch = w1; running = false }
      else record v { switch = switch_turn l opts t ready w1 }

  unfoldable pub worker_turn : Turn → Ready → Between → Worker → Worker
  unfolding next_round
  worker_turn t ready es v = if v.running then next_round t ready es v else v

module _ (l : Libxdp) (opts : RunOpts) (r : Reader) (vpc_name : ℕ → String) where
  unfoldable pub step : Workers → Step → Workers
  step s (turn q t ready es) = record s {
    workers = update_nth s.workers q (λ v. worker_turn l opts t ready es (load s.cells v));
  }
  step s (command line) =
      let f = (apply_command r vpc_name line (s.cells s.handle)).0 in
      record s { cells = store s.cells s.handle f }

  unfoldable pub run_workers : Workers → List Step → Workers
  unfolding step
  run_workers s [] = s
  run_workers s (e ∷ es) = run_workers (step s e) es

-- The statistics of the workers that neither failed nor panicked.
unfoldable pub joined : List (Option RunStats) → List RunStats
joined [] = []
joined (none ∷ ws) = joined ws
joined (some stats ∷ ws) = stats ∷ joined ws
