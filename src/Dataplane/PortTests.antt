-- ===== src/Dataplane/PortTests.antt =====
-- Ports and turns on which the theorems of the forwarding loops are applied.
use light_andromeda.Prelude.{
  ◌*◌, ◌+◌, ◌≡◌, arith, [], ◌∷◌, true, false, none, some, min, leb, if◌then◌else◌, All, List,
}
use light_andromeda.Dataplane.Tests.{pipeline}
use light_andromeda.Dataplane.Xsk.{
  Xsk, XskConfig, default_config, Libxdp, IsLibxdp, open_bound, rx_burst,
}
use light_andromeda.Dataplane.Xsk.Kernel.{KernelEvent, receive, transmit}
use light_andromeda.Dataplane.Xsk.Frames.{owned}
use light_andromeda.Dataplane.Xsk.Bounds.{InFrame, rx_burst-InFrame}
use light_andromeda.Dataplane.Loop
use light_andromeda.Dataplane.Loop.{RunOpts, Turn, Runner, no_stats, run}
use light_andromeda.Dataplane.Loop.Frames.{run-owned}
use light_andromeda.Dataplane.Switch.{Switch, Ready, Between, run_switch}
use light_andromeda.Dataplane.Switch.Frames.{run_switch-owned}

-- A ring of the documented behaviour.
abbrev pub rings : Libxdp
rings = record {
  reserve = λ size queued wanted. if leb (queued + wanted) size then wanted else 0;
  peek = λ ready wanted. min ready wanted;
}

rings-IsLibxdp : IsLibxdp rings
rings-IsLibxdp = record {
  whole = λ size queued wanted. ground arith;
  ready = λ ready wanted. omega arith;
  wanted = λ ready wanted. omega arith;
}

-- Four frames of 128 bytes.
abbrev pub small : XskConfig
small = record default_config {
  n_frames = 4;
  frame_size = 128;
  fill_size = 2;
  rx_size = 2;
  tx_size = 2;
  comp_size = 2;
}

abbrev pub opts : RunOpts
opts = record { mode = Loop.encap; max_packets = some 100; max_secs = none; batch = 2 }

abbrev pub turn : Turn
turn = record {
  stop = false;
  secs = 0;
  gc_due = true;
  gc_ms = 1000;
  readable = true;
  now_ms = 1001;
}

-- Two frames are received and one is sent.
abbrev events : List KernelEvent
events = receive 0 3 (1 ∷ 2 ∷ 3 ∷ []) ∷ receive 64 2 (4 ∷ 5 ∷ []) ∷ transmit ∷ []

run-owned_example :
    owned
      (run rings opts
        ((turn, events) ∷ (turn, events) ∷ [])
        (record { sock = open_bound rings small []; pipeline = pipeline; stats = no_stats })).sock
      (3 * 128)
    ≡ 1
run-owned_example =
    run-owned rings rings-IsLibxdp small [] opts ((turn, events) ∷ (turn, events) ∷ []) pipeline
      no_stats
      ((omega arith, (omega arith, (tt, tt))), ((omega arith, (omega arith, (tt, tt))), tt))
      (omega arith) 3 (omega arith)

abbrev pub between : Between
between = record { tenant = events; underlay = events }

abbrev pub ready : Ready
ready = record { tenant = true; underlay = true }

abbrev switched : Switch
switched = run_switch rings opts ((turn, ready, between) ∷ []) (record {
  tenant = open_bound rings small [];
  underlay = open_bound rings small [];
  pipeline = pipeline;
  stats = no_stats;
})

run_switch-owned_example :
    (owned switched.tenant (1 * 128) ≡ 1) × (owned switched.underlay (2 * 128) ≡ 1)
run_switch-owned_example =
    run_switch-owned rings rings-IsLibxdp small small [] [] opts ((turn, ready, between) ∷ [])
      pipeline no_stats
      ((omega arith, (omega arith, (tt, tt))), (omega arith, (omega arith, (tt, tt))), tt)
      (omega arith) (omega arith) 1 2 (omega arith) (omega arith)

-- Descriptors past the UMEM, within a frame, and longer than one.
abbrev received : Xsk
received = record {
  config = small;
  area = [];
  free = [];
  fill = [];
  rx = (600, 4) ∷ (130, 500) ∷ [];
  tx = [];
  comp = [];
}

rx_burst-InFrame_example : All (InFrame small) (rx_burst rings received 2).1
rx_burst-InFrame_example = rx_burst-InFrame rings received 2 (omega arith) (omega arith)
