-- ===== src/Dataplane/ChannelTests.antt =====
-- Channels on which the theorems of the ring's making and of its schedules are applied.
use light_andromeda.Dataplane.Spsc.{channel}
use light_andromeda.Dataplane.Spsc.Fifo.{IsRing, queue}
use light_andromeda.Dataplane.Spsc.Channel.{channel-IsRing}
use light_andromeda.Dataplane.Spsc.Schedule.{
  Step, send, receive, refused, taken, run_ring, channel-run_queue,
}
use light_andromeda.Prelude.{ℕ, ◌≤◌, ◌<◌, ◌≡◌, List, [], ◌∷◌, some, none, length, arith}

channel-IsRing_example :
    let r = channel {T = ℕ} 0 5 in
    IsRing 0 r × (queue 0 r ≡ []) × (5 ≤ length r.buf) × (length r.buf < 10)
channel-IsRing_example = channel-IsRing 0 5 (omega arith)

-- A ring of two slots refuses the third value.
abbrev steps : List (Step ℕ)
steps = send 1 ∷ send 2 ∷ send 3 ∷ receive ∷ send 4 ∷ receive ∷ receive ∷ receive ∷ []

channel-run_queue_example : run_ring 0 (channel 0 2) steps ≡ (
    refused none
    ∷ refused none
    ∷ refused (some 3)
    ∷ taken (some 1)
    ∷ refused none
    ∷ taken (some 2)
    ∷ taken (some 4)
    ∷ taken none
    ∷ [])
unfolding light_andromeda.Dataplane.Spsc.Schedule.run_queue channel
channel-run_queue_example = channel-run_queue 0 2 steps (omega arith)
