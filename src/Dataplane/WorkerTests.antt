-- ===== src/Dataplane/WorkerTests.antt =====
-- Two workers on which the theorems of the multi-queue switch are applied.
use light_andromeda.Prelude.{String, List, [], ◌∷◌, ℕ, Bytes}
use light_andromeda.Core.Text.{text}
use light_andromeda.Control.Fabric
use light_andromeda.Dataplane.PortTests.{turn, between, ready}
use light_andromeda.Dataplane.Workers
use light_andromeda.Dataplane.Workers.{Cells, Step}

abbrev name : ℕ → String
name vni = "vpc"

-- Two queues.
abbrev areas : List (Bytes × Bytes)
areas = ([], []) ∷ ([], []) ∷ []

abbrev cells : Cells
cells a = Fabric.new 3232235777

-- The workers take turns, and a file is reloaded in between.
abbrev steps : List Step
steps =
    Workers.turn 1 turn ready between
    ∷ Workers.turn 0 turn ready between
    ∷ Workers.command (text "reload /etc/node.toml")
    ∷ Workers.turn 1 turn ready between
    ∷ []
