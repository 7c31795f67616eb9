-- ===== src/Dataplane/Workers/Shared.antt =====
-- The workers read what the control socket stores, since they share its handle.
use light_andromeda.Prelude.{◌∷◌, ◌≡◌, [], ℕ, List, some, none, Option}
use light_andromeda.Prelude.Map.{nat_eq}
use light_andromeda.Control.Fabric.{Fabric}
use light_andromeda.Core.Text.{Text}
use light_andromeda.Nat.State as NatState
use light_andromeda.Dataplane.Workers.{Cells, Worker, Workers, Step, turn, command, load}

-- The commands of the steps, in their order.
unfoldable pub commands : List Step → List Text
commands [] = []
commands (turn q t ready es ∷ steps) = commands steps
commands (command line ∷ steps) = line ∷ commands steps

-- The worker holds the handle `a`.
abbrev HasHandle : ℕ → Worker → Type 0
HasHandle a w = w.handle ≡ a

-- The fabric that the worker's next turn forwards by.
abbrev pub fabric_of : Cells → Worker → Fabric
fabric_of cells w = (load cells w).switch.pipeline.fabric

abbrev handle_or : ℕ → Option Worker → ℕ
handle_or a none = a
handle_or a (some w) = w.handle
