-- ===== src/Cli/Main/Started.antt =====
-- The state from which a node is started by the command line.
use light_andromeda.Cli.Main.{
  setup_of, Subcommand, subcommand, node_setup, run, switch, selftest, bench, inspect, version,
  help, unknown,
}
use mathlib.Core.Path.{subst}
use light_andromeda.Core.Text.{Text}
use light_andromeda.Cli.Args.{Outcome, go}
use light_andromeda.Cli.Setup.{Setup}
use light_andromeda.Cli.Setup.Started.{IsStarted, Goes}
use light_andromeda.Cli.Run.Started.{run_setup-Goes}
use light_andromeda.Cli.Switch.Started.{switch_setup-Goes}
use light_andromeda.Control.Config.Parse.{Reader}
use light_andromeda.Prelude.{ℕ, ◌≡◌, List, String, Option, none, some}

-- What is set up, if anything, satisfies `P`.
abbrev Ready : (Setup → Type 0) → Option (Outcome Setup) → Type 0
Ready P none = Unit
Ready P (some m) = Goes P m

module _ (name : ℕ → String) (r : Reader) where
  setup_of-Ready : (c : Subcommand) → Ready IsStarted (setup_of name r c)
  setup_of-Ready selftest = tt
  setup_of-Ready (bench rest) = tt
  setup_of-Ready (inspect rest) = tt
  setup_of-Ready (run rest) = run_setup-Goes name rest
  setup_of-Ready (switch rest) = switch_setup-Goes name r rest
  setup_of-Ready version = tt
  setup_of-Ready help = tt
  setup_of-Ready (unknown a) = tt

-- The subcommands `run` and `switch`, with arguments and a configuration file, or none, on which the
-- process does not exit, start from a NAT engine over the node's NAT address whose invariant holds and
-- which uses no port, and from an MTU that exceeds the overhead of the overlay.
pub node_setup-IsStarted :
    (name : ℕ → String) (r : Reader) (args : List Text) (w : Setup)
    → node_setup name r args ≡ some (go w)
    → IsStarted w
unfolding node_setup
node_setup-IsStarted name r args w e =
    subst (Ready IsStarted) e (setup_of-Ready name r (subcommand args))
