-- ===== src/Cli/Run/Started.antt =====
-- The state from which `run_cmd` runs its loop.
use light_andromeda.Core.Text.{Text}
use light_andromeda.Cli.Setup.Started.{IsStarted, Goes, Goes-bind, setup_of_flags-IsStarted}
use light_andromeda.Cli.Run.{run_options, run_setup}
use light_andromeda.Prelude.{ℕ, List, String}

pub run_setup-Goes : (name : ℕ → String) (args : List Text) → Goes IsStarted (run_setup name args)
unfolding run_setup
run_setup-Goes name args =
    Goes-bind IsStarted (run_options args) _
      (λ p. let o = p.1 in setup_of_flags-IsStarted name o.vni o.local_node o.peer_node o.nat_ip)
