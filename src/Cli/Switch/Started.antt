-- ===== src/Cli/Switch/Started.antt =====
-- The state from which `switch_cmd` runs the switch.
use mathlib.Core.Path.{subst}
use light_andromeda.Core.Text.{Text}
use light_andromeda.Cli.Args.{go, parse_args}
use light_andromeda.Cli.Setup.{Setup, address_or}
use light_andromeda.Cli.Setup.Started.{
  IsStarted, Goes, Goes-bind, engine-IsConsistent, setup_of_flags-IsStarted,
}
use light_andromeda.Cli.Switch.{
  Options, setup_of_config, setup_of_options, setup, named_setup, switch_setup, defaults, flags,
}
use light_andromeda.Control.Config.{NodeConfig}
use light_andromeda.Control.Config.Parse.{Reader, Parsed-cases, load}
use light_andromeda.Control.Config.Valid.{IsValid, load-IsValid}
use light_andromeda.Prelude.{ℕ, ◌≡◌, List, String, inl, inr, Option-cases}

module _ (name : ℕ → String) (r : Reader) where
  setup_of_options-IsStarted : (o : Options) → IsStarted (setup_of_options name o)
  unfolding setup_of_options
  setup_of_options-IsStarted o =
      setup_of_flags-IsStarted name o.vni o.local_node o.peer_node o.nat_ip

  setup_of_config-IsStarted : (nc : NodeConfig) → IsValid nc → IsStarted (setup_of_config name nc)
  unfolding setup_of_config
  setup_of_config-IsStarted nc v = record {
    engine = engine-IsConsistent (address_or nc.nat_ip nc.local_node);
    mtu = v.mtu;
  }

  setup-IsStarted : (o : Options) → Goes IsStarted (setup name r o)
  unfolding setup
  setup-IsStarted o = elim (Option-cases o.config_path) [
    | inl n ↦ rw (n, setup) (setup_of_options-IsStarted o)
    | inr (path, e) ↦ elim (Parsed-cases (load r path)) [
      | inl (nc, l) ↦ rw (e, l, setup) (setup_of_config-IsStarted nc (load-IsValid r path nc l))
      | inr (why, l) ↦ rw (e, l, setup) tt
    ]
  ]

  named_setup-IsStarted : (o : Options) → Goes IsStarted (named_setup name r o)
  unfolding named_setup
  named_setup-IsStarted o = elim (Option-cases o.tenant_if) [
    | inl n ↦ rw (n, named_setup) tt
    | inr (tif, t) ↦ elim (Option-cases o.underlay_if) [
      | inl n ↦ rw (t, n, named_setup) tt
      | inr (uif, u) ↦ rw (t, u, named_setup) (setup-IsStarted o)
    ]
  ]

pub switch_setup-Goes :
    (name : ℕ → String) (r : Reader) (args : List Text) → Goes IsStarted (switch_setup name r args)
unfolding switch_setup
switch_setup-Goes name r args =
    Goes-bind IsStarted (parse_args flags defaults args) _ (λ o. named_setup-IsStarted name r o)

-- Arguments of `switch` with which the process does not exit, by whatever configuration file they name
-- or none, give a NAT engine over the node's NAT address whose invariant holds and which uses no port,
-- and an MTU that exceeds the overhead of the overlay.
pub switch_setup-IsStarted :
    (name : ℕ → String) (r : Reader) (args : List Text) (w : Setup)
    → switch_setup name r args ≡ go w
    → IsStarted w
switch_setup-IsStarted name r args w e = subst (Goes IsStarted) e (switch_setup-Goes name r args)
