-- ===== src/Cli/Tests.antt =====
-- A command line on which the theorem of the switch's start is applied.
use light_andromeda.Prelude.{none, ℕ, ◌≡◌, refl, List, [], ◌∷◌, some, true, String}
use light_andromeda.Core.Text.{Text, text}
use light_andromeda.Control.ConfigTests.{reader}
use light_andromeda.Cli.Args.{go, exit, unknown_option}
use light_andromeda.Cli.Setup.{setup_of_flags}
use light_andromeda.Cli.Switch.{Options, setup_of_options, switch_setup, defaults}
use light_andromeda.Cli.Setup.Started.{IsStarted}
use light_andromeda.Cli.Main.{node_setup}
use light_andromeda.Cli.Main.Started.{node_setup-IsStarted}

abbrev name : ℕ → String
name vni = "vpc"

abbrev args : List Text
args =
    text "--tenant"
    ∷ text "t0"
    ∷ text "--zc"
    ∷ text "--vni"
    ∷ text "700"
    ∷ text "--underlay"
    ∷ text "u0"
    ∷ text "--nat-ip"
    ∷ text "203.0.113.7"
    ∷ []

abbrev options : Options
options = record defaults {
  tenant_if = some (text "t0");
  underlay_if = some (text "u0");
  zerocopy = true;
  vni = 700;
  nat_ip = some 3405803783;
}

accepts : switch_setup name reader args ≡ go (setup_of_options name options)
unfolding switch_setup light_andromeda.Cli.Args.parse_args light_andromeda.Cli.Args.find_flag
    light_andromeda.Cli.Switch.flags light_andromeda.Cli.Switch.named_setup
    light_andromeda.Cli.Switch.setup light_andromeda.Core.Text.uint_from_str
    light_andromeda.Core.Text.read_decimal light_andromeda.Core.Text.to_digit
    light_andromeda.Core.Text.ipv4_from_str light_andromeda.Core.Text.read_octets
    light_andromeda.Core.Text.read_octet light_andromeda.Core.Text.read_digits
    light_andromeda.Core.Text.split
accepts = refl

refuses : switch_setup name reader (text "--frob" ∷ []) ≡ exit (unknown_option (text "--frob"))
unfolding switch_setup light_andromeda.Cli.Args.parse_args light_andromeda.Cli.Args.find_flag
    light_andromeda.Cli.Switch.flags
refuses = refl

-- `andromeda run eth0 --mode decap --count 5`.
abbrev run_args : List Text
run_args =
    text "andromeda"
    ∷ text "run"
    ∷ text "eth0"
    ∷ text "--mode"
    ∷ text "decap"
    ∷ text "--count"
    ∷ text "5"
    ∷ []

starts :
    node_setup name reader run_args ≡ some (go (setup_of_flags name 100 3232235777 3232235778 none))
unfolding node_setup light_andromeda.Cli.Main.subcommand light_andromeda.Cli.Run.run_setup
    light_andromeda.Cli.Run.run_options light_andromeda.Cli.Args.parse_args
    light_andromeda.Cli.Args.find_flag light_andromeda.Cli.Run.flags
    light_andromeda.Core.Text.uint_from_str light_andromeda.Core.Text.read_decimal
    light_andromeda.Core.Text.to_digit
starts = refl

node_setup-IsStarted_example : IsStarted (setup_of_flags name 100 3232235777 3232235778 none)
node_setup-IsStarted_example =
    node_setup-IsStarted name reader run_args (setup_of_flags name 100 3232235777 3232235778 none)
      starts
