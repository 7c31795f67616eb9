-- ===== src/Cli/Main.antt =====
-- crates/andromeda-cli/src/main.rs: `main`, which chooses the subcommand.
pub mod Started
use light_andromeda.Prelude.{if◌then◌else◌, ◌||◌, [], ◌∷◌, List, String, ℕ, Option, none, some}
use light_andromeda.Core.Text.{Text, text, text_eq}
use light_andromeda.Cli.Args.{Outcome}
use light_andromeda.Cli.Setup.{Setup}
use light_andromeda.Cli.Run.{run_setup}
use light_andromeda.Cli.Switch.{switch_setup}
use light_andromeda.Control.Config.Parse.{Reader}

-- The arms of the match on the first argument, with the arguments behind it.
pub data Subcommand : Type 0 where
  selftest : Subcommand
  bench : List Text → Subcommand
  inspect : List Text → Subcommand
  run : List Text → Subcommand
  switch : List Text → Subcommand
  version : Subcommand
  help : Subcommand
  unknown : Text → Subcommand

abbrev subcommand_of : Text → List Text → Subcommand
subcommand_of a rest =
    if text_eq a (text "selftest")
    then selftest
    else if text_eq a (text "bench")
    then bench rest
    else if text_eq a (text "inspect")
    then inspect rest
    else if text_eq a (text "run")
    then run rest
    else if text_eq a (text "switch")
    then switch rest
    else if text_eq a (text "version") || text_eq a (text "--version")
    then version
    else if text_eq a (text "help") || text_eq a (text "--help") || text_eq a (text "-h")
    then help
    else unknown a

-- The arguments start with the name of the program.
unfoldable pub subcommand : List Text → Subcommand
subcommand [] = version
subcommand (program ∷ []) = version
subcommand (program ∷ a ∷ rest) = subcommand_of a rest

module _ (vpc_name : ℕ → String) (r : Reader) where
  -- What a subcommand that forwards starts from.
  abbrev pub setup_of : Subcommand → Option (Outcome Setup)
  setup_of selftest = none
  setup_of (bench rest) = none
  setup_of (inspect rest) = none
  setup_of (run rest) = some (run_setup vpc_name rest)
  setup_of (switch rest) = some (switch_setup vpc_name r rest)
  setup_of version = none
  setup_of help = none
  setup_of (unknown a) = none

  -- What the arguments of the process start from.
  unfoldable pub node_setup : List Text → Option (Outcome Setup)
  node_setup args = setup_of (subcommand args)
