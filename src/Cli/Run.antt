-- ===== src/Cli/Run.antt =====
-- crates/andromeda-cli/src/main.rs: `run_cmd`, from its arguments to the fabric, the configuration, the
-- engine and the loop that it starts.
pub mod Started
use light_andromeda.Prelude.{
  if◌then◌else◌, true, [], false, some, Bool, ipv4, ◌∷◌, Option, none, Ipv4Addr, List, String, ℕ,
}
use light_andromeda.Core.Text.{Text, text, text_eq, starts_with}
use light_andromeda.Cli.Args.{
  Outcome, go, exit, Flag, valued, plain, set_u32, set_u64, set_ip, parse_args, ◌>>=◌, bad_mode,
  run_usage,
}
use light_andromeda.Cli.Setup.{Setup, setup_of_flags}
use light_andromeda.Dataplane.Xsk.{XskConfig, XdpMode, auto, skb, drv, default_config}
use light_andromeda.Dataplane.Loop.{RunOpts, Mode}
use light_andromeda.Dataplane.Loop

-- The variables that the options set.
pub record Options : Type 0 where
  pub queue : ℕ
  pub mode : Mode
  pub vni : ℕ
  pub local_node : Ipv4Addr
  pub peer_node : Ipv4Addr
  pub nat_ip : Option Ipv4Addr
  pub max_packets : Option ℕ
  pub max_secs : Option ℕ
  pub batch : ℕ
  pub xdp_mode : XdpMode
  pub zerocopy : Bool

abbrev pub defaults : Options
defaults = record {
  queue = 0;
  mode = Loop.dump;
  vni = 100;
  local_node = ipv4 192 168 1 1;
  peer_node = ipv4 192 168 1 2;
  nat_ip = none;
  max_packets = none;
  max_secs = none;
  batch = 64;
  xdp_mode = auto;
  zerocopy = false;
}

-- The value of `--mode`.
abbrev parse_mode : Text → Outcome Mode
parse_mode s =
    if text_eq s (text "dump")
    then go Loop.dump
    else if text_eq s (text "encap")
    then go Loop.encap
    else if text_eq s (text "decap")
    then go Loop.decap
    else exit (bad_mode s)

-- The arms of the match on an argument.
unfoldable pub flags : List (Text × Flag Options)
flags =
    (text "--queue", set_u32 (text "--queue") (λ o n. record o { queue = n }))
    ∷ (text "--mode", valued (λ o s. parse_mode s >>= λ m. go (record o { mode = m })))
    ∷ (text "--vni", set_u32 (text "--vni") (λ o n. record o { vni = n }))
    ∷ (text "--local-node", set_ip (text "--local-node") (λ o ip. record o { local_node = ip }))
    ∷ (text "--peer-node", set_ip (text "--peer-node") (λ o ip. record o { peer_node = ip }))
    ∷ (text "--nat-ip", set_ip (text "--nat-ip") (λ o ip. record o { nat_ip = some ip }))
    ∷ (text "--count", set_u64 (text "--count") (λ o n. record o { max_packets = some n }))
    ∷ (text "--secs", set_u64 (text "--secs") (λ o n. record o { max_secs = some n }))
    ∷ (text "--batch", set_u32 (text "--batch") (λ o n. record o { batch = n }))
    ∷ (text "--skb", plain (λ o. record o { xdp_mode = skb }))
    ∷ (text "--drv", plain (λ o. record o { xdp_mode = drv }))
    ∷ (text "--zerocopy", plain (λ o. record o { zerocopy = true }))
    ∷ (text "--zc", plain (λ o. record o { zerocopy = true }))
    ∷ []

-- The first argument is the interface, which no option is; the others are the options.
unfoldable pub run_options : List Text → Outcome (Text × Options)
run_options [] = exit run_usage
run_options (iface ∷ args) =
    if starts_with (text "--") iface
    then exit run_usage
    else (parse_args flags defaults args >>= λ o. go (iface, o))

-- What the command starts from.
unfoldable pub run_setup : (ℕ → String) → List Text → Outcome Setup
run_setup vpc_name args = run_options args >>= λ p.
    let o = p.1 in go (setup_of_flags vpc_name o.vni o.local_node o.peer_node o.nat_ip)

-- The options of the loop and of the socket.
unfoldable pub run_opts : Options → RunOpts
run_opts o = record {
  mode = o.mode;
  max_packets = o.max_packets;
  max_secs = o.max_secs;
  batch = o.batch;
}

unfoldable pub xsk_config : Options → XskConfig
xsk_config o = record default_config { xdp_mode = o.xdp_mode; zerocopy = o.zerocopy }
