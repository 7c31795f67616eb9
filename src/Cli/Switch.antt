-- ===== src/Cli/Switch.antt =====
-- crates/andromeda-cli/src/main.rs: `switch_cmd`, from its arguments to the fabric, the
-- configuration and the engine that it starts.
pub mod Started
use light_andromeda.Prelude.{
  if◌then◌else◌, true, [], false, some, Bool, ipv4, ◌∷◌, ◌^◌, Option, none, Ipv4Addr, List, String,
  ℕ,
}
use light_andromeda.Cli.Args.{
  Outcome, go, exit, Flag, valued, plain, set_u32, set_u64, set_ip, parse_args, ◌>>=◌, switch_usage,
  bad_config,
}
use light_andromeda.Cli.Setup.{Setup, setup_of_flags, outer_src_mac, outer_dst_mac, address_or}
use light_andromeda.Core.Text.{Text, text, text_eq, ipv4_from_str, uint_from_str}
use light_andromeda.Core.Ethernet.{MacAddr}
use light_andromeda.Control.Config.{NodeConfig, build_fabric}
use light_andromeda.Control.Config.Parse
use light_andromeda.Control.Config.Parse.{ConfigError, Reader, Parsed}
use light_andromeda.Control.Fabric
use light_andromeda.Control.Fabric.{Fabric}
use light_andromeda.Dataplane.Pipeline.State.{Pipeline, PipelineConfig}
use light_andromeda.Dataplane.Xsk.{XskConfig, XdpMode, auto, skb, drv, default_config}
use light_andromeda.Dataplane.Loop.{RunOpts}
use light_andromeda.Dataplane.Loop
use light_andromeda.Nat.State
use light_andromeda.Nat.State.{NatEngine}

-- The variables that the options set.
pub record Options : Type 0 where
  pub tenant_if : Option Text
  pub underlay_if : Option Text
  pub config_path : Option Text
  pub control_sock : Option Text
  pub queues : ℕ
  pub vni : ℕ
  pub local_node : Ipv4Addr
  pub peer_node : Ipv4Addr
  pub nat_ip : Option Ipv4Addr
  pub max_secs : Option ℕ
  pub batch : ℕ
  pub xdp_mode : XdpMode
  pub zerocopy : Bool

abbrev pub defaults : Options
defaults = record {
  tenant_if = none;
  underlay_if = none;
  config_path = none;
  control_sock = none;
  queues = 1;
  vni = 100;
  local_node = ipv4 192 168 1 1;
  peer_node = ipv4 192 168 1 2;
  nat_ip = none;
  max_secs = none;
  batch = 64;
  xdp_mode = auto;
  zerocopy = false;
}

-- The arms of the match on an argument.
unfoldable pub flags : List (Text × Flag Options)
flags =
    (text "--tenant", valued (λ o s. go (record o { tenant_if = some s })))
    ∷ (text "--underlay", valued (λ o s. go (record o { underlay_if = some s })))
    ∷ (text "--config", valued (λ o s. go (record o { config_path = some s })))
    ∷ (text "--control", valued (λ o s. go (record o { control_sock = some s })))
    ∷ (text "--queues", set_u32 (text "--queues") (λ o n. record o { queues = n }))
    ∷ (text "--vni", set_u32 (text "--vni") (λ o n. record o { vni = n }))
    ∷ (text "--local-node", set_ip (text "--local-node") (λ o ip. record o { local_node = ip }))
    ∷ (text "--peer-node", set_ip (text "--peer-node") (λ o ip. record o { peer_node = ip }))
    ∷ (text "--nat-ip", set_ip (text "--nat-ip") (λ o ip. record o { nat_ip = some ip }))
    ∷ (text "--secs", set_u64 (text "--secs") (λ o n. record o { max_secs = some n }))
    ∷ (text "--batch", set_u32 (text "--batch") (λ o n. record o { batch = n }))
    ∷ (text "--skb", plain (λ o. record o { xdp_mode = skb }))
    ∷ (text "--drv", plain (λ o. record o { xdp_mode = drv }))
    ∷ (text "--zerocopy", plain (λ o. record o { zerocopy = true }))
    ∷ (text "--zc", plain (λ o. record o { zerocopy = true }))
    ∷ []

module _ (vpc_name : ℕ → String) where
  -- From a configuration file.
  unfoldable pub setup_of_config : NodeConfig → Setup
  setup_of_config nc = record {
    fabric = build_fabric vpc_name nc;
    cfg = record {
      local_node_ip = nc.local_node;
      outer_src_mac = outer_src_mac;
      outer_dst_mac = outer_dst_mac;
      vni = nc.vni;
      nat_ip = nc.nat_ip;
      gateway_node_ip = nc.peer_node;
      virtual_gateway_mac = nc.virtual_gateway_mac;
      outer_udp_checksum = false;
      underlay_mtu = nc.underlay_mtu;
      virtual_gateway_ip = nc.virtual_gateway_ip;
    };
    nat = State.new (address_or nc.nat_ip nc.local_node) 20000 60000;
  }

  -- From the options alone.
  unfoldable pub setup_of_options : Options → Setup
  unfolding setup_of_flags
  setup_of_options o = setup_of_flags vpc_name o.vni o.local_node o.peer_node o.nat_ip

  unfoldable pub setup : Reader → Options → Outcome Setup
  setup r o = elim o.config_path [
    | none ↦ go (setup_of_options o)
    | some path ↦ elim (Parse.load r path) [
      | Parsed.ok nc ↦ go (setup_of_config nc)
      | Parsed.err e ↦ exit (bad_config e)
    ]
  ]

  -- Both interfaces have to be named.
  unfoldable pub named_setup : Reader → Options → Outcome Setup
  named_setup r o = elim o.tenant_if [
    | none ↦ exit switch_usage
    | some tif ↦ elim o.underlay_if [ none ↦ exit switch_usage | some uif ↦ setup r o ]
  ]

  -- From the arguments.
  unfoldable pub switch_setup : Reader → List Text → Outcome Setup
  switch_setup r args = parse_args flags defaults args >>= named_setup r

-- The options of the loop and of the sockets.
unfoldable pub run_opts : Options → RunOpts
run_opts o = record {
  mode = Loop.encap;
  max_packets = none;
  max_secs = o.max_secs;
  batch = o.batch;
}

unfoldable pub xsk_config : Options → XskConfig
xsk_config o = record default_config { xdp_mode = o.xdp_mode; zerocopy = o.zerocopy }
