-- ===== src/Cli/Setup.antt =====
-- crates/andromeda-cli/src/main.rs: the fabric, the configuration and the engine from which a node
-- starts without a configuration file, as `run_cmd` and `switch_cmd` write them.
pub mod Started
use light_andromeda.Prelude.{false, some, ipv4, Option, none, Ipv4Addr, String, ℕ}
use light_andromeda.Core.Ethernet.{MacAddr}
use light_andromeda.Control.Config.Parse
use light_andromeda.Control.Fabric
use light_andromeda.Control.Fabric.{Fabric}
use light_andromeda.Dataplane.Pipeline.State.{PipelineConfig}
use light_andromeda.Nat.State
use light_andromeda.Nat.State.{NatEngine}

abbrev pub outer_src_mac : MacAddr
outer_src_mac = record { b0 = 2; b1 = 0; b2 = 0; b3 = 0; b4 = 0xa1; b5 = 1 }

abbrev pub outer_dst_mac : MacAddr
outer_dst_mac = record { b0 = 2; b1 = 0; b2 = 0; b3 = 0; b4 = 0xa1; b5 = 2 }

abbrev pub address_or : Option Ipv4Addr → Ipv4Addr → Ipv4Addr
address_or (some ip) d = ip
address_or none d = d

-- What the switch starts from; there is no engine if its assertions on the ports fail.
pub record Setup : Type 0 where
  pub fabric : Fabric
  pub cfg : PipelineConfig
  pub nat : Option NatEngine

-- A fabric without endpoints, so that every inner IPv4 packet goes to the peer.
unfoldable pub setup_of_flags :
    (ℕ → String) → (vni local_node peer_node : ℕ) → Option Ipv4Addr → Setup
setup_of_flags vpc_name vni local_node peer_node nat_ip = record {
  fabric =
      Fabric.add_vpc (Fabric.new local_node)
        (record { vni = vni; name = vpc_name vni; cidr = (0, 0) });
  cfg = record {
    local_node_ip = local_node;
    outer_src_mac = outer_src_mac;
    outer_dst_mac = outer_dst_mac;
    vni = vni;
    nat_ip = nat_ip;
    gateway_node_ip = some peer_node;
    virtual_gateway_mac = Parse.default_gateway_mac;
    outer_udp_checksum = false;
    underlay_mtu = 1500;
    virtual_gateway_ip = ipv4 10 0 0 1;
  };
  nat = State.new (address_or nat_ip local_node) 20000 60000;
}
