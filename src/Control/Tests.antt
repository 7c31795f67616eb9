-- ===== src/Control/Tests.antt =====
-- A configuration on which the theorem of the fabric is applied.
use light_andromeda.Core.Ethernet.{MacAddr}
use light_andromeda.Control.Fabric.{Endpoint, resolve}
use light_andromeda.Control.Config.{NodeConfig, build_fabric}
use light_andromeda.Control.Config.Resolve.{resolve-build_fabric, last_declared, declared, hop_or}
use light_andromeda.Prelude.{◌≡◌, none, [], ◌∷◌, true, false, String, ℕ}

abbrev mac : MacAddr
mac = record { b0 = 2; b1 = 0; b2 = 0; b3 = 0; b4 = 0; b5 = 7 }

-- The same inner address in two VPCs.
abbrev red : Endpoint
red = record { vni = 1; inner_ip = 167772161; inner_mac = mac; node_ip = 3232235777; local = true }

abbrev blue : Endpoint
blue = record {
  vni = 2;
  inner_ip = 167772161;
  inner_mac = mac;
  node_ip = 3232235778;
  local = false;
}

abbrev config : NodeConfig
config = record {
  local_node = 3232235777;
  peer_node = none;
  vni = 1;
  virtual_gateway_mac = mac;
  virtual_gateway_ip = 167772414;
  nat_ip = none;
  vpc_cidr = (167772160, 24);
  underlay_mtu = 1500;
  endpoints = red ∷ [];
  vpcs =
      (record { vni = 1; cidr = (167772160, 24); endpoints = red ∷ [] })
      ∷ (record { vni = 2; cidr = (167772160, 24); endpoints = blue ∷ [] })
      ∷ [];
}

abbrev name : ℕ → String
name vni = "vpc"

resolve-build_fabric_example :
    resolve (build_fabric name config) 2 167772161
    ≡ hop_or none (last_declared 2 167772161 (declared config.vpcs))
resolve-build_fabric_example = resolve-build_fabric name config 2 167772161
