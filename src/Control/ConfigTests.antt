-- ===== src/Control/ConfigTests.antt =====
-- A document on which the theorems of the configuration are applied.
use light_andromeda.Core.Text.{Text, text}
use light_andromeda.Core.Ethernet.{MacAddr}
use light_andromeda.Core.Ethernet.Mac
use light_andromeda.Control.Fabric.{Endpoint}
use light_andromeda.Control.Config.{NodeConfig, build_fabric, served_vnis}
use light_andromeda.Control.Config.Parse.{
  RawConfig, RawEndpoint, Reader, Parsed, ok, err, load, io_error, validate,
}
use light_andromeda.Control.Config.Valid.{IsValid, load-IsValid}
use light_andromeda.Prelude.{ℕ, ◌≡◌, refl, arith, [], ◌∷◌, none, some, false, String}

abbrev pub raw : RawConfig
raw = record {
  local_node = text "192.168.1.1";
  peer_node = some (text "192.168.1.2");
  vni = some 7;
  virtual_gateway_mac = none;
  virtual_gateway_ip = none;
  nat_ip = none;
  vpc_cidr = some (text "10.0.0.0/24");
  underlay_mtu = none;
  endpoints =
      record {
        inner_ip = text "10.0.0.20";
        inner_mac = text "02:00-00:00:00:2A";
        node_ip = text "192.168.1.2";
        local = false;
      }
      ∷ [];
  vpcs = [];
}

-- A reader of the one document.
abbrev pub reader : Reader
reader = record { from_toml = λ s. ok raw; open_file = λ path. ok []; decode = λ bytes. ok bytes }

abbrev endpoint : Endpoint
endpoint = record {
  vni = 7;
  inner_ip = 167772180;
  inner_mac = record { b0 = 2; b1 = 0; b2 = 0; b3 = 0; b4 = 0; b5 = 42 };
  node_ip = 3232235778;
  local = false;
}

abbrev accepted : NodeConfig
accepted = record {
  local_node = 3232235777;
  peer_node = some 3232235778;
  vni = 7;
  virtual_gateway_mac = record { b0 = 2; b1 = 0; b2 = 0; b3 = 0; b4 = 0; b5 = 255 };
  virtual_gateway_ip = 167772161;
  nat_ip = none;
  vpc_cidr = (167772160, 24);
  underlay_mtu = 1500;
  endpoints = endpoint ∷ [];
  vpcs = record { vni = 7; cidr = (167772160, 24); endpoints = endpoint ∷ [] } ∷ [];
}

loads : load reader (text "node.toml") ≡ ok accepted
unfolding load light_andromeda.Control.Config.Parse.parse validate
    light_andromeda.Control.Config.Parse.parse_ip light_andromeda.Control.Config.Parse.gateway_mac
    light_andromeda.Control.Config.Parse.build_vpcs light_andromeda.Control.Config.Parse.parse_vpc
    light_andromeda.Control.Config.Parse.parse_cidr
    light_andromeda.Control.Config.Parse.parse_endpoints
    light_andromeda.Control.Config.Parse.gateway_ip
    light_andromeda.Control.Config.Parse.parse_endpoint
    light_andromeda.Control.Config.Parse.parse_mac light_andromeda.Control.Config.Parse.parse_vpcs
    light_andromeda.Core.Text.ipv4_from_str light_andromeda.Core.Text.read_octets
    light_andromeda.Core.Text.split light_andromeda.Core.Text.read_octet
    light_andromeda.Core.Text.read_digits light_andromeda.Core.Text.to_digit
    light_andromeda.Core.Text.split_once light_andromeda.Core.Text.u8_from_str_radix Mac.from_str
    Mac.read_parts light_andromeda.Core.Ethernet.mac_at
loads = refl

load-IsValid_example : IsValid accepted
load-IsValid_example = load-IsValid reader (text "node.toml") accepted loads

abbrev name : ℕ → String
name vni = "vpc"

abbrev mac : MacAddr
mac = record { b0 = 2; b1 = 0; b2 = 171; b3 = 0; b4 = 255; b5 = 42 }

from_str-fmt_example : Mac.from_str (text "02:00:ab:00:ff:2a") ≡ some mac
unfolding Mac.fmt Mac.hex_digit
from_str-fmt_example =
    Mac.from_str-fmt mac
      (omega arith, (omega arith, (omega arith, (omega arith, (omega arith, (omega arith, tt))))))

-- A sign and leading zeros are taken in an octet.
from_str_loose : Mac.from_str (text "+2:0:AB:000000:fF:2a") ≡ some mac
unfolding Mac.from_str Mac.read_parts light_andromeda.Core.Text.split
    light_andromeda.Core.Text.u8_from_str_radix light_andromeda.Core.Text.read_digits
    light_andromeda.Core.Text.to_digit light_andromeda.Core.Ethernet.mac_at
from_str_loose = refl
