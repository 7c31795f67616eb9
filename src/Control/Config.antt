-- ===== src/Control/Config.antt =====
-- crates/andromeda-control/src/config.rs: the validated configuration and the fabric that it
-- describes. The text of a name, `format!("vpc-{vni}")`, is a parameter.
pub mod Resolve
pub mod Parse
pub mod Valid
pub mod Served
use light_andromeda.Core.Ethernet.{MacAddr}
use light_andromeda.Control.Fabric
use light_andromeda.Control.Fabric.{Fabric, Vpc, Endpoint}
use light_andromeda.Prelude.{ℕ, List, [], ◌∷◌, Option, String, Ipv4Addr}

pub record VpcSpec : Type 0 where
  pub vni : ℕ
  pub cidr : Ipv4Addr × ℕ
  pub endpoints : List Endpoint

pub record NodeConfig : Type 0 where
  pub local_node : Ipv4Addr
  pub peer_node : Option Ipv4Addr
  pub vni : ℕ
  pub virtual_gateway_mac : MacAddr
  pub virtual_gateway_ip : Ipv4Addr
  pub nat_ip : Option Ipv4Addr
  pub vpc_cidr : Ipv4Addr × ℕ
  pub underlay_mtu : ℕ
  pub endpoints : List Endpoint
  pub vpcs : List VpcSpec

unfoldable pub vnis_of : List VpcSpec → List ℕ
vnis_of [] = []
vnis_of (v ∷ vs) = v.vni ∷ vnis_of vs

unfoldable pub served_vnis : NodeConfig → List ℕ
unfolding vnis_of
served_vnis nc = vnis_of nc.vpcs

-- The inner loop of `build_fabric`.
unfoldable pub add_endpoints : Fabric → List Endpoint → Fabric
add_endpoints f [] = f
add_endpoints f (ep ∷ eps) = add_endpoints (Fabric.add_endpoint f ep) eps

module _ (vpc_name : ℕ → String) where
  -- The outer loop.
  unfoldable pub add_vpcs : Fabric → List VpcSpec → Fabric
  unfolding add_endpoints
  add_vpcs f [] = f
  add_vpcs f (v ∷ vs) =
      let vpc : Vpc = record { vni = v.vni; name = vpc_name v.vni; cidr = v.cidr } in
      add_vpcs (add_endpoints (Fabric.add_vpc f vpc) v.endpoints) vs

  unfoldable pub build_fabric : NodeConfig → Fabric
  unfolding add_vpcs
  build_fabric nc = add_vpcs (Fabric.new nc.local_node) nc.vpcs
