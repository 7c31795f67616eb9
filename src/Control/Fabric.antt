-- ===== src/Control/Fabric.antt =====
-- crates/andromeda-control/src/lib.rs: the map from (VNI, inner address) to where an endpoint lives.
use light_andromeda.Core.Ethernet.{MacAddr}
use light_andromeda.Prelude.Map.{Eq, nat_eq, lookup, insert}
use light_andromeda.Prelude.{
  ℕ, ◌-◌, ◌*◌, ◌/◌, ◌^◌, ◌≡◌, ◌↔◌, arith, List, [], ◌∷◌, Bool, true, ◌&&◌, Option, none, some,
  String, Ipv4Addr, length, leb, ◌==◌, if◌then◌else◌,
}

pub record Vpc : Type 0 where
  pub vni : ℕ
  pub name : String
  pub cidr : Ipv4Addr × ℕ

-- `u32::from(ip) & (u32::MAX << (32 - len))`.
abbrev pub masked : Ipv4Addr → ℕ → ℕ
masked ip len = ip / 2 ^ (32 - len) * 2 ^ (32 - len)

-- `Vpc::contains`
unfoldable pub contains : Vpc → Ipv4Addr → Bool
contains vpc ip =
    let (net, len) = vpc.cidr in
    if len == 0 then true else if leb 32 len then ip == net else masked ip len == masked net len

pub record Endpoint : Type 0 where
  pub vni : ℕ
  pub inner_ip : Ipv4Addr
  pub inner_mac : MacAddr
  pub node_ip : Ipv4Addr
  pub local : Bool

pub record NextHop : Type 0 where
  pub node_ip : Ipv4Addr
  pub inner_mac : MacAddr
  pub local : Bool

abbrev pub Key : Type 0
Key = ℕ × Ipv4Addr

abbrev pub key_beq : Key → Key → Bool
key_beq (v, i) (w, j) = v == w && i == j

pub key_beq_iff : (a b : Key) → (key_beq a b ≡ true) ↔ (a ≡ b)
key_beq_iff (v, i) (w, j) = (λ h. ground arith, λ h. ground arith)

instance abbrev pub key_eq : Eq Key
key_eq = record { beq = key_beq; beq_iff = key_beq_iff }

pub record Fabric : Type 0 where
  pub local_node_ip : Ipv4Addr
  pub vpcs : List (ℕ × Vpc)
  pub endpoints : List (Key × Endpoint)

-- `Fabric::new`
unfoldable pub new : Ipv4Addr → Fabric
new local_node_ip = record { local_node_ip = local_node_ip; vpcs = []; endpoints = [] }

unfoldable pub add_vpc : Fabric → Vpc → Fabric
add_vpc f vpc = record f { vpcs = insert vpc.vni vpc f.vpcs }

unfoldable pub add_endpoint : Fabric → Endpoint → Fabric
add_endpoint f ep = record f { endpoints = insert (ep.vni, ep.inner_ip) ep f.endpoints }

-- `Fabric::vpc`
unfoldable pub vpc_of : Fabric → ℕ → Option Vpc
vpc_of f vni = lookup vni f.vpcs

abbrev pub next_hop : Endpoint → NextHop
next_hop ep = record { node_ip = ep.node_ip; inner_mac = ep.inner_mac; local = ep.local }

unfoldable pub resolve : Fabric → ℕ → Ipv4Addr → Option NextHop
resolve f vni inner_dst = elim (lookup (vni, inner_dst) f.endpoints) [
  | some ep ↦ some (next_hop ep)
  | none ↦ none
]

unfoldable pub endpoint_count : Fabric → ℕ
endpoint_count f = length f.endpoints

-- The endpoints that `local_endpoints` iterates over.
unfoldable pub local_of : List (Key × Endpoint) → List Endpoint
local_of [] = []
local_of ((k, ep) ∷ rest) = if ep.local then ep ∷ local_of rest else local_of rest

unfoldable pub local_endpoints : Fabric → List Endpoint
unfolding local_of
local_endpoints f = local_of f.endpoints
