-- ===== src/Control/Config/Parse.antt =====
-- crates/andromeda-control/src/config.rs: `NodeConfig::parse` and `load`. The reading of TOML, of a
-- file and of UTF-8 are parameters; the messages of the errors are constructors.
use light_andromeda.Prelude.{
  refl, inr, inl, ◌⊎◌, ◌≡◌, none, [], bit_or, ◌++◌, ltb, ◌∷◌, leb, ◌==◌, some, Ipv4Addr, Option,
  Bool, List, take, Bytes, ℕ, if◌then◌else◌,
}
use light_andromeda.Core.Text.{Text, text, split_once, ipv4_from_str, u8_from_str_radix}
use light_andromeda.Core.Ethernet.{MacAddr}
use light_andromeda.Core.Ethernet.Mac
use light_andromeda.Core.Overlay.{overlay_overhead}
use light_andromeda.Control.Fabric.{Endpoint}
use light_andromeda.Control.Config.{NodeConfig, VpcSpec}

-- `RawConfig`, `RawVpc` and `RawEndpoint`
pub record RawEndpoint : Type 0 where
  pub inner_ip : Text
  pub inner_mac : Text
  pub node_ip : Text
  pub local : Bool

pub record RawVpc : Type 0 where
  pub vni : ℕ
  pub cidr : Option Text
  pub endpoints : List RawEndpoint

pub record RawConfig : Type 0 where
  pub local_node : Text
  pub peer_node : Option Text
  pub vni : Option ℕ
  pub virtual_gateway_mac : Option Text
  pub virtual_gateway_ip : Option Text
  pub nat_ip : Option Text
  pub vpc_cidr : Option Text
  pub underlay_mtu : Option ℕ
  pub endpoints : List RawEndpoint
  pub vpcs : List RawVpc

-- `ConfigError`, one constructor for each message; the first two are those of the parameters.
pub data ConfigError : Type 0 where
  toml_error io_error : Text → ConfigError
  bad_field : (s field : Text) → ConfigError
  bad_cidr bad_prefix prefix_out_of_range : Text → ConfigError
  no_vni : ConfigError
  mtu_too_small : ℕ → ConfigError

-- `Result<_, ConfigError>` with its `?`.
pub data Parsed {ℓ} (A : Type ℓ) : Type ℓ where
  ok : A → Parsed A
  err : ConfigError → Parsed A

pub Parsed-cases {ℓ} :
    {A : Type ℓ} (m : Parsed A) → ((a : A) × (m ≡ ok a)) ⊎ ((e : ConfigError) × (m ≡ err e))
Parsed-cases (ok a) = inl (a, refl)
Parsed-cases (err e) = inr (e, refl)

infixl 5 ◌>>=◌
abbrev pub ◌>>=◌ {ℓ κ} : {A : Type ℓ} {B : Type κ} → Parsed A → (A → Parsed B) → Parsed B
ok a >>= f = f a
err e >>= f = err e

-- `.ok_or(e)`
abbrev pub ok_or {ℓ} : {A : Type ℓ} → Option A → ConfigError → Parsed A
ok_or (some a) e = ok a
ok_or none e = err e

-- `.map(f).transpose()`
abbrev pub transpose {ℓ κ} :
    {A : Type ℓ} {B : Type κ} → Option A → (A → Parsed B) → Parsed (Option B)
transpose none f = ok none
transpose (some a) f = f a >>= λ b. ok (some b)

abbrev pub unwrap_or {ℓ} : {A : Type ℓ} → Option A → A → A
unwrap_or (some a) d = a
unwrap_or none d = d

unfoldable pub parse_ip : Text → (field : Text) → Parsed Ipv4Addr
parse_ip s field = ok_or (ipv4_from_str s) (bad_field s field)

unfoldable pub parse_mac : Text → (field : Text) → Parsed MacAddr
parse_mac s field = ok_or (Mac.from_str s) (bad_field s field)

unfoldable pub parse_cidr : Text → Parsed (Ipv4Addr × ℕ)
parse_cidr s = ok_or (split_once (λ c. c == b'/') s) (bad_cidr s) >>= λ (net, len).
    parse_ip net (text "vpc_cidr") >>= λ ip.
    ok_or (u8_from_str_radix len 10) (bad_prefix s) >>= λ prefix.
    if ltb 32 prefix then err (prefix_out_of_range s) else ok (ip, prefix)

unfoldable pub parse_endpoint : ℕ → RawEndpoint → Parsed Endpoint
parse_endpoint vni e = parse_ip e.inner_ip (text "endpoint.inner_ip") >>= λ inner_ip.
    parse_mac e.inner_mac (text "endpoint.inner_mac") >>= λ inner_mac.
    parse_ip e.node_ip (text "endpoint.node_ip") >>= λ node_ip. ok (record {
      vni = vni;
      inner_ip = inner_ip;
      inner_mac = inner_mac;
      node_ip = node_ip;
      local = e.local;
    })

unfoldable pub parse_endpoints : List RawEndpoint → ℕ → Parsed (List Endpoint)
parse_endpoints [] vni = ok []
parse_endpoints (e ∷ es) vni =
    parse_endpoint vni e >>= λ ep. parse_endpoints es vni >>= λ eps. ok (ep ∷ eps)

-- A VPC of either form.
unfoldable pub parse_vpc : (vni : ℕ) (cidr : Option Text) → List RawEndpoint → Parsed VpcSpec
parse_vpc vni cidr es = transpose cidr parse_cidr >>= λ cidr. parse_endpoints es vni >>= λ eps.
    ok (record { vni = vni; cidr = unwrap_or cidr (0, 0); endpoints = eps })

-- The loop over `raw.vpcs`.
unfoldable pub parse_vpcs : List RawVpc → Parsed (List VpcSpec)
parse_vpcs [] = ok []
parse_vpcs (v ∷ vs) =
    parse_vpc v.vni v.cidr v.endpoints >>= λ vpc. parse_vpcs vs >>= λ vpcs. ok (vpc ∷ vpcs)

-- The first VPC and the rest, of the form that the document has.
unfoldable pub build_vpcs : RawConfig → List RawVpc → Parsed (VpcSpec × List VpcSpec)
build_vpcs raw [] =
    ok_or raw.vni no_vni >>= λ vni. parse_vpc vni raw.vpc_cidr raw.endpoints >>= λ vpc. ok (vpc, [])
build_vpcs raw (v ∷ vs) =
    parse_vpc v.vni v.cidr v.endpoints >>= λ vpc. parse_vpcs vs >>= λ vpcs. ok (vpc, vpcs)

abbrev pub default_gateway_mac : MacAddr
default_gateway_mac = record { b0 = 2; b1 = 0; b2 = 0; b3 = 0; b4 = 0; b5 = 0xff }

unfoldable pub gateway_mac : Option Text → Parsed MacAddr
gateway_mac (some s) = parse_mac s (text "virtual_gateway_mac")
gateway_mac none = ok default_gateway_mac

unfoldable pub gateway_ip : Option Text → Ipv4Addr → Parsed Ipv4Addr
gateway_ip (some s) net = parse_ip s (text "virtual_gateway_ip")
gateway_ip none net = ok (bit_or net 1)

-- `vpcs.iter().flat_map(..)`
abbrev pub all_endpoints : List VpcSpec → List Endpoint
all_endpoints [] = []
all_endpoints (v ∷ vs) = v.endpoints ++ all_endpoints vs

-- `parse`, on what TOML gives.
unfoldable pub validate : RawConfig → Parsed NodeConfig
validate raw = parse_ip raw.local_node (text "local_node") >>= λ local_node.
    transpose raw.peer_node (λ s. parse_ip s (text "peer_node")) >>= λ peer_node.
    transpose raw.nat_ip (λ s. parse_ip s (text "nat_ip")) >>= λ nat_ip.
    gateway_mac raw.virtual_gateway_mac >>= λ virtual_gateway_mac.
    build_vpcs raw raw.vpcs >>= λ (primary, others).
    gateway_ip raw.virtual_gateway_ip primary.cidr.0 >>= λ virtual_gateway_ip.
    let underlay_mtu = unwrap_or raw.underlay_mtu 1500 in
    if leb underlay_mtu overlay_overhead
    then err (mtu_too_small underlay_mtu)
    else ok (record {
      local_node = local_node;
      peer_node = peer_node;
      vni = primary.vni;
      virtual_gateway_mac = virtual_gateway_mac;
      virtual_gateway_ip = virtual_gateway_ip;
      nat_ip = nat_ip;
      vpc_cidr = primary.cidr;
      underlay_mtu = underlay_mtu;
      endpoints = all_endpoints (primary ∷ others);
      vpcs = primary ∷ others;
    })

abbrev pub max_config_bytes : ℕ
max_config_bytes = 1048576

-- `toml::from_str`; `File::open` with all that can be read of the file; the decoding of UTF-8.
pub record Reader : Type 0 where
  pub from_toml : Text → Parsed RawConfig
  pub open_file : Text → Parsed Bytes
  pub decode : Bytes → Parsed Text

unfoldable pub parse : Reader → Text → Parsed NodeConfig
parse r toml_str = r.from_toml toml_str >>= validate

-- `NodeConfig::load`: no more than `max_config_bytes` are read.
unfoldable pub load : Reader → Text → Parsed NodeConfig
load r path =
    r.open_file path >>= λ bytes. r.decode (take max_config_bytes bytes) >>= λ s. parse r s
