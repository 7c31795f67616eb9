-- ===== src/Control/Config/Valid.antt =====
-- What a configuration that is accepted satisfies.
use light_andromeda.Prelude.{
  none, Ipv4Addr, leb, some, take, [], ℕ, Option, arith, ◌==◌, inr, inl, ltb, Bool-cases, ◌∷◌, List,
  ◌<◌, ◌≤◌, All, ◌≡◌, refl,
}
use light_andromeda.Core.Overlay.{overlay_overhead}
use mathlib.Core.Path.{subst}
use light_andromeda.Control.Config.Parse.{
  gateway_ip, max_config_bytes, gateway_mac, transpose, parse_mac, no_vni, RawConfig, RawEndpoint,
  parse, unwrap_or, RawVpc, validate, parse_endpoint, parse_endpoints, parse_vpc, parse_vpcs,
  Reader, build_vpcs, load, bad_prefix, bad_cidr, Parsed, ok, err, parse_ip, parse_cidr,
  all_endpoints, ok_or, ◌>>=◌,
}
use light_andromeda.Core.Text.{u8_from_str_radix, text, split_once, Text}
use light_andromeda.Control.Config.{NodeConfig, VpcSpec}

-- The endpoints of a VPC bear its VNI, and its prefix has at most 32 bits.
pub record IsSpec (v : VpcSpec) : Type 0 where
  pub prefix : v.cidr.1 ≤ 32
  pub own : All (λ ep. ep.vni ≡ v.vni) v.endpoints

pub record IsValid (nc : NodeConfig) : Type 0 where
  pub mtu : 50 < nc.underlay_mtu
  pub first :
      (v : VpcSpec) × (rest : List VpcSpec) × (nc.vpcs ≡ v ∷ rest)
      × (nc.vni ≡ v.vni)
      × (nc.vpc_cidr ≡ v.cidr)
  pub specs : All IsSpec nc.vpcs
  pub endpoints : nc.endpoints ≡ all_endpoints nc.vpcs

-- What is accepted satisfies `P`.
abbrev pub Accepts {ℓ κ} : {A : Type ℓ} → (A → Type κ) → Parsed A → Type κ
Accepts P (ok a) = P a
Accepts P (err e) = Unit

Accepts-bind {ℓ κ μ} :
    {A : Type ℓ} {B : Type κ} (P : B → Type μ) (m : Parsed A) (f : A → Parsed B)
    → ((a : A) → m ≡ ok a → Accepts P (f a))
    → Accepts P (m >>= f)
Accepts-bind P (ok a) f h = h a refl
Accepts-bind P (err e) f h = tt

accepted {ℓ κ} : {A : Type ℓ} (P : A → Type κ) {m : Parsed A} {a : A} → Accepts P m → m ≡ ok a → P a
accepted P h e = subst (Accepts P) e h

parse_cidr-prefix : (s : Text) → Accepts (λ c. c.1 ≤ 32) (parse_cidr s)
unfolding parse_cidr
parse_cidr-prefix s = Accepts-bind _ (ok_or (split_once (λ c. c == b'/') s) (bad_cidr s)) _ (λ p h.
    Accepts-bind _ (parse_ip p.0 (text "vpc_cidr")) _ (λ ip h1.
      Accepts-bind _ (ok_or (u8_from_str_radix p.1 10) (bad_prefix s)) _ (λ prefix h2.
        elim (Bool-cases (ltb 32 prefix)) [
          | inl big ↦ rw big tt
          | inr small ↦ rw small (ground (arith, small))
        ])))

parse_endpoint-own :
    (vni : ℕ) (e : RawEndpoint) → Accepts (λ ep. ep.vni ≡ vni) (parse_endpoint vni e)
unfolding parse_endpoint
parse_endpoint-own vni e =
    Accepts-bind _ (parse_ip e.inner_ip (text "endpoint.inner_ip")) _ (λ inner_ip h.
      Accepts-bind _ (parse_mac e.inner_mac (text "endpoint.inner_mac")) _ (λ inner_mac h1.
        Accepts-bind _ (parse_ip e.node_ip (text "endpoint.node_ip")) _ (λ node_ip h2. refl)))

abbrev HasPrefix : Option (Ipv4Addr × ℕ) → Type 0
HasPrefix c = (unwrap_or {A = Ipv4Addr × ℕ} c (0, 0)).1 ≤ 32

unwrap_or-prefix : (cidr : Option Text) → Accepts HasPrefix (transpose cidr parse_cidr)
unwrap_or-prefix none = omega arith
unwrap_or-prefix (some s) =
    Accepts-bind _ (parse_cidr s) _ (λ c h. accepted _ (parse_cidr-prefix s) h)

parse_endpoints-own :
    (es : List RawEndpoint) (vni : ℕ)
    → Accepts (λ eps. All (λ ep. ep.vni ≡ vni) eps) (parse_endpoints es vni)
unfolding parse_endpoints
parse_endpoints-own [] vni = tt
parse_endpoints-own (e ∷ es) vni = Accepts-bind _ (parse_endpoint vni e) _ (λ ep h.
    Accepts-bind _ (parse_endpoints es vni) _ (λ eps h1.
      (accepted _ (parse_endpoint-own vni e) h, accepted _ (parse_endpoints-own es vni) h1)))

parse_vpc-IsSpec :
    (vni : ℕ) (cidr : Option Text) (es : List RawEndpoint) → Accepts IsSpec (parse_vpc vni cidr es)
unfolding parse_vpc
parse_vpc-IsSpec vni cidr es = Accepts-bind _ (transpose cidr parse_cidr) _ (λ c h.
    Accepts-bind _ (parse_endpoints es vni) _ (λ eps h1. record {
      prefix = accepted _ (unwrap_or-prefix cidr) h;
      own = accepted _ (parse_endpoints-own es vni) h1;
    }))

parse_vpcs-specs : (vs : List RawVpc) → Accepts (All IsSpec) (parse_vpcs vs)
unfolding parse_vpcs
parse_vpcs-specs [] = tt
parse_vpcs-specs (v ∷ vs) = Accepts-bind _ (parse_vpc v.vni v.cidr v.endpoints) _ (λ vpc h.
    Accepts-bind _ (parse_vpcs vs) _ (λ vpcs h1. (
      accepted _ (parse_vpc-IsSpec v.vni v.cidr v.endpoints) h,
      accepted _ (parse_vpcs-specs vs) h1,
    )))

build_vpcs-specs :
    (raw : RawConfig) (vs : List RawVpc)
    → Accepts (λ (p, others). All IsSpec (p ∷ others)) (build_vpcs raw vs)
unfolding build_vpcs
build_vpcs-specs raw [] = Accepts-bind _ (ok_or raw.vni no_vni) _ (λ vni h.
    Accepts-bind _ (parse_vpc vni raw.vpc_cidr raw.endpoints) _
      (λ vpc h1. (accepted _ (parse_vpc-IsSpec vni raw.vpc_cidr raw.endpoints) h1, tt)))
build_vpcs-specs raw (v ∷ vs) = Accepts-bind _ (parse_vpc v.vni v.cidr v.endpoints) _ (λ vpc h.
    Accepts-bind _ (parse_vpcs vs) _ (λ vpcs h1. (
      accepted _ (parse_vpc-IsSpec v.vni v.cidr v.endpoints) h,
      accepted _ (parse_vpcs-specs vs) h1,
    )))

validate-IsValid : (raw : RawConfig) → Accepts IsValid (validate raw)
unfolding validate
validate-IsValid raw =
    Accepts-bind _ (parse_ip raw.local_node (text "local_node")) _ (λ local_node h1.
      Accepts-bind _ (transpose raw.peer_node (λ s. parse_ip s (text "peer_node"))) _
        (λ peer_node h2.
          Accepts-bind _ (transpose raw.nat_ip (λ s. parse_ip s (text "nat_ip"))) _ (λ nat_ip h3.
            Accepts-bind _ (gateway_mac raw.virtual_gateway_mac) _ (λ mac h4.
              Accepts-bind _ (build_vpcs raw raw.vpcs) _ (λ (primary, others) h5.
                Accepts-bind _ (gateway_ip raw.virtual_gateway_ip primary.cidr.0) _ (λ gw h6.
                  elim (Bool-cases (leb (unwrap_or raw.underlay_mtu 1500) overlay_overhead)) [
                    | inl small ↦ rw small tt
                    | inr large ↦ rw large (record {
                      mtu = ground (arith, large);
                      first = (primary, others, refl, refl, refl);
                      specs = accepted _ (build_vpcs-specs raw raw.vpcs) h5;
                      endpoints = refl;
                    })
                  ]))))))

load-Accepts : (r : Reader) (path : Text) → Accepts IsValid (load r path)
unfolding load parse
load-Accepts r path = Accepts-bind _ (r.open_file path) _ (λ bytes h.
    Accepts-bind _ (r.decode (take max_config_bytes bytes)) _
      (λ s h1. Accepts-bind _ (r.from_toml s) _ (λ raw h2. validate-IsValid raw)))

-- A file that is accepted, whatever the readers of files and TOML do, gives a valid configuration: the MTU exceeds the overhead of
-- the overlay, there is a first VPC, whose VNI and CIDR are the node's, each VPC has a prefix of at
-- most 32 bits and endpoints of its own VNI only, and the node's endpoints are those of its VPCs.
pub load-IsValid : (r : Reader) (path : Text) (nc : NodeConfig) → load r path ≡ ok nc → IsValid nc
load-IsValid r path nc = accepted _ (load-Accepts r path)
