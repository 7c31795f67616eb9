-- ===== src/Control/Config/Resolve.antt =====
-- What the fabric of a configuration resolves: the endpoint declared last for a VNI and an address.
use light_andromeda.Prelude.{
  inr, inl, Bool-cases, ℕ, List, [], ◌∷◌, ◌++◌, Option, none, some, Bool, true, false, Ipv4Addr,
  String, ◌≡◌, refl, ap, sym, ◌∙◌, if◌then◌else◌,
}
use light_andromeda.Control.Fabric
use light_andromeda.Control.Fabric.{
  Fabric, Endpoint, NextHop, Vpc, next_hop, resolve, key_eq, key_beq,
}
use light_andromeda.Control.Config.{VpcSpec, NodeConfig, add_endpoints, add_vpcs, build_fabric}
use light_andromeda.Prelude.Map.{lookup-insert}

-- The next hop of the endpoint, or else `d`.
abbrev pub hop_or : Option NextHop → Option Endpoint → Option NextHop
hop_or d none = d
hop_or d (some ep) = some (next_hop ep)

abbrev choose : Option Endpoint → Bool → Endpoint → Option Endpoint
choose (some later) b ep = some later
choose none true ep = some ep
choose none false ep = none

-- The last endpoint of the list with the VNI and the address.
abbrev pub last_declared : ℕ → Ipv4Addr → List Endpoint → Option Endpoint
last_declared vni ip [] = none
last_declared vni ip (ep ∷ eps) =
    choose (last_declared vni ip eps) (key_beq (ep.vni, ep.inner_ip) (vni, ip)) ep

abbrev pub declared : List VpcSpec → List Endpoint
declared [] = []
declared (v ∷ vs) = v.endpoints ++ declared vs

hop_or-choose :
    (d : Option NextHop) (o : Option Endpoint) (b : Bool) (ep : Endpoint)
    → hop_or (if b then some (next_hop ep) else d) o ≡ hop_or d (choose o b ep)
hop_or-choose d none true ep = refl
hop_or-choose d none false ep = refl
hop_or-choose d (some later) b ep = refl

-- An endpoint answers for its own VNI and address, and for no other.
resolve-add_endpoint :
    (f : Fabric) (ep : Endpoint) (vni ip : ℕ)
    → resolve (Fabric.add_endpoint f ep) vni ip
      ≡ (if key_beq (ep.vni, ep.inner_ip) (vni, ip) then some (next_hop ep) else resolve f vni ip)
unfolding resolve Fabric.add_endpoint
resolve-add_endpoint f ep vni ip =
    let put = lookup-insert (ep.vni, ep.inner_ip) (vni, ip) ep f.endpoints in
    elim (Bool-cases (key_beq (ep.vni, ep.inner_ip) (vni, ip))) [
      | inl h ↦ rw (put, h, resolve, Fabric.add_endpoint) refl
      | inr h ↦ rw (put, h, resolve, Fabric.add_endpoint) refl
    ]

resolve-add_endpoints :
    (eps : List Endpoint) (f : Fabric) (vni ip : ℕ)
    → resolve (add_endpoints f eps) vni ip ≡ hop_or (resolve f vni ip) (last_declared vni ip eps)
unfolding add_endpoints
resolve-add_endpoints [] f vni ip = refl
resolve-add_endpoints (ep ∷ eps) f vni ip =
    resolve-add_endpoints eps (Fabric.add_endpoint f ep) vni ip
    ∙ ap (λ d. hop_or d (last_declared vni ip eps)) (resolve-add_endpoint f ep vni ip)
    ∙ hop_or-choose (resolve f vni ip) (last_declared vni ip eps)
        (key_beq (ep.vni, ep.inner_ip) (vni, ip)) ep

last_declared-append :
    (xs ys : List Endpoint) (vni ip : ℕ) (d : Option NextHop)
    → hop_or (hop_or d (last_declared vni ip xs)) (last_declared vni ip ys)
      ≡ hop_or d (last_declared vni ip (xs ++ ys))
last_declared-append [] ys vni ip d = refl
last_declared-append (x ∷ xs) ys vni ip d =
    let b = key_beq (x.vni, x.inner_ip) (vni, ip) in
    ap (λ o. hop_or o (last_declared vni ip ys))
      (sym (hop_or-choose d (last_declared vni ip xs) b x))
    ∙ last_declared-append xs ys vni ip (if b then some (next_hop x) else d)
    ∙ hop_or-choose d (last_declared vni ip (xs ++ ys)) b x

resolve-add_vpc :
    (f : Fabric) (vpc : Vpc) (vni ip : ℕ) → resolve (Fabric.add_vpc f vpc) vni ip ≡ resolve f vni ip
unfolding resolve Fabric.add_vpc
resolve-add_vpc f vpc vni ip = refl

resolve-add_vpcs :
    (name : ℕ → String) (vs : List VpcSpec) (f : Fabric) (vni ip : ℕ)
    → resolve (add_vpcs name f vs) vni ip
      ≡ hop_or (resolve f vni ip) (last_declared vni ip (declared vs))
unfolding add_vpcs
resolve-add_vpcs name [] f vni ip = refl
resolve-add_vpcs name (v ∷ vs) f vni ip =
    let vpc : Vpc = record { vni = v.vni; name = name v.vni; cidr = v.cidr } in
    let f1 = Fabric.add_vpc f vpc in
    let same : resolve f1 vni ip ≡ resolve f vni ip = resolve-add_vpc f vpc vni ip in
    resolve-add_vpcs name vs (add_endpoints f1 v.endpoints) vni ip
    ∙ ap (λ d. hop_or d (last_declared vni ip (declared vs)))
        (resolve-add_endpoints v.endpoints f1 vni ip)
    ∙ last_declared-append v.endpoints (declared vs) vni ip (resolve f1 vni ip)
    ∙ ap (λ d. hop_or d (last_declared vni ip (v.endpoints ++ declared vs))) same

-- The fabric of a configuration resolves a VNI and an address to the next hop of the endpoint declared
-- last for exactly these two, in whatever VPC, and to none if there is no such endpoint.
pub resolve-build_fabric :
    (name : ℕ → String) (nc : NodeConfig) (vni ip : ℕ)
    → resolve (build_fabric name nc) vni ip ≡ hop_or none (last_declared vni ip (declared nc.vpcs))
unfolding build_fabric Fabric.new resolve light_andromeda.Prelude.Map.lookup
resolve-build_fabric name nc vni ip =
    resolve-add_vpcs name nc.vpcs (Fabric.new nc.local_node) vni ip
