-- ===== src/Control/Config/Served.antt =====
-- A VNI that no VPC of the configuration has.
use light_andromeda.Prelude.{
  [], arith, ap, ◌∙◌, ◌++◌, ◌∷◌, none, ◌==◌, String, false, List, ℕ, ◌≡◌, refl, All,
}
use light_andromeda.Control.Fabric.{Endpoint, key_beq, resolve}
use light_andromeda.Control.Config.{NodeConfig, VpcSpec, vnis_of, served_vnis, build_fabric}
use light_andromeda.Control.Config.Valid.{IsValid, IsSpec}
use light_andromeda.Control.Config.Resolve.{last_declared, declared, hop_or, resolve-build_fabric}
use light_andromeda.Prelude.Map.{contains, nat_eq}

last_declared-absent :
    (eps : List Endpoint) (own vni ip : ℕ)
    → All (λ ep. ep.vni ≡ own) eps
    → (own == vni) ≡ false
    → (later : List Endpoint) → last_declared vni ip later ≡ none
    → last_declared vni ip (eps ++ later) ≡ none
last_declared-absent [] own vni ip u ne later h = h
last_declared-absent (ep ∷ eps) own vni ip (o, os) ne later h =
    let other : key_beq (ep.vni, ep.inner_ip) (vni, ip) ≡ false = ground (arith, o, ne) in
    let rest = last_declared-absent eps own vni ip os ne later h in rw (rest, other) refl

last_declared-unserved :
    (vs : List VpcSpec) (vni ip : ℕ)
    → All IsSpec vs
    → contains (vnis_of vs) vni ≡ false
    → last_declared vni ip (declared vs) ≡ none
unfolding vnis_of contains
last_declared-unserved [] vni ip s h = refl
last_declared-unserved (v ∷ vs) vni ip (s, ss) h =
    let ne : (v.vni == vni) ≡ false = ground (arith, h) in
    let more : contains (vnis_of vs) vni ≡ false = ground (arith, h) in
    last_declared-absent v.endpoints v.vni vni ip s.own ne (declared vs)
      (last_declared-unserved vs vni ip ss more)

-- The fabric of a valid configuration resolves nothing in a VNI that the node does not serve.
pub resolve-unserved :
    (name : ℕ → String) (nc : NodeConfig) (vni ip : ℕ)
    → IsValid nc
    → contains (served_vnis nc) vni ≡ false
    → resolve (build_fabric name nc) vni ip ≡ none
unfolding served_vnis
resolve-unserved name nc vni ip v h =
    resolve-build_fabric name nc vni ip
    ∙ ap (hop_or none) (last_declared-unserved nc.vpcs vni ip v.specs h)
