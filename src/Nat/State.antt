-- ===== src/Nat/State.antt =====
-- crates/andromeda-nat/src/lib.rs: the state of the engine `NatEngine`, the rewrites that it decides on,
-- and its set-up. Counters and times are `u64`.
use light_andromeda.Nat.TimingWheel
use light_andromeda.Nat.TimingWheel.{TimingWheel, u64_mod}
use light_andromeda.Core.FiveTuple.{FiveTuple, tuple_eq}
use light_andromeda.Prelude.Map.{Eq, nat_eq}
use light_andromeda.Prelude.{
  ℕ, ◌+◌, ◌-◌, ◌%◌, ◌≡◌, ◌↔◌, min, arith, List, [], ◌∷◌, ◌++◌, Bool, true, false, ◌&&◌, Option,
  none, some, Ipv4Addr, length, leb, if◌then◌else◌,
}

pub data Direction : Type 0 where
  outbound inbound : Direction

pub record Rewrite : Type 0 where
  pub new_src_ip : Option Ipv4Addr
  pub new_dst_ip : Option Ipv4Addr
  pub new_src_port : Option ℕ
  pub new_dst_port : Option ℕ

-- `Rewrite::default()`.
abbrev pub no_rewrite : Rewrite
no_rewrite = record {
  new_src_ip = none;
  new_dst_ip = none;
  new_src_port = none;
  new_dst_port = none;
}

abbrev is_none {ℓ} : {A : Type ℓ} → Option A → Bool
is_none none = true
is_none (some a) = false

unfoldable pub is_noop : Rewrite → Bool
is_noop rw' =
    is_none rw'.new_src_ip
    && is_none rw'.new_dst_ip
    && is_none rw'.new_src_port
    && is_none rw'.new_dst_port

pub record DnatRule : Type 0 where
  pub protocol : ℕ
  pub ext_port : ℕ
  pub to_ip : Ipv4Addr
  pub to_port : ℕ

pub record Binding : Type 0 where
  pub ip : Ipv4Addr
  pub port : ℕ
  pub last_seen : ℕ

pub record NatStats : Type 0 where
  pub snat_created : ℕ
  pub snat_hits : ℕ
  pub dnat_created : ℕ
  pub dnat_hits : ℕ
  pub reversed : ℕ
  pub port_exhausted : ℕ
  pub expired : ℕ

pub tuple_eq_iff : (a b : FiveTuple) → (tuple_eq a b ≡ true) ↔ (a ≡ b)
unfolding tuple_eq
tuple_eq_iff a b = (λ h. ground arith, λ h. ground arith)

instance abbrev pub tuple_key : Eq FiveTuple
tuple_key = record { beq = tuple_eq; beq_iff = tuple_eq_iff }

abbrev pub Conntrack : Type 0
Conntrack = List (FiveTuple × Binding)

pub record NatEngine : Type 0 where
  pub nat_ip : Ipv4Addr
  pub port_min : ℕ
  pub port_max : ℕ
  pub next_port : ℕ
  pub used_ports : List ℕ
  pub dnat_rules : List DnatRule
  pub snat_fwd : Conntrack
  pub snat_rev : Conntrack
  pub dnat_rev : Conntrack
  pub wheel : TimingWheel FiveTuple
  pub idle_timeout : ℕ
  pub stats : NatStats

abbrev pub zero_stats : NatStats
zero_stats = record {
  snat_created = 0;
  snat_hits = 0;
  dnat_created = 0;
  dnat_hits = 0;
  reversed = 0;
  port_exhausted = 0;
  expired = 0;
}

-- `n += 1` on `u64`.
abbrev pub inc : ℕ → ℕ
inc n = (n + 1) % u64_mod

-- `a.saturating_add(b)` on `u64`.
abbrev pub saturating_add : ℕ → ℕ → ℕ
saturating_add a b = min (a + b) (u64_mod - 1)

-- `NatEngine::new`; the failed assertions are `none`.
unfoldable pub new : Ipv4Addr → (port_min port_max : ℕ) → Option NatEngine
new nat_ip port_min port_max = elim (TimingWheel.new {K = FiveTuple} 1000 256) [
  | none ↦ none
  | some wheel ↦
      if leb port_min port_max
      then some (record {
        nat_ip = nat_ip;
        port_min = port_min;
        port_max = port_max;
        next_port = port_min;
        used_ports = [];
        dnat_rules = [];
        snat_fwd = [];
        snat_rev = [];
        dnat_rev = [];
        wheel = wheel;
        idle_timeout = 120000;
        stats = zero_stats;
      })
      else none
]

unfoldable pub add_dnat_rule : NatEngine → DnatRule → NatEngine
add_dnat_rule nat rule = record nat { dnat_rules = nat.dnat_rules ++ rule ∷ [] }

unfoldable pub set_idle_timeout : NatEngine → ℕ → NatEngine
set_idle_timeout nat timeout = record nat { idle_timeout = timeout }

unfoldable pub active_bindings : NatEngine → ℕ
active_bindings nat = length nat.snat_fwd
