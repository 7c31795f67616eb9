-- ===== src/Nat/Engine.antt =====
-- crates/andromeda-nat/src/lib.rs: `NatEngine::process`. A method takes the engine and returns the one
-- that it leaves beside its result.
pub mod Tables
pub mod Inv
pub mod RoundTrip
pub mod Rewrites
pub mod Held
use light_andromeda.Nat.TimingWheel
use light_andromeda.Nat.TimingWheel.{TimingWheel, u64_mod}
use light_andromeda.Core.FiveTuple.{FiveTuple}
use light_andromeda.Prelude.Map.{nat_eq, lookup, insert}
use light_andromeda.Prelude.{
  ℕ, List, [], ◌∷◌, ◌&&◌, Option, none, some, Ipv4Addr, length, ltb, ◌==◌, if◌then◌else◌,
}
use light_andromeda.Nat.State.{
  Direction, outbound, inbound, Rewrite, no_rewrite, DnatRule, Binding, tuple_key, NatEngine, inc,
  saturating_add,
}
use light_andromeda.Nat.Ports.{alloc_port}

-- The reply that an outbound flow on `nat_port` gets back.
abbrev pub reply_of : Ipv4Addr → FiveTuple → ℕ → FiveTuple
reply_of nat_ip tuple nat_port = record {
  src_ip = tuple.dst_ip;
  dst_ip = nat_ip;
  protocol = tuple.protocol;
  src_port = tuple.dst_port;
  dst_port = nat_port;
}

abbrev pub rewrite_src : Ipv4Addr → ℕ → Rewrite
rewrite_src ip port = record no_rewrite { new_src_ip = some ip; new_src_port = some port }

abbrev pub rewrite_dst : Ipv4Addr → ℕ → Rewrite
rewrite_dst ip port = record no_rewrite { new_dst_ip = some ip; new_dst_port = some port }

abbrev pub seen : Binding → ℕ → Binding
seen b now = record b { last_seen = now }

-- The conntrack that step 3 of `process_outbound` installs for a new flow.
unfoldable pub install_snat : NatEngine → FiveTuple → ℕ → ℕ → NatEngine
install_snat nat tuple nat_port now = record nat {
  snat_fwd =
      insert tuple (record { ip = nat.nat_ip; port = nat_port; last_seen = now }) nat.snat_fwd;
  snat_rev =
      insert (reply_of nat.nat_ip tuple nat_port)
        (record { ip = tuple.src_ip; port = tuple.src_port; last_seen = now }) nat.snat_rev;
  wheel = TimingWheel.insert nat.wheel tuple (saturating_add now nat.idle_timeout);
  stats = record nat.stats { snat_created = inc nat.stats.snat_created };
}

-- Step 3 of `process_outbound`: a new flow.
unfoldable pub create_snat : NatEngine → FiveTuple → ℕ → NatEngine × Rewrite
unfolding install_snat
create_snat nat tuple now =
    let (nat1, port) = alloc_port nat tuple.src_port in
    elim port [
      | none ↦ (
        record nat1 {
          stats = record nat1.stats { port_exhausted = inc nat1.stats.port_exhausted };
        },
        no_rewrite,
      )
      | some nat_port ↦ (install_snat nat1 tuple nat_port now, rewrite_src nat1.nat_ip nat_port)
    ]

-- Step 2: an existing SNAT binding, or else a new one.
unfoldable pub outbound_snat : NatEngine → FiveTuple → ℕ → NatEngine × Rewrite
unfolding create_snat
outbound_snat nat tuple now = elim (lookup tuple nat.snat_fwd) [
  | some b ↦ (
    record nat {
      snat_fwd = insert tuple (seen b now) nat.snat_fwd;
      stats = record nat.stats { snat_hits = inc nat.stats.snat_hits };
    },
    rewrite_src nat.nat_ip b.port,
  )
  | none ↦ create_snat nat tuple now
]

unfoldable pub process_outbound : NatEngine → FiveTuple → ℕ → NatEngine × Rewrite
unfolding outbound_snat
process_outbound nat tuple now = elim (lookup tuple nat.dnat_rev) [
  | some b ↦ (
    record nat {
      dnat_rev = insert tuple (seen b now) nat.dnat_rev;
      stats = record nat.stats { reversed = inc nat.stats.reversed };
    },
    rewrite_src b.ip b.port,
  )
  | none ↦ outbound_snat nat tuple now
]

unfoldable pub find_rule : List DnatRule → FiveTuple → Option DnatRule
find_rule [] tuple = none
find_rule (r ∷ rs) tuple =
    if r.protocol == tuple.protocol && r.ext_port == tuple.dst_port
    then some r
    else find_rule rs tuple

abbrev pub max_dnat_bindings : ℕ
max_dnat_bindings = 65536

-- Step 2 of `process_inbound`, for the rule found: the reverse table is capped.
unfoldable pub apply_rule : NatEngine → DnatRule → FiveTuple → ℕ → NatEngine × Rewrite
apply_rule nat rule tuple now =
    let server_reply : FiveTuple = record {
      src_ip = rule.to_ip;
      dst_ip = tuple.src_ip;
      protocol = tuple.protocol;
      src_port = rule.to_port;
      dst_port = tuple.src_port;
    } in
    let binding : Binding = record { ip = nat.nat_ip; port = rule.ext_port; last_seen = now } in
    let tracked : NatEngine = record nat {
      dnat_rev = insert server_reply binding nat.dnat_rev;
      stats = record nat.stats { dnat_created = inc nat.stats.dnat_created };
    } in
    (
      if ltb (length nat.dnat_rev) max_dnat_bindings then tracked else nat,
      rewrite_dst rule.to_ip rule.to_port,
    )

unfoldable pub inbound_dnat : NatEngine → FiveTuple → ℕ → NatEngine × Rewrite
unfolding apply_rule
inbound_dnat nat tuple now =
    if tuple.dst_ip == nat.nat_ip
    then (elim (find_rule nat.dnat_rules tuple) [
      | some rule ↦ apply_rule nat rule tuple now
      | none ↦ (nat, no_rewrite)
    ])
    else (nat, no_rewrite)

unfoldable pub process_inbound : NatEngine → FiveTuple → ℕ → NatEngine × Rewrite
unfolding inbound_dnat
process_inbound nat tuple now = elim (lookup tuple nat.snat_rev) [
  | some b ↦ (
    record nat {
      snat_rev = insert tuple (seen b now) nat.snat_rev;
      stats = record nat.stats { reversed = inc nat.stats.reversed };
    },
    rewrite_dst b.ip b.port,
  )
  | none ↦ inbound_dnat nat tuple now
]

unfoldable pub process : NatEngine → FiveTuple → Direction → ℕ → NatEngine × Rewrite
unfolding process_outbound process_inbound
process nat tuple outbound now = process_outbound nat tuple now
process nat tuple inbound now = process_inbound nat tuple now
