-- ===== src/Nat/Gc.antt =====
-- crates/andromeda-nat/src/lib.rs: `NatEngine::gc`, the expiry of idle flows.
pub mod Inv
pub mod Live
pub mod Exact
use light_andromeda.Nat.TimingWheel
use light_andromeda.Nat.TimingWheel.{TimingWheel, u64_mod}
use light_andromeda.Core.FiveTuple.{FiveTuple}
use light_andromeda.Prelude.Map.{nat_eq, delete, lookup, remove, retain}
use light_andromeda.Prelude.{ℕ, ◌+◌, ◌-◌, ◌%◌, max, List, [], ◌∷◌, none, some, leb, if◌then◌else◌}
use light_andromeda.Nat.State.{Binding, tuple_key, NatEngine, saturating_add}
use light_andromeda.Nat.Engine.{reply_of}

-- When a flow was last seen, in either direction.
unfoldable pub last_activity : NatEngine → FiveTuple → Binding → ℕ
last_activity nat k b =
    let rev_seen : ℕ = elim (lookup (reply_of nat.nat_ip k b.port) nat.snat_rev) [
      | some rb ↦ rb.last_seen
      | none ↦ b.last_seen
    ] in
    max b.last_seen rev_seen

abbrev pub evict : NatEngine → FiveTuple → Binding → NatEngine
evict nat k b = record nat {
  snat_fwd = remove k nat.snat_fwd;
  snat_rev = remove (reply_of nat.nat_ip k b.port) nat.snat_rev;
  used_ports = delete nat.used_ports b.port;
}

-- One round of the loop of `gc`: the engine, and 1 if the flow was evicted.
unfoldable pub gc_flow : NatEngine → FiveTuple → (now timeout : ℕ) → NatEngine × ℕ
unfolding last_activity
gc_flow nat k now timeout = elim (lookup k nat.snat_fwd) [
  | none ↦ (nat, 0)
  | some b ↦
      let eff_last = last_activity nat k b in
      let deadline = saturating_add eff_last timeout in
      if leb deadline now
      then (evict nat k b, 1)
      else (record nat { wheel = TimingWheel.insert nat.wheel k deadline }, 0)
]

unfoldable pub gc_flows : NatEngine → List FiveTuple → (now timeout freed : ℕ) → NatEngine × ℕ
unfolding gc_flow
gc_flows nat [] now timeout freed = (nat, freed)
gc_flows nat (k ∷ due) now timeout freed =
    let (nat1, n) = gc_flow nat k now timeout in gc_flows nat1 due now timeout (freed + n)

unfoldable pub gc : NatEngine → (now timeout : ℕ) → NatEngine × ℕ
unfolding gc_flows
gc nat now timeout =
    let (wheel, due) = TimingWheel.advance nat.wheel now [] in
    let (nat1, freed) =
      gc_flows (record nat { idle_timeout = timeout; wheel = wheel }) due now timeout 0 in
    let cutoff = now - timeout in
    (
      record nat1 {
        dnat_rev = retain (λ b. leb cutoff b.last_seen) nat1.dnat_rev;
        stats = record nat1.stats { expired = (nat1.stats.expired + freed) % u64_mod };
      },
      freed,
    )
