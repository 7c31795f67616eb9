-- ===== src/Nat/Gc/Inv.antt =====
-- The invariant of the SNAT through `NatEngine::gc`.
use light_andromeda.Prelude.{leb, Bool-cases, inr, ◌+◌, inl, [], Option-cases, ◌∷◌, List, ℕ}
use light_andromeda.Nat.TimingWheel
use light_andromeda.Core.FiveTuple.{FiveTuple}
use light_andromeda.Nat.Engine.Inv.{IsConsistent}
use light_andromeda.Nat.Engine.Tables.{Consistent-evicted}
use light_andromeda.Nat.Gc.{last_activity, gc_flow, gc_flows, gc}
use light_andromeda.Nat.State.{NatEngine, saturating_add, tuple_key}
use light_andromeda.Prelude.Map.{lookup}

pub gc_flow-IsConsistent :
    (nat : NatEngine) (k : FiveTuple) (now timeout : ℕ)
    → IsConsistent nat
    → IsConsistent (gc_flow nat k now timeout).0
unfolding gc_flow
gc_flow-IsConsistent nat k now timeout v = elim (Option-cases (lookup k nat.snat_fwd)) [
  | inl e ↦ rw (e, gc_flow) v
  | inr (b, e) ↦ elim (Bool-cases (leb (saturating_add (last_activity nat k b) timeout) now)) [
    | inl h ↦
        rw (e, h, gc_flow)
          (record {
            range = record { low = v.range.low; high = v.range.high; word = v.range.word };
            tables =
                Consistent-evicted nat.nat_ip nat.used_ports nat.snat_fwd nat.snat_rev v.tables k b
                  e;
          })
    | inr h ↦
        rw (e, h, gc_flow)
          (record {
            range = record { low = v.range.low; high = v.range.high; word = v.range.word };
            tables = v.tables;
          })
  ]
]

gc_flows-IsConsistent :
    (nat : NatEngine) (due : List FiveTuple) (now timeout freed : ℕ)
    → IsConsistent nat
    → IsConsistent (gc_flows nat due now timeout freed).0
unfolding gc_flows
gc_flows-IsConsistent nat [] now timeout freed v = v
gc_flows-IsConsistent nat (k ∷ due) now timeout freed v =
    gc_flows-IsConsistent (gc_flow nat k now timeout).0 due now timeout
      (freed + (gc_flow nat k now timeout).1) (gc_flow-IsConsistent nat k now timeout v)

-- `gc` keeps the invariant of the SNAT.
pub gc-IsConsistent :
    (nat : NatEngine) (now timeout : ℕ) → IsConsistent nat → IsConsistent (gc nat now timeout).0
unfolding gc
gc-IsConsistent nat now timeout v =
    let (wheel, due) = TimingWheel.advance nat.wheel now [] in
    let nat0 : NatEngine = record nat { idle_timeout = timeout; wheel = wheel } in
    let w = gc_flows-IsConsistent nat0 due now timeout 0 (record {
      range = record { low = v.range.low; high = v.range.high; word = v.range.word };
      tables = v.tables;
    }) in
    record {
      range = record { low = w.range.low; high = w.range.high; word = w.range.word };
      tables = w.tables;
    }
