-- ===== src/Nat/Gc/Exact.antt =====
-- The exact invariant of the SNAT through `NatEngine::gc`: a flow that is evicted leaves neither its
-- port nor its reverse entry behind.
use light_andromeda.Prelude.{leb, Bool-cases, inr, ◌+◌, inl, [], Option-cases, ◌∷◌, List, ℕ}
use light_andromeda.Nat.TimingWheel
use light_andromeda.Core.FiveTuple.{FiveTuple}
use light_andromeda.Nat.Engine.Held.{Held-evicted}
use light_andromeda.Nat.Engine.Held.Kept.{HeldBy, IsExact}
use light_andromeda.Nat.Gc.{last_activity, gc_flow, gc_flows, gc}
use light_andromeda.Nat.Gc.Inv.{gc-IsConsistent}
use light_andromeda.Nat.State.{NatEngine, saturating_add, tuple_key}
use light_andromeda.Prelude.Map.{lookup}

gc_flow-Held :
    (nat : NatEngine) (k : FiveTuple) (now timeout : ℕ)
    → HeldBy nat
    → HeldBy (gc_flow nat k now timeout).0
unfolding gc_flow
gc_flow-Held nat k now timeout v = elim (Option-cases (lookup k nat.snat_fwd)) [
  | inl e ↦ rw (e, gc_flow) v
  | inr (b, e) ↦ elim (Bool-cases (leb (saturating_add (last_activity nat k b) timeout) now)) [
    | inl h ↦
        rw (e, h, gc_flow)
          (Held-evicted nat.nat_ip nat.used_ports nat.snat_fwd nat.snat_rev v k b e)
    | inr h ↦ rw (e, h, gc_flow) v
  ]
]

gc_flows-Held :
    (nat : NatEngine) (due : List FiveTuple) (now timeout freed : ℕ)
    → HeldBy nat
    → HeldBy (gc_flows nat due now timeout freed).0
unfolding gc_flows
gc_flows-Held nat [] now timeout freed v = v
gc_flows-Held nat (k ∷ due) now timeout freed v =
    gc_flows-Held (gc_flow nat k now timeout).0 due now timeout
      (freed + (gc_flow nat k now timeout).1) (gc_flow-Held nat k now timeout v)

-- `gc` keeps the exact invariant: after it, too, every flow has its port and its reverse entry, and every
-- port that is used and every reverse entry is that of a flow. So a flow that is evicted takes both along.
pub gc-IsExact : (nat : NatEngine) (now timeout : ℕ) → IsExact nat → IsExact (gc nat now timeout).0
unfolding gc
gc-IsExact nat now timeout v =
    let (wheel, due) = TimingWheel.advance nat.wheel now [] in
    let nat0 : NatEngine = record nat { idle_timeout = timeout; wheel = wheel } in
    record {
      consistent = gc-IsConsistent nat now timeout v.consistent;
      held = gc_flows-Held nat0 due now timeout 0 v.held;
    }
