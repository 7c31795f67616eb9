-- ===== src/Nat/Engine/Held/Kept.antt =====
-- The exact invariant of the SNAT through `NatEngine::process`: it leaks neither a port nor an entry.
use light_andromeda.Prelude.{
  none, ◌≡◌, length, ltb, ◌==◌, refl, Bool-cases, sym, inr, inl, Option-cases, ℕ,
}
use mathlib.Core.Path.{subst}
use light_andromeda.Core.FiveTuple.{FiveTuple}
use light_andromeda.Nat.Ports.{alloc_port}
use light_andromeda.Nat.Ports.Scan.{alloc_port-some, alloc_port-Moves}
use light_andromeda.Nat.Engine.{
  reply_of, seen, install_snat, create_snat, outbound_snat, process_outbound, apply_rule,
  inbound_dnat, process_inbound, process, max_dnat_bindings, find_rule,
}
use light_andromeda.Nat.Engine.Inv.{IsConsistent, process-IsConsistent}
use light_andromeda.Nat.Engine.Held.{Held, Held-seen, Held-replied, Held-created}
use light_andromeda.Nat.State.{NatEngine, Binding, Direction, outbound, inbound, tuple_key}
use light_andromeda.Prelude.Map.{lookup, insert}

abbrev pub HeldBy : NatEngine → Type 0
HeldBy nat = Held nat.nat_ip nat.used_ports nat.snat_fwd nat.snat_rev

-- The invariant, with each used port and each reverse entry that of a flow.
pub record IsExact (nat : NatEngine) : Type 0 where
  pub consistent : IsConsistent nat
  pub held : HeldBy nat

create_snat-Held :
    (nat : NatEngine) (t : FiveTuple) (now : ℕ)
    → IsExact nat
    → lookup t nat.snat_fwd ≡ none
    → HeldBy (create_snat nat t now).0
unfolding create_snat install_snat
create_snat-Held nat t now v h = elim (Option-cases (alloc_port nat t.src_port).1) [
  | inl e ↦
      let (m, r) = alloc_port-Moves nat t.src_port v.consistent.range e in
      rw (e, create_snat) (subst HeldBy (sym m) v.held)
  | inr (p, e) ↦
      let (m, r) = alloc_port-some nat t.src_port p v.consistent.range e in
      let b : Binding = record { ip = nat.nat_ip; port = p; last_seen = now } in
      let back : Binding = record { ip = t.src_ip; port = t.src_port; last_seen = now } in
      rw (e, create_snat)
        (subst
          (λ n.
            Held n.nat_ip n.used_ports
              (insert t (record { ip = n.nat_ip; port = p; last_seen = now }) n.snat_fwd)
              (insert (reply_of n.nat_ip t p) back n.snat_rev))
          (sym m.state)
          (Held-created nat.nat_ip nat.used_ports nat.snat_fwd nat.snat_rev v.held t b back h))
]

process_outbound-Held :
    (nat : NatEngine) (t : FiveTuple) (now : ℕ)
    → IsExact nat
    → HeldBy (process_outbound nat t now).0
unfolding process_outbound outbound_snat
process_outbound-Held nat t now v = elim (Option-cases (lookup t nat.dnat_rev)) [
  | inr (b, e) ↦ rw (e, process_outbound) v.held
  | inl e ↦ elim (Option-cases (lookup t nat.snat_fwd)) [
    | inl f ↦ rw (e, process_outbound, f, outbound_snat) (create_snat-Held nat t now v f)
    | inr (b, f) ↦
        rw (e, process_outbound, f, outbound_snat)
          (Held-seen nat.nat_ip nat.used_ports nat.snat_fwd nat.snat_rev v.held t b (seen b now) f
            refl)
  ]
]

inbound_dnat-Held :
    (nat : NatEngine) (t : FiveTuple) (now : ℕ) → HeldBy nat → HeldBy (inbound_dnat nat t now).0
unfolding inbound_dnat apply_rule
inbound_dnat-Held nat t now v = elim (Bool-cases (t.dst_ip == nat.nat_ip)) [
  | inr h ↦ rw (h, inbound_dnat) v
  | inl h ↦ elim (Option-cases (find_rule nat.dnat_rules t)) [
    | inl e ↦ rw (h, e, inbound_dnat) v
    | inr (rule, e) ↦ elim (Bool-cases (ltb (length nat.dnat_rev) max_dnat_bindings)) [
      | inl f ↦ rw (h, e, f, inbound_dnat) v
      | inr f ↦ rw (h, e, f, inbound_dnat) v
    ]
  ]
]

process_inbound-Held :
    (nat : NatEngine) (t : FiveTuple) (now : ℕ) → HeldBy nat → HeldBy (process_inbound nat t now).0
unfolding process_inbound
process_inbound-Held nat t now v = elim (Option-cases (lookup t nat.snat_rev)) [
  | inl e ↦ rw (e, process_inbound) (inbound_dnat-Held nat t now v)
  | inr (b, e) ↦
      rw (e, process_inbound)
        (Held-replied nat.nat_ip nat.used_ports nat.snat_fwd nat.snat_rev v t b (seen b now) e)
]

-- Every call of `process` keeps the exact invariant: a port is used only while a flow holds it, and
-- every reverse entry is that of a flow.
pub process-IsExact :
    (nat : NatEngine) (t : FiveTuple) (d : Direction) (now : ℕ)
    → IsExact nat
    → IsExact (process nat t d now).0
unfolding process
process-IsExact nat t outbound now v = record {
  consistent = process-IsConsistent nat t outbound now v.consistent;
  held = process_outbound-Held nat t now v;
}
process-IsExact nat t inbound now v = record {
  consistent = process-IsConsistent nat t inbound now v.consistent;
  held = process_inbound-Held nat t now v.held;
}
