-- ===== src/Nat/Engine/Inv.antt =====
-- The invariant of the SNAT through `NatEngine::process`, and what it gives a reply.
use light_andromeda.Prelude.{
  ◌∙◌, ap, some, ◌≡◌, length, ltb, ◌==◌, refl, Bool-cases, sym, inr, inl, Option-cases, ℕ,
}
use mathlib.Core.Path.{subst}
use light_andromeda.Core.FiveTuple.{FiveTuple}
use light_andromeda.Nat.Ports.{alloc_port}
use light_andromeda.Nat.Ports.Scan.{InRange, alloc_port-some, alloc_port-Moves}
use light_andromeda.Nat.Engine.{
  reply_of, rewrite_dst, seen, install_snat, create_snat, outbound_snat, process_outbound,
  apply_rule, inbound_dnat, process_inbound, process, max_dnat_bindings, find_rule,
}
use light_andromeda.Nat.Engine.Tables.{
  Consistent, Consistent-seen, Consistent-replied, Consistent-created,
}
use light_andromeda.Nat.State.{NatEngine, Binding, Direction, outbound, inbound, tuple_key}
use light_andromeda.Prelude.Map.{lookup, insert}

-- The ports are of the range, and the tables agree.
pub record IsConsistent (nat : NatEngine) : Type 0 where
  pub range : InRange nat
  pub tables : Consistent nat.nat_ip nat.used_ports nat.snat_fwd nat.snat_rev

abbrev pub Tables : NatEngine → Type 0
Tables nat = Consistent nat.nat_ip nat.used_ports nat.snat_fwd nat.snat_rev

create_snat-IsConsistent :
    (nat : NatEngine) (t : FiveTuple) (now : ℕ)
    → IsConsistent nat
    → IsConsistent (create_snat nat t now).0
unfolding create_snat install_snat
create_snat-IsConsistent nat t now v = elim (Option-cases (alloc_port nat t.src_port).1) [
  | inl e ↦
      let (m, r) = alloc_port-Moves nat t.src_port v.range e in
      rw (e, create_snat)
        (record {
          range = record { low = r.low; high = r.high; word = r.word };
          tables = subst Tables (sym m) v.tables;
        })
  | inr (p, e) ↦
      let (m, r) = alloc_port-some nat t.src_port p v.range e in
      let b : Binding = record { ip = nat.nat_ip; port = p; last_seen = now } in
      let back : Binding = record { ip = t.src_ip; port = t.src_port; last_seen = now } in
      rw (e, create_snat)
        (record {
          range = record { low = r.low; high = r.high; word = r.word };
          tables =
              subst
                (λ n.
                  Consistent n.nat_ip n.used_ports
                    (insert t (record { ip = n.nat_ip; port = p; last_seen = now }) n.snat_fwd)
                    (insert (reply_of n.nat_ip t p) back n.snat_rev))
                (sym m.state)
                (Consistent-created nat.nat_ip nat.used_ports nat.snat_fwd nat.snat_rev v.tables t b
                  back m.free refl refl);
        })
]

outbound_snat-IsConsistent :
    (nat : NatEngine) (t : FiveTuple) (now : ℕ)
    → IsConsistent nat
    → IsConsistent (outbound_snat nat t now).0
unfolding outbound_snat
outbound_snat-IsConsistent nat t now v = elim (Option-cases (lookup t nat.snat_fwd)) [
  | inl e ↦ rw (e, outbound_snat) (create_snat-IsConsistent nat t now v)
  | inr (b, e) ↦
      rw (e, outbound_snat)
        (record {
          range = record { low = v.range.low; high = v.range.high; word = v.range.word };
          tables =
              Consistent-seen nat.nat_ip nat.used_ports nat.snat_fwd nat.snat_rev v.tables t b
                (seen b now) e refl;
        })
]

process_outbound-IsConsistent :
    (nat : NatEngine) (t : FiveTuple) (now : ℕ)
    → IsConsistent nat
    → IsConsistent (process_outbound nat t now).0
unfolding process_outbound
process_outbound-IsConsistent nat t now v = elim (Option-cases (lookup t nat.dnat_rev)) [
  | inl e ↦ rw (e, process_outbound) (outbound_snat-IsConsistent nat t now v)
  | inr (b, e) ↦
      rw (e, process_outbound)
        (record {
          range = record { low = v.range.low; high = v.range.high; word = v.range.word };
          tables = v.tables;
        })
]

inbound_dnat-IsConsistent :
    (nat : NatEngine) (t : FiveTuple) (now : ℕ)
    → IsConsistent nat
    → IsConsistent (inbound_dnat nat t now).0
unfolding inbound_dnat apply_rule
inbound_dnat-IsConsistent nat t now v = elim (Bool-cases (t.dst_ip == nat.nat_ip)) [
  | inr h ↦ rw (h, inbound_dnat) v
  | inl h ↦ elim (Option-cases (find_rule nat.dnat_rules t)) [
    | inl e ↦ rw (h, e, inbound_dnat) v
    | inr (rule, e) ↦ elim (Bool-cases (ltb (length nat.dnat_rev) max_dnat_bindings)) [
      | inl f ↦
          rw (h, e, f, inbound_dnat)
            (record {
              range = record { low = v.range.low; high = v.range.high; word = v.range.word };
              tables = v.tables;
            })
      | inr f ↦ rw (h, e, f, inbound_dnat) v
    ]
  ]
]

process_inbound-IsConsistent :
    (nat : NatEngine) (t : FiveTuple) (now : ℕ)
    → IsConsistent nat
    → IsConsistent (process_inbound nat t now).0
unfolding process_inbound
process_inbound-IsConsistent nat t now v = elim (Option-cases (lookup t nat.snat_rev)) [
  | inl e ↦ rw (e, process_inbound) (inbound_dnat-IsConsistent nat t now v)
  | inr (b, e) ↦
      rw (e, process_inbound)
        (record {
          range = record { low = v.range.low; high = v.range.high; word = v.range.word };
          tables =
              Consistent-replied nat.nat_ip nat.used_ports nat.snat_fwd nat.snat_rev v.tables t b
                (seen b now) e refl refl;
        })
]

-- Every call of `process` keeps the invariant: every SNAT flow holds a port of its own that is marked
-- used, and the reverse entry of that port leads back to the flow's source.
pub process-IsConsistent :
    (nat : NatEngine) (t : FiveTuple) (d : Direction) (now : ℕ)
    → IsConsistent nat
    → IsConsistent (process nat t d now).0
unfolding process
process-IsConsistent nat t outbound now v = process_outbound-IsConsistent nat t now v
process-IsConsistent nat t inbound now v = process_inbound-IsConsistent nat t now v

pub process-reply :
    (nat : NatEngine) (t : FiveTuple) (b : Binding) (now : ℕ)
    → IsConsistent nat
    → lookup t nat.snat_fwd ≡ some b
    → (process nat (reply_of nat.nat_ip t b.port) inbound now).1 ≡ rewrite_dst t.src_ip t.src_port
unfolding process process_inbound
process-reply nat t b now v h =
    let (r, e, i, p) = v.tables.back t b h in
    rw (e, process_inbound) (ap (λ x. rewrite_dst x r.port) i ∙ ap (λ x. rewrite_dst t.src_ip x) p)
