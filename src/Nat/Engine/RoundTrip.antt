-- ===== src/Nat/Engine/RoundTrip.antt =====
-- An outbound packet and the reply to it.
use light_andromeda.Prelude.{
  refl, ◌∙◌, sym, some, ap, inr, ◌⊎◌, true, inl, ◌≤◌, Option-cases, none, ℕ, ◌≡◌,
}
use light_andromeda.Prelude.Map.{nat_eq, lookup, contains, lookup-insert_self}
use light_andromeda.Core.FiveTuple.{FiveTuple}
use light_andromeda.Nat.Ports.{alloc_port}
use light_andromeda.Nat.Ports.Scan.{alloc_port-some, alloc_port-none_iff}
use light_andromeda.Nat.Engine.{
  reply_of, rewrite_src, rewrite_dst, seen, install_snat, create_snat, outbound_snat,
  process_outbound, process,
}
use light_andromeda.Nat.Engine.Inv.{IsConsistent, process-IsConsistent, process-reply}
use light_andromeda.Nat.State.{
  NatEngine, Binding, Rewrite, no_rewrite, outbound, inbound, tuple_key,
}

-- The engine and the rewrite that an outbound packet of the flow `t` leaves: a binding on the port of
-- the rewrite, or no rewrite since every port is used.
abbrev Bound : NatEngine → FiveTuple → NatEngine × Rewrite → Type 0
Bound nat t (nat', rw') =
    ((rw' ≡ no_rewrite)
      × ((q : ℕ) → nat.port_min ≤ q → q ≤ nat.port_max → contains nat.used_ports q ≡ true))
    ⊎ ((b : Binding) × (rw' ≡ rewrite_src nat.nat_ip b.port)
        × (lookup t nat'.snat_fwd ≡ some b)
        × (nat'.nat_ip ≡ nat.nat_ip))

create_snat-Bound :
    (nat : NatEngine) (t : FiveTuple) (now : ℕ)
    → IsConsistent nat
    → Bound nat t (create_snat nat t now)
unfolding create_snat install_snat
create_snat-Bound nat t now v = elim (Option-cases (alloc_port nat t.src_port).1) [
  | inl e ↦ rw (e, create_snat) (inl (refl, (alloc_port-none_iff nat t.src_port v.range).0 e))
  | inr (p, e) ↦
      let nat1 = (alloc_port nat t.src_port).0 in
      let (m, r) = alloc_port-some nat t.src_port p v.range e in
      let ip : nat1.nat_ip ≡ nat.nat_ip = ap (λ n. n.nat_ip) m.state in
      let b : Binding = record { ip = nat1.nat_ip; port = p; last_seen = now } in
      rw (e, create_snat)
        (inr (b, ap (λ x. rewrite_src x p) ip, lookup-insert_self t b nat1.snat_fwd, ip))
]

process-Bound :
    (nat : NatEngine) (t : FiveTuple) (now : ℕ)
    → IsConsistent nat
    → lookup t nat.dnat_rev ≡ none
    → Bound nat t (process nat t outbound now)
unfolding process process_outbound outbound_snat
process-Bound nat t now v d = elim (Option-cases (lookup t nat.snat_fwd)) [
  | inl e ↦ rw (d, e, process_outbound, outbound_snat) (create_snat-Bound nat t now v)
  | inr (b, e) ↦
      rw (d, e, process_outbound, outbound_snat)
        (inr (seen b now, refl, lookup-insert_self t (seen b now) nat.snat_fwd, refl))
]

-- In an engine with the invariant, an outbound packet that is no reply to a forwarded connection is
-- either left as it is, and then every port of the range is used, or its source becomes the NAT's
-- address and a port, and any reply to that address and port is rewritten to the packet's own source.
pub process-round_trip :
    (nat : NatEngine) (t : FiveTuple) (now later : ℕ)
    → IsConsistent nat
    → lookup t nat.dnat_rev ≡ none
    → let (nat', rw') = process nat t outbound now in
      ((rw' ≡ no_rewrite)
        × ((q : ℕ) → nat.port_min ≤ q → q ≤ nat.port_max → contains nat.used_ports q ≡ true))
      ⊎ ((p : ℕ) × (rw' ≡ rewrite_src nat.nat_ip p)
          × ((process nat' (reply_of nat.nat_ip t p) inbound later).1
              ≡ rewrite_dst t.src_ip t.src_port))
process-round_trip nat t now later v d =
    let nat' = (process nat t outbound now).0 in
    elim (process-Bound nat t now v d) [
      | inl full ↦ inl full
      | inr (b, e, h, ip) ↦
          let w = process-IsConsistent nat t outbound now v in
          inr (
            b.port,
            e,
            ap (λ x. (process nat' (reply_of x t b.port) inbound later).1) (sym ip)
                ∙ process-reply nat' t b later w h,
          )
    ]
