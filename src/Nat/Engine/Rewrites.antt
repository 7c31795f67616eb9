-- ===== src/Nat/Engine/Rewrites.antt =====
-- The fields of the rewrites that `process` makes of outbound packets.
use light_andromeda.Prelude.{ap, ℕ, ◌≡◌, ◌<◌, ◌^◌, some, none, arith, inl, inr, Option-cases}
use light_andromeda.Prelude.Map.{lookup, nat_eq}
use light_andromeda.Core.FiveTuple.{FiveTuple}
use light_andromeda.Nat.Apply.Sound.{IsRewrite}
use light_andromeda.Nat.Ports.{alloc_port}
use light_andromeda.Nat.Ports.Scan.{InRange, alloc_port-some}
use light_andromeda.Nat.Engine.{rewrite_src, create_snat, outbound_snat, process_outbound, process}
use light_andromeda.Nat.State.{tuple_key, NatEngine, Binding, outbound}

rewrite_src-IsRewrite : (ip port : ℕ) → ip < 2 ^ 32 → port < 65536 → IsRewrite (rewrite_src ip port)
rewrite_src-IsRewrite ip port h k = record { src_ip = h; dst_ip = tt; src_port = k; dst_port = tt }

create_snat-IsRewrite :
    (nat : NatEngine) (t : FiveTuple) (now : ℕ)
    → InRange nat
    → nat.nat_ip < 2 ^ 32
    → IsRewrite (create_snat nat t now).1
unfolding create_snat
create_snat-IsRewrite nat t now v h = elim (Option-cases (alloc_port nat t.src_port).1) [
  | inl e ↦ rw (e, create_snat) (record { src_ip = tt; dst_ip = tt; src_port = tt; dst_port = tt })
  | inr (p, e) ↦
      let (m, r) = alloc_port-some nat t.src_port p v e in
      let ip : (alloc_port nat t.src_port).0.nat_ip ≡ nat.nat_ip = ap (λ n. n.nat_ip) m.state in
      rw (e, create_snat) (rewrite_src-IsRewrite _ p (rw ip h) (omega (arith, m.high, v.word)))
]

-- An outbound packet that is no reply to a forwarded connection, where the port of a binding is a `u16`.
pub process-IsRewrite :
    (nat : NatEngine) (t : FiveTuple) (now : ℕ)
    → InRange nat
    → nat.nat_ip < 2 ^ 32
    → lookup t nat.dnat_rev ≡ none
    → ((b : Binding) → lookup t nat.snat_fwd ≡ some b → b.port < 65536)
    → IsRewrite (process nat t outbound now).1
unfolding process process_outbound outbound_snat
process-IsRewrite nat t now v h d ports = elim (Option-cases (lookup t nat.snat_fwd)) [
  | inl e ↦ rw (d, e, process_outbound, outbound_snat) (create_snat-IsRewrite nat t now v h)
  | inr (b, e) ↦
      rw (d, e, process_outbound, outbound_snat)
        (rewrite_src-IsRewrite nat.nat_ip b.port h (ports b e))
]
