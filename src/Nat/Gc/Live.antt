-- ===== src/Nat/Gc/Live.antt =====
-- The flows that `NatEngine::gc` keeps.
use light_andromeda.Prelude.{
  ◌≢◌, arith, true, ap, ◌∙◌, sym, leb, Bool-cases, inr, inl, some, ◌+◌, Option-cases, ◌<◌, ℕ, ◌≡◌,
  refl, List, [], ◌∷◌,
}
use light_andromeda.Core.FiveTuple.{FiveTuple}
use light_andromeda.Nat.Engine.{reply_of}
use light_andromeda.Nat.Engine.Inv.{IsConsistent}
use light_andromeda.Nat.Engine.Tables.{some_inj}
use light_andromeda.Nat.Gc.{last_activity, gc_flow, gc_flows, gc}
use light_andromeda.Nat.Gc.Inv.{gc_flow-IsConsistent}
use light_andromeda.Nat.State.{NatEngine, Binding, saturating_add, tuple_key}
use light_andromeda.Nat.TimingWheel
use light_andromeda.Prelude.Map.{lookup, key-eq_or_ne, lookup-remove_ne}

-- The flow `t` has its binding and its reverse entry as in the engine `old`.
pub record IsKept (old nat : NatEngine) (t : FiveTuple) (b : Binding) : Type 0 where
  pub ip : nat.nat_ip ≡ old.nat_ip
  pub fwd : lookup t nat.snat_fwd ≡ some b
  pub rev :
      lookup (reply_of old.nat_ip t b.port) nat.snat_rev
      ≡ lookup (reply_of old.nat_ip t b.port) old.snat_rev

-- The flow was last seen, in either direction, less than the timeout ago.
abbrev pub IsActive : NatEngine → FiveTuple → Binding → (now timeout : ℕ) → Type 0
IsActive nat t b now timeout = now < saturating_add (last_activity nat t b) timeout

last_activity-eq :
    (old nat : NatEngine) (t : FiveTuple) (b : Binding)
    → IsKept old nat t b
    → last_activity nat t b ≡ last_activity old t b
unfolding last_activity
last_activity-eq old nat t b v = rw (v.ip, v.rev) refl

gc_flow-IsKept :
    (old nat : NatEngine) (t k : FiveTuple) (b : Binding) (now timeout : ℕ)
    → IsConsistent nat
    → IsActive old t b now timeout
    → IsKept old nat t b
    → IsKept old (gc_flow nat k now timeout).0 t b
unfolding gc_flow
gc_flow-IsKept old nat t k b now timeout s active v = elim (Option-cases (lookup k nat.snat_fwd)) [
  | inl e ↦ rw (e, gc_flow) v
  | inr (c, e) ↦ elim (Bool-cases (leb (saturating_add (last_activity nat k c) timeout) now)) [
    | inr h ↦ rw (e, h, gc_flow) (record { ip = v.ip; fwd = v.fwd; rev = v.rev })
    | inl h ↦ elim (key-eq_or_ne k t) [
      | inl same ↦
          let own : c ≡ b = some_inj c b (sym e ∙ ap (λ x. lookup x nat.snat_fwd) same ∙ v.fwd) in
          let last : last_activity nat k c ≡ last_activity old t b =
            ap (λ x. last_activity nat x c) same
            ∙ ap (λ x. last_activity nat t x) own
            ∙ last_activity-eq old nat t b v in
          let idle : leb (saturating_add (last_activity old t b) timeout) now ≡ true =
            ap (λ n. leb (saturating_add n timeout) now) (sym last) ∙ h in
          absurd (ground (arith, idle, active))
      | inr other ↦
          let apart : reply_of nat.nat_ip k c.port ≢ reply_of old.nat_ip t b.port =
            λ q. other (s.tables.unique k t c b e v.fwd (ap (λ r. r.dst_port) q)) in
          rw (e, h, gc_flow)
            (record {
              ip = v.ip;
              fwd = lookup-remove_ne k t nat.snat_fwd other ∙ v.fwd;
              rev = lookup-remove_ne _ _ nat.snat_rev apart ∙ v.rev;
            })
    ]
  ]
]

gc_flows-IsKept :
    (old nat : NatEngine) (due : List FiveTuple) (t : FiveTuple) (b : Binding)
    (now timeout freed : ℕ)
    → IsConsistent nat
    → IsActive old t b now timeout
    → IsKept old nat t b
    → IsKept old (gc_flows nat due now timeout freed).0 t b
unfolding gc_flows
gc_flows-IsKept old nat [] t b now timeout freed s active v = v
gc_flows-IsKept old nat (k ∷ due) t b now timeout freed s active v =
    gc_flows-IsKept old (gc_flow nat k now timeout).0 due t b now timeout
      (freed + (gc_flow nat k now timeout).1) (gc_flow-IsConsistent nat k now timeout s) active
      (gc_flow-IsKept old nat t k b now timeout s active v)

-- In an engine with the invariant, `gc` keeps every flow that was seen in either direction less than
-- the timeout ago, with its binding and its reverse entry, whatever the wheel delivers.
pub gc-IsKept :
    (nat : NatEngine) (t : FiveTuple) (b : Binding) (now timeout : ℕ)
    → IsConsistent nat
    → lookup t nat.snat_fwd ≡ some b
    → IsActive nat t b now timeout
    → IsKept nat (gc nat now timeout).0 t b
unfolding gc
gc-IsKept nat t b now timeout v e active =
    let (wheel, due) = TimingWheel.advance nat.wheel now [] in
    let nat0 : NatEngine = record nat { idle_timeout = timeout; wheel = wheel } in
    let w : IsConsistent nat0 = record {
      range = record { low = v.range.low; high = v.range.high; word = v.range.word };
      tables = v.tables;
    } in
    let k =
      gc_flows-IsKept nat nat0 due t b now timeout 0 w active
        (record { ip = refl; fwd = e; rev = refl }) in
    record { ip = k.ip; fwd = k.fwd; rev = k.rev }
