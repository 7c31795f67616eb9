-- ===== src/Nat/Ports/Scan.antt =====
-- What `NatEngine::alloc_port` finds: a free port of the range, whenever there is one.
use light_andromeda.Prelude.{
  not, ◌&&◌, leb, Bool, ◌≢◌, ◌∙◌, ap, sym, inr, inl, ◌⊎◌, refl, ℕ, zero, suc, ◌+◌, ◌-◌, ◌≤◌, ◌<◌,
  ◌≡◌, ◌↔◌, ◌∷◌, some, none, true, false, arith, Bool-cases, ◌%◌,
}
use light_andromeda.Nat.Ports.{bump_port, scan_ports, alloc_port}
use light_andromeda.Nat.State.{NatEngine}
use light_andromeda.Prelude.Map.{contains, nat_eq}

-- `next_port` is a port of the range.
pub record InRange (nat : NatEngine) : Type 0 where
  pub low : nat.port_min ≤ nat.next_port
  pub high : nat.next_port ≤ nat.port_max
  pub word : nat.port_max < 65536

-- `p` is a port of the range that was free and is taken now, and all else but `next_port` stays.
pub record Takes (nat nat' : NatEngine) (p : ℕ) : Type 0 where
  pub low : nat.port_min ≤ p
  pub high : p ≤ nat.port_max
  pub free : contains nat.used_ports p ≡ false
  pub state : nat' ≡ (record nat { used_ports = p ∷ nat.used_ports; next_port = nat'.next_port })

bump-InRange : (nat : NatEngine) → InRange nat → InRange (record nat { next_port = bump_port nat })
bump-InRange nat v = ground arith

abbrev bumped : NatEngine → NatEngine
bumped nat = record nat { next_port = bump_port nat }

scan_ports-used :
    (n : ℕ) (nat : NatEngine)
    → contains nat.used_ports (nat.next_port % 65536) ≡ true
    → scan_ports (suc n) nat ≡ scan_ports n (bumped nat)
unfolding scan_ports
scan_ports-used n nat c = rw c refl

scan_ports-free :
    (n : ℕ) (nat : NatEngine)
    → contains nat.used_ports (nat.next_port % 65536) ≡ false
    → scan_ports (suc n) nat ≡ (
      record (bumped nat) { used_ports = nat.next_port % 65536 ∷ nat.used_ports },
      some (nat.next_port % 65536),
    )
unfolding scan_ports
scan_ports-free n nat c = rw c refl

pub scan_ports-some :
    (n : ℕ) (nat : NatEngine) (p : ℕ)
    → InRange nat
    → (scan_ports n nat).1 ≡ some p
    → Takes nat (scan_ports n nat).0 p × InRange (scan_ports n nat).0
unfolding scan_ports
scan_ports-some zero nat p v e = ground arith
scan_ports-some (suc n) nat p v e =
    let w = bump-InRange nat v in
    let k : (nat.next_port % 65536) ≡ nat.next_port = omega arith in
    elim (Bool-cases (contains nat.used_ports (nat.next_port % 65536))) [
      | inl c ↦
          let q = scan_ports-used n nat c in
          let (t, r) = scan_ports-some n (bumped nat) p w (sym (ap (λ x. x.1) q) ∙ e) in
          rw q (record { low = t.low; high = t.high; free = t.free; state = t.state }, r)
      | inr c ↦
          let q = scan_ports-free n nat c in
          let pe : some (nat.next_port % 65536) ≡ some p = sym (ap (λ x. x.1) q) ∙ e in
          let m : (nat.next_port % 65536) ≡ p = ground (arith, pe) in
          rw q (
            record {
              low = omega arith;
              high = omega arith;
              free = rw (sym m) c;
              state = ap (λ x. record (bumped nat) { used_ports = x ∷ nat.used_ports }) m;
            },
            record { low = w.low; high = w.high; word = w.word },
          )
    ]

eq-or-ne : (a b : ℕ) → (a ≡ b) ⊎ (a ≢ b)
eq-or-ne a b = omega arith

-- The ports that `n` rounds look at from `next_port` on, past `port_max` from `port_min` on.
abbrev pub Scanned : ℕ → NatEngine → ℕ → Type 0
Scanned n nat q =
    ((nat.next_port ≤ q) × (q < nat.next_port + n))
    ⊎ (q + (nat.port_max - nat.port_min + 1) < nat.next_port + n)

pub scan_ports-none :
    (n : ℕ) (nat : NatEngine) (q : ℕ)
    → InRange nat
    → nat.port_min ≤ q
    → q ≤ nat.port_max
    → n ≤ nat.port_max - nat.port_min + 1
    → Scanned n nat q
    → (scan_ports n nat).1 ≡ none
    → contains nat.used_ports q ≡ true
unfolding scan_ports
scan_ports-none zero nat q v a b c s e = absurd (ground arith)
scan_ports-none (suc n) nat q v a b c s e =
    let w = bump-InRange nat v in
    let k : (nat.next_port % 65536) ≡ nat.next_port = omega arith in
    elim (Bool-cases (contains nat.used_ports (nat.next_port % 65536))) [
      | inl d ↦ elim (eq-or-ne q nat.next_port) [
        | inl h ↦ rw h (rw (sym k) d)
        | inr h ↦
            let s' : Scanned n (bumped nat) q = ground arith in
            scan_ports-none n (bumped nat) q w a b (omega arith) s'
              (sym (ap (λ x. x.1) (scan_ports-used n nat d)) ∙ e)
      ]
      | inr d ↦
          let f : some (nat.next_port % 65536) ≡ none =
            sym (ap (λ x. x.1) (scan_ports-free n nat d)) ∙ e in
          absurd (ground (arith, f))
    ]

pub scan_ports-full :
    (n : ℕ) (nat : NatEngine)
    → InRange nat
    → ((q : ℕ) → nat.port_min ≤ q → q ≤ nat.port_max → contains nat.used_ports q ≡ true)
    → (scan_ports n nat).1 ≡ none
unfolding scan_ports
scan_ports-full zero nat v f = refl
scan_ports-full (suc n) nat v f =
    let w = bump-InRange nat v in
    let k : (nat.next_port % 65536) ≡ nat.next_port = omega arith in
    let c : contains nat.used_ports (nat.next_port % 65536) ≡ true =
      rw k (f nat.next_port v.low v.high) in
    rw c (scan_ports-full n (record nat { next_port = bump_port nat }) w f)

abbrev takes_preferred : NatEngine → ℕ → Bool
takes_preferred nat preferred =
    leb nat.port_min preferred
    && leb preferred nat.port_max
    && not (contains nat.used_ports preferred)

abbrev span : NatEngine → ℕ
span nat = nat.port_max - nat.port_min + 1

alloc_port-preferred :
    (nat : NatEngine) (preferred : ℕ)
    → takes_preferred nat preferred ≡ true
    → alloc_port nat preferred
      ≡ (record nat { used_ports = preferred ∷ nat.used_ports }, some preferred)
unfolding alloc_port
alloc_port-preferred nat preferred h = rw h refl

alloc_port-scan :
    (nat : NatEngine) (preferred : ℕ)
    → takes_preferred nat preferred ≡ false
    → alloc_port nat preferred ≡ scan_ports (span nat) nat
unfolding alloc_port
alloc_port-scan nat preferred h = rw h refl

-- A scan that fails moves `next_port` alone.
abbrev pub Moves : NatEngine → NatEngine → Type 0
Moves nat nat' = (nat' ≡ (record nat { next_port = nat'.next_port })) × InRange nat'

scan_ports-Moves :
    (n : ℕ) (nat : NatEngine)
    → InRange nat
    → (scan_ports n nat).1 ≡ none
    → Moves nat (scan_ports n nat).0
unfolding scan_ports
scan_ports-Moves zero nat v e = (refl, v)
scan_ports-Moves (suc n) nat v e =
    elim (Bool-cases (contains nat.used_ports (nat.next_port % 65536))) [
      | inl c ↦
          let q = scan_ports-used n nat c in
          let (s, r) =
            scan_ports-Moves n (bumped nat) (bump-InRange nat v) (sym (ap (λ x. x.1) q) ∙ e) in
          rw q (s, r)
      | inr c ↦
          let f : some (nat.next_port % 65536) ≡ none =
            sym (ap (λ x. x.1) (scan_ports-free n nat c)) ∙ e in
          absurd (ground (arith, f))
    ]

-- `alloc_port` that fails moves `next_port` alone.
pub alloc_port-Moves :
    (nat : NatEngine) (preferred : ℕ)
    → InRange nat
    → (alloc_port nat preferred).1 ≡ none
    → Moves nat (alloc_port nat preferred).0
alloc_port-Moves nat preferred v e = elim (Bool-cases (takes_preferred nat preferred)) [
  | inl h ↦
      let f : some preferred ≡ none =
        sym (ap (λ x. x.1) (alloc_port-preferred nat preferred h)) ∙ e in
      absurd (ground (arith, f))
  | inr h ↦
      let q = alloc_port-scan nat preferred h in
      rw q (scan_ports-Moves (span nat) nat v (sym (ap (λ x. x.1) q) ∙ e))
]

-- The port that `alloc_port` gives is one of the range that no binding held; it is marked used, and
-- all other state but `next_port` stays.
pub alloc_port-some :
    (nat : NatEngine) (preferred p : ℕ)
    → InRange nat
    → (alloc_port nat preferred).1 ≡ some p
    → Takes nat (alloc_port nat preferred).0 p × InRange (alloc_port nat preferred).0
alloc_port-some nat preferred p v e = elim (Bool-cases (takes_preferred nat preferred)) [
  | inl h ↦
      let q = alloc_port-preferred nat preferred h in
      let pe : some preferred ≡ some p = sym (ap (λ x. x.1) q) ∙ e in
      let m : preferred ≡ p = ground (arith, pe) in
      rw q (
        record {
          low = ground (arith, h);
          high = ground (arith, h);
          free = rw (sym m) (ground (arith, h));
          state = ap (λ x. record nat { used_ports = x ∷ nat.used_ports }) m;
        },
        record { low = v.low; high = v.high; word = v.word },
      )
  | inr h ↦
      let q = alloc_port-scan nat preferred h in
      rw q (scan_ports-some (span nat) nat p v (sym (ap (λ x. x.1) q) ∙ e))
]

-- `alloc_port` fails only if every port of the range is used: its round robin misses none.
pub alloc_port-none_iff :
    (nat : NatEngine) (preferred : ℕ)
    → InRange nat
    → ((alloc_port nat preferred).1 ≡ none)
      ↔ ((q : ℕ) → nat.port_min ≤ q → q ≤ nat.port_max → contains nat.used_ports q ≡ true)
alloc_port-none_iff nat preferred v = (missed, full)
  where
    missed :
        (alloc_port nat preferred).1 ≡ none
        → (q : ℕ) → nat.port_min ≤ q
        → q ≤ nat.port_max
        → contains nat.used_ports q ≡ true
    missed e q a b = elim (Bool-cases (takes_preferred nat preferred)) [
      | inl h ↦
          let f : some preferred ≡ none =
            sym (ap (λ x. x.1) (alloc_port-preferred nat preferred h)) ∙ e in
          absurd (ground (arith, f))
      | inr h ↦
          scan_ports-none (span nat) nat q v a b (omega arith) (omega arith)
            (sym (ap (λ x. x.1) (alloc_port-scan nat preferred h)) ∙ e)
    ]

    full :
        ((q : ℕ) → nat.port_min ≤ q → q ≤ nat.port_max → contains nat.used_ports q ≡ true)
        → (alloc_port nat preferred).1 ≡ none
    full f = elim (Bool-cases (takes_preferred nat preferred)) [
      | inl h ↦
          let u = f preferred (ground (arith, h)) (ground (arith, h)) in
          absurd (ground (arith, h, u))
      | inr h ↦ ap (λ x. x.1) (alloc_port-scan nat preferred h) ∙ scan_ports-full (span nat) nat v f
    ]
