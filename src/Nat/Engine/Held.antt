-- ===== src/Nat/Engine/Held.antt =====
-- What the tables of the SNAT hold: no port is used and no reverse entry stands but for a flow.
pub mod Kept
use light_andromeda.Prelude.{
  ◌⊎◌, ℕ, ◌≡◌, ◌≢◌, ◌∷◌, List, true, false, some, none, Option, ap, sym, ◌∙◌, refl, arith, inl, inr,
  ==_iff, ◌==◌, Bool-cases,
}
use mathlib.Core.Path.{subst}
use light_andromeda.Core.FiveTuple.{FiveTuple}
use light_andromeda.Nat.Engine.{reply_of}
use light_andromeda.Nat.Engine.Tables.{some_inj, insert-cases, remove-cases}
use light_andromeda.Nat.State.{Binding, Conntrack, tuple_key}
use light_andromeda.Prelude.Map.{
  nat_eq, contains, delete, lookup, insert, remove, key-eq_or_ne, contains-delete,
  contains-delete_ne, lookup-insert_self, lookup-insert_ne, lookup-remove_ne, beq_self,
}

-- A flow of the table of which `P` holds, by its tuple and its port.
abbrev pub Flow : (FiveTuple → ℕ → Type 0) → Conntrack → Type 0
Flow P fwd = (t : FiveTuple) × (b : Binding) × (lookup t fwd ≡ some b) × P t b.port

-- Every used port is that of a flow, and every reverse entry is that of a flow.
pub record Held (ip : ℕ) (ports : List ℕ) (fwd rev : Conntrack) : Type 0 where
  pub owned : (p : ℕ) → contains ports p ≡ true → Flow (λ t q. q ≡ p) fwd
  pub replies :
      (k : FiveTuple) (r : Binding) → lookup k rev ≡ some r → Flow (λ t q. reply_of ip t q ≡ k) fwd

none-ne-some : {b : Binding} → Path (Option Binding) none (some b) → ⊥
none-ne-some e = ground (arith, e)

module _ (P : FiveTuple → ℕ → Type 0) (t : FiveTuple) (b : Binding) (fwd : Conntrack) where
  Flow-seen :
      (b' : Binding)
      → lookup t fwd ≡ some b
      → b'.port ≡ b.port
      → Flow P fwd
      → Flow P (insert t b' fwd)
  Flow-seen b' h e (u, x, hx, p) = elim (key-eq_or_ne t u) [
    | inl k ↦
        let same : b ≡ x = some_inj b x (sym h ∙ ap (λ a. lookup a fwd) k ∙ hx) in
        let port : x.port ≡ b'.port = sym (e ∙ ap (λ a. a.port) same) in
        (
          t,
          b',
          lookup-insert_self t b' fwd,
          subst (λ a. P a b'.port) (sym k) (subst (λ q. P u q) port p),
        )
    | inr n ↦ (u, x, lookup-insert_ne t u b' fwd n ∙ hx, p)
  ]

  Flow-fresh : lookup t fwd ≡ none → Flow P fwd → Flow P (insert t b fwd)
  Flow-fresh h (u, x, hx, p) = elim (key-eq_or_ne t u) [
    | inl k ↦ absurd (none-ne-some (sym h ∙ ap (λ a. lookup a fwd) k ∙ hx))
    | inr n ↦ (u, x, lookup-insert_ne t u b fwd n ∙ hx, p)
  ]

  Flow-removed : lookup t fwd ≡ some b → (P t b.port → ⊥) → Flow P fwd → Flow P (remove t fwd)
  Flow-removed h other (u, x, hx, p) = elim (key-eq_or_ne t u) [
    | inl k ↦
        let same : x ≡ b = some_inj x b (sym hx ∙ ap (λ a. lookup a fwd) (sym k) ∙ h) in
        absurd (other (subst (λ a. P a b.port) (sym k) (subst (λ y. P u (y.port)) same p)))
    | inr n ↦ (u, x, lookup-remove_ne t u fwd n ∙ hx, p)
  ]

contains-cons-cases :
    (p q : ℕ) (ports : List ℕ) → contains (p ∷ ports) q ≡ true → (p ≡ q) ⊎ (contains ports q ≡ true)
unfolding contains
contains-cons-cases p q ports h = ground (arith, h)

contains-delete-cases :
    (p q : ℕ) (ports : List ℕ)
    → contains (delete ports p) q ≡ true
    → (p ≢ q) × (contains ports q ≡ true)
contains-delete-cases p q ports h = elim (Bool-cases (p == q)) [
  | inl y ↦
      let f : contains (delete ports p) q ≡ false = contains-delete ports p q ∙ rw y refl in
      absurd (ground (arith, f, h))
  | inr n ↦
      let other : p ≢ q = λ e. ground (arith, n, e) in
      (other, sym (contains-delete_ne ports p q other) ∙ h)
]

module _ (ip : ℕ) (ports : List ℕ) (fwd rev : Conntrack) (c : Held ip ports fwd rev) where
  pub Held-seen :
      (t : FiveTuple) (b b' : Binding)
      → lookup t fwd ≡ some b
      → b'.port ≡ b.port
      → Held ip ports (insert t b' fwd) rev
  Held-seen t b b' h e = record {
    owned = λ p m. Flow-seen (λ u q. q ≡ p) t b fwd b' h e (c.owned p m);
    replies = λ k r m. Flow-seen (λ u q. reply_of ip u q ≡ k) t b fwd b' h e (c.replies k r m);
  }

  pub Held-replied :
      (k : FiveTuple) (r r' : Binding) → lookup k rev ≡ some r → Held ip ports fwd (insert k r' rev)
  Held-replied k r r' h = record {
    owned = c.owned;
    replies = λ j x m. elim (insert-cases k j r' x rev m) [
      | inl (e, v) ↦ c.replies j r (ap (λ a. lookup a rev) (sym e) ∙ h)
      | inr (n, old) ↦ c.replies j x old
    ];
  }

  pub Held-created :
      (t : FiveTuple) (b r : Binding)
      → lookup t fwd ≡ none
      → Held ip (b.port ∷ ports) (insert t b fwd) (insert (reply_of ip t b.port) r rev)
  Held-created t b r h = record {
    owned = λ p m. elim (contains-cons-cases b.port p ports m) [
      | inl e ↦ (t, b, lookup-insert_self t b fwd, e)
      | inr old ↦ Flow-fresh (λ u q. q ≡ p) t b fwd h (c.owned p old)
    ];
    replies = λ k x m. elim (insert-cases (reply_of ip t b.port) k r x rev m) [
      | inl (e, v) ↦ (t, b, lookup-insert_self t b fwd, e)
      | inr (n, old) ↦ Flow-fresh (λ u q. reply_of ip u q ≡ k) t b fwd h (c.replies k x old)
    ];
  }

  pub Held-evicted :
      (t : FiveTuple) (b : Binding)
      → lookup t fwd ≡ some b
      → Held ip (delete ports b.port) (remove t fwd) (remove (reply_of ip t b.port) rev)
  Held-evicted t b h = record {
    owned = λ p m.
        let (n, old) = contains-delete-cases b.port p ports m in
        Flow-removed (λ u q. q ≡ p) t b fwd h n (c.owned p old);
    replies = λ k x m.
        let (n, old) = remove-cases (reply_of ip t b.port) k x rev m in
        Flow-removed (λ u q. reply_of ip u q ≡ k) t b fwd h n (c.replies k x old);
  }
