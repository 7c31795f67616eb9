-- ===== src/Nat/Engine/Tables.antt =====
-- The tables of the SNAT: that the forward and the reverse entry of a flow belong together, and what
-- the changes that `process` and `gc` make of them keep.
use light_andromeda.Prelude.{
  Option, ℕ, ◌≡◌, ◌≢◌, ◌⊎◌, inl, inr, List, ◌∷◌, true, false, some, none, ap, sym, ◌∙◌, refl, arith,
}
use mathlib.Core.Path.{subst}
use light_andromeda.Core.FiveTuple.{FiveTuple}
use light_andromeda.Nat.Engine.{reply_of}
use light_andromeda.Nat.State.{Binding, Conntrack, tuple_key}
use light_andromeda.Prelude.Map.{
  beq_self, nat_eq, contains, delete, lookup, insert, remove, key-eq_or_ne, contains-delete_ne,
  lookup-insert_self, lookup-insert_ne, lookup-remove_self, lookup-remove_ne,
}

-- The reverse entry of the flow `t` on the port `p`: replies go back to the flow's source.
abbrev pub Back : ℕ → Conntrack → FiveTuple → ℕ → Type 0
Back ip rev t p =
    (r : Binding) × (lookup (reply_of ip t p) rev ≡ some r)
    × (r.ip ≡ t.src_ip)
    × (r.port ≡ t.src_port)

-- Every flow holds a port that is marked used, no two flows the same, and has its reverse entry.
pub record Consistent (ip : ℕ) (ports : List ℕ) (fwd rev : Conntrack) : Type 0 where
  pub used : (t : FiveTuple) (b : Binding) → lookup t fwd ≡ some b → contains ports b.port ≡ true
  pub unique :
      (t u : FiveTuple) (b c : Binding)
      → lookup t fwd ≡ some b
      → lookup u fwd ≡ some c
      → b.port ≡ c.port
      → t ≡ u
  pub back : (t : FiveTuple) (b : Binding) → lookup t fwd ≡ some b → Back ip rev t b.port

abbrev some_or : Binding → Option Binding → Binding
some_or d none = d
some_or d (some b) = b

pub some_inj : (a b : Binding) → some a ≡ some b → a ≡ b
some_inj a b e = ap (some_or a) e

-- What look-up sees of an insertion and of a removal.
pub insert-cases :
    (k t : FiveTuple) (v b : Binding) (m : Conntrack)
    → lookup t (insert k v m) ≡ some b
    → ((k ≡ t) × (v ≡ b)) ⊎ ((k ≢ t) × (lookup t m ≡ some b))
insert-cases k t v b m h = elim (key-eq_or_ne k t) [
  | inl e ↦
      inl
        (e, some_inj v b (sym (lookup-insert_self k v m) ∙ ap (λ x. lookup x (insert k v m)) e ∙ h))
  | inr n ↦ inr (n, sym (lookup-insert_ne k t v m n) ∙ h)
]

pub remove-cases :
    (k t : FiveTuple) (b : Binding) (m : Conntrack)
    → lookup t (remove k m) ≡ some b
    → (k ≢ t) × (lookup t m ≡ some b)
remove-cases k t b m h = elim (key-eq_or_ne k t) [
  | inl e ↦
      let f : none ≡ some b =
        sym (lookup-remove_self k m) ∙ ap (λ x. lookup x (remove k m)) e ∙ h in
      absurd (ground (arith, f))
  | inr n ↦ (n, sym (lookup-remove_ne k t m n) ∙ h)
]

contains-cons_self : (p : ℕ) (ports : List ℕ) → contains (p ∷ ports) p ≡ true
unfolding contains
contains-cons_self p ports = rw (beq_self p) refl

contains-cons : (p q : ℕ) (ports : List ℕ) → contains ports q ≡ true → contains (p ∷ ports) q ≡ true
unfolding contains
contains-cons p q ports h = ground (arith, h)

used-ne : (ports : List ℕ) (p q : ℕ) → contains ports p ≡ false → contains ports q ≡ true → p ≢ q
used-ne ports p q f t e =
    let b : false ≡ true = sym f ∙ ap (contains ports) e ∙ t in absurd (ground (arith, b))

module _ (ip : ℕ) (ports : List ℕ) (fwd rev : Conntrack) (c : Consistent ip ports fwd rev) where
  -- A flow that is seen again.
  pub Consistent-seen :
      (t : FiveTuple) (b b' : Binding)
      → lookup t fwd ≡ some b
      → b'.port ≡ b.port
      → Consistent ip ports (insert t b' fwd) rev
  Consistent-seen t b b' h e = record {
    used = λ u x hx.
        let (y, hy, ey) = origin u x hx in subst (λ p. contains ports p ≡ true) ey (c.used u y hy);
    unique = λ u v x z hx hz q.
        let (y, hy, ey) = origin u x hx in
        let (w, hw, ew) = origin v z hz in c.unique u v y w hy hw (ey ∙ q ∙ sym ew);
    back = λ u x hx.
        let (y, hy, ey) = origin u x hx in subst (λ p. Back ip rev u p) ey (c.back u y hy);
  }
    where
      origin :
          (u : FiveTuple) (x : Binding)
          → lookup u (insert t b' fwd) ≡ some x
          → (y : Binding) × (lookup u fwd ≡ some y) × (y.port ≡ x.port)
      origin u x hx = elim (insert-cases t u b' x fwd hx) [
        | inl (k, v) ↦ (b, ap (λ a. lookup a fwd) (sym k) ∙ h, sym e ∙ ap (λ a. a.port) v)
        | inr (n, hy) ↦ (x, hy, refl)
      ]

  -- A reply that is seen.
  pub Consistent-replied :
      (k : FiveTuple) (r r' : Binding)
      → lookup k rev ≡ some r
      → r'.ip ≡ r.ip
      → r'.port ≡ r.port
      → Consistent ip ports fwd (insert k r' rev)
  Consistent-replied k r r' h ei ep = record {
    used = c.used;
    unique = c.unique;
    back = λ u x hx. again u x.port (c.back u x hx);
  }
    where
      again : (u : FiveTuple) (p : ℕ) → Back ip rev u p → Back ip (insert k r' rev) u p
      again u p (r0, h0, i0, p0) = elim (key-eq_or_ne k (reply_of ip u p)) [
        | inl e ↦
            let same : r ≡ r0 = some_inj r r0 (sym h ∙ ap (λ a. lookup a rev) e ∙ h0) in
            (
              r',
              ap (λ a. lookup a (insert k r' rev)) (sym e) ∙ lookup-insert_self k r' rev,
              ei ∙ ap (λ a. a.ip) same ∙ i0,
              ep ∙ ap (λ a. a.port) same ∙ p0,
            )
        | inr n ↦ (r0, lookup-insert_ne k (reply_of ip u p) r' rev n ∙ h0, i0, p0)
      ]

  -- A new flow on a free port.
  pub Consistent-created :
      (t : FiveTuple) (b r : Binding)
      → contains ports b.port ≡ false
      → r.ip ≡ t.src_ip
      → r.port ≡ t.src_port
      → Consistent ip (b.port ∷ ports) (insert t b fwd) (insert (reply_of ip t b.port) r rev)
  Consistent-created t b r f ei ep = record {
    used = λ u x hx. elim (insert-cases t u b x fwd hx) [
      | inl (k, v) ↦
          subst (λ y. contains (b.port ∷ ports) (y.port) ≡ true) v (contains-cons_self b.port ports)
      | inr (n, hy) ↦ contains-cons b.port x.port ports (c.used u x hy)
    ];
    unique = λ u v x z hx hz q. elim (insert-cases t u b x fwd hx) [
      | inl (k, e) ↦ elim (insert-cases t v b z fwd hz) [
        | inl (l, d) ↦ sym k ∙ l
        | inr (n, hw) ↦
            absurd (used-ne ports b.port z.port f (c.used v z hw) (ap (λ a. a.port) e ∙ q))
      ]
      | inr (n, hy) ↦ elim (insert-cases t v b z fwd hz) [
        | inl (l, d) ↦
            absurd (used-ne ports b.port x.port f (c.used u x hy) (ap (λ a. a.port) d ∙ sym q))
        | inr (m, hw) ↦ c.unique u v x z hy hw q
      ]
    ];
    back = λ u x hx. elim (insert-cases t u b x fwd hx) [
      | inl (k, v) ↦
          subst (λ y. Back ip rev' u (y.port)) v
            (subst (λ y. Back ip rev' y b.port) k
              (r, lookup-insert_self (reply_of ip t b.port) r rev, ei, ep))
      | inr (n, hy) ↦ old u x.port (c.used u x hy) (c.back u x hy)
    ];
  }
    where
      rev' : Conntrack
      rev' = insert (reply_of ip t b.port) r rev

      old : (u : FiveTuple) (p : ℕ) → contains ports p ≡ true → Back ip rev u p → Back ip rev' u p
      old u p tk (r0, h0, i0, p0) = (
        r0,
        lookup-insert_ne (reply_of ip t b.port) (reply_of ip u p) r rev
              (λ e. used-ne ports b.port p f tk (ap (λ a. a.dst_port) e))
            ∙ h0,
        i0,
        p0,
      )

  -- A flow that is evicted, with its port.
  pub Consistent-evicted :
      (t : FiveTuple) (b : Binding)
      → lookup t fwd ≡ some b
      → Consistent ip (delete ports b.port) (remove t fwd) (remove (reply_of ip t b.port) rev)
  Consistent-evicted t b h = record {
    used = λ u x hx.
        let (n, hy) = remove-cases t u x fwd hx in
        contains-delete_ne ports b.port x.port (λ e. n (c.unique t u b x h hy e)) ∙ c.used u x hy;
    unique = λ u v x z hx hz q.
        let (n, hy) = remove-cases t u x fwd hx in
        let (m, hw) = remove-cases t v z fwd hz in c.unique u v x z hy hw q;
    back = λ u x hx.
        let (n, hy) = remove-cases t u x fwd hx in
        let (r0, h0, i0, p0) = c.back u x hy in
        (
          r0,
          lookup-remove_ne (reply_of ip t b.port) (reply_of ip u x.port) rev
                (λ e. n (c.unique t u b x h hy (ap (λ a. a.dst_port) e)))
              ∙ h0,
          i0,
          p0,
        );
  }
