-- ===== src/Dataplane/Spsc/Fifo.antt =====
-- The ring against a bounded queue: `push` adds at the back unless the ring is full, and `pop` takes
-- from the front, whatever the wrapping indices are.
use light_andromeda.Prelude.{
  Bool-cases, get_or-set_self, length-set, false, ◌==◌, inr, true, ltb, inl, ◌⊎◌, get_or-set_ne, ℕ,
  zero, suc, ◌+◌, ◌-◌, ◌%◌, ◌≡◌, ◌≢◌, ◌≤◌, ◌<◌, List, [], ◌∷◌, ◌++◌, some, none, length, get_or,
  set, refl, ap, sym, ◌∙◌, arith,
}
use Prim.Native.Nat.{◌∣◌}
use mathlib.Core.Path.{subst}
use native.Mathlib.Nat.{mod-mod_of_dvd, mod-lt, mod-add-mod, mod-eq_of_lt, mod-eq-sub-mod}
use light_andromeda.Dataplane.Spsc.{Ring, usize_mod, push, pop, wrapping_sub}

-- The capacity is that of the buffer and divides 2 ^ 64; the indices are words, and at most the
-- capacity lies between them.
pub record IsRing {ℓ} {T : Type ℓ} (default : T) (r : Ring T) : Type 0 where
  pub cap : r.mask + 1 ≡ length r.buf
  pub divides : length r.buf ∣ usize_mod
  pub small : length r.buf < usize_mod
  pub head : r.head < usize_mod
  pub tail : r.tail < usize_mod
  pub fits : wrapping_sub default r.tail r.head ≤ length r.buf

lt-or-ge : (a b : ℕ) → (a < b) ⊎ (b ≤ a)
lt-or-ge a b = omega arith

module _ {ℓ} {T : Type ℓ} (default : T) where
  -- `n` entries from the index `i` on.
  abbrev pub entries : List T → (cap i n : ℕ) → List T
  entries buf cap i zero = []
  entries buf cap i (suc n) = get_or buf (i % cap) default ∷ entries buf cap (i + 1) n

  -- What the ring holds, from the front.
  abbrev pub queue : Ring T → List T
  queue r = entries r.buf (length r.buf) r.head (wrapping_sub default r.tail r.head)

  entries-cong :
      (buf : List T) (cap i j n : ℕ) → i % cap ≡ j % cap → entries buf cap i n ≡ entries buf cap j n
  entries-cong buf cap i j zero e = refl
  entries-cong buf cap i j (suc n) e =
      let next : (i + 1) % cap ≡ (j + 1) % cap =
        sym (mod-add-mod i cap 1) ∙ ap (λ x. (x + 1) % cap) e ∙ mod-add-mod j cap 1 in
      ap (λ x. get_or buf x default ∷ entries buf cap (i + 1) n) e
      ∙ ap (λ xs. get_or buf (j % cap) default ∷ xs) (entries-cong buf cap (i + 1) (j + 1) n next)

  entries-snoc :
      (buf : List T) (cap i n : ℕ)
      → entries buf cap i (suc n) ≡ entries buf cap i n ++ get_or buf ((i + n) % cap) default ∷ []
  entries-snoc buf cap i zero = ap (λ x. get_or buf (x % cap) default ∷ []) z
    where
      z : i ≡ i + 0
      z = omega arith
  entries-snoc buf cap i (suc n) =
      let s : i + 1 + n ≡ i + suc n = omega arith in
      ap (λ xs. get_or buf (i % cap) default ∷ xs)
        (entries-snoc buf cap (i + 1) n
          ∙ ap (λ x. entries buf cap (i + 1) n ++ get_or buf (x % cap) default ∷ []) s)

  -- A store into a slot that none of the entries uses.
  entries-set :
      (buf : List T) (cap i n b : ℕ) (v : T)
      → ((k : ℕ) → k < n → b ≢ (i + k) % cap)
      → entries (set buf b v) cap i n ≡ entries buf cap i n
  entries-set buf cap i zero b v h = refl
  entries-set buf cap i (suc n) b v h =
      let z : i + 0 ≡ i = omega arith in
      let first : b ≢ i % cap = λ e. h 0 (omega arith) (e ∙ ap (λ x. x % cap) (sym z)) in
      let later : (k : ℕ) → k < n → b ≢ (i + 1 + k) % cap = λ k l e.
        let s : i + 1 + k ≡ i + suc k = omega arith in
        h (suc k) (omega arith) (e ∙ ap (λ x. x % cap) s) in
      ap (λ x. x ∷ entries (set buf b v) cap (i + 1) n)
        (get_or-set_ne buf b (i % cap) v default first)
      ∙ ap (λ xs. get_or buf (i % cap) default ∷ xs) (entries-set buf cap (i + 1) n b v later)

  -- Fewer than `cap` apart, two slots differ.
  slot-ne : (cap a d : ℕ) → 0 < d → d < cap → a % cap ≢ (a + d) % cap
  slot-ne cap a d h l e =
      let x = a % cap in
      let lt : x < cap = mod-lt a (omega (arith, h, l)) in
      let f : x ≡ (x + d) % cap = e ∙ sym (mod-add-mod a cap d) in
      elim (lt-or-ge (x + d) cap) [
        | inl g ↦ let q = mod-eq_of_lt g in absurd (omega (arith, f, q, h))
        | inr g ↦
            let q = mod-eq-sub-mod g in
            let w : x + d - cap < cap = omega (arith, lt, l) in
            let q2 = mod-eq_of_lt w in absurd (omega (arith, f, q, q2, g, l, lt))
      ]

  tail-eq :
      (r : Ring T)
      → IsRing default r
      → r.tail ≡ (r.head + wrapping_sub default r.tail r.head) % usize_mod
  tail-eq r s = omega (arith, s.head, s.tail)

  -- A push to a ring that is not full is taken: it puts the value at the back of the queue, and the
  -- ring stays a ring.
  pub push-queue :
      (r : Ring T) (v : T)
      → IsRing default r
      → wrapping_sub default r.tail r.head < length r.buf
      → let (r', refused) = push default r v in
        (refused ≡ none) × (queue r' ≡ queue r ++ v ∷ []) × IsRing default r'
  unfolding push
  push-queue r v s h =
      let n = wrapping_sub default r.tail r.head in
      let cap = length r.buf in
      let m : ltb n cap ≡ true = ground (arith, h) in
      let full : (n == cap) ≡ false = ground (arith, h) in
      let len : length (set r.buf (r.tail % (r.mask + 1)) v) ≡ cap =
        length-set r.buf (r.tail % (r.mask + 1)) v in
      let next : wrapping_sub default ((r.tail + 1) % usize_mod) r.head ≡ suc n =
        omega (arith, s.head, s.tail, s.small, h) in
      let b = r.tail % cap in
      let at : b ≡ (r.head + n) % cap =
        ap (λ x. x % cap) (tail-eq r s) ∙ mod-mod_of_dvd cap (r.head + n) s.divides in
      let stored = set r.buf b v in
      let e1 : entries stored cap r.head n ≡ queue r = entries-set r.buf cap r.head n b v (λ k l e.
        let far : r.head + n ≡ r.head + k + (n - k) = omega (arith, l) in
        slot-ne cap (r.head + k) (n - k) (omega (arith, l)) (omega (arith, h))
          (sym e ∙ at ∙ ap (λ x. x % cap) far)) in
      let e2 : get_or stored ((r.head + n) % cap) default ≡ v =
        ap (λ x. get_or stored x default) (sym at)
        ∙ get_or-set_self r.buf b v default (mod-lt r.tail (omega (arith, h))) in
      let c = wrapping_sub default ((r.tail + 1) % usize_mod) r.head in
      let back : List T =
        entries (set r.buf (r.tail % (r.mask + 1)) v) (length (set r.buf (r.tail % (r.mask + 1)) v))
          r.head c in
      let q : back ≡ queue r ++ v ∷ [] =
        ap (λ m. entries (set r.buf (r.tail % m) v) (length (set r.buf (r.tail % m) v)) r.head c)
          s.cap
        ∙ ap (λ l. entries stored l r.head c) (length-set r.buf b v)
        ∙ ap (λ k. entries stored cap r.head k) next
        ∙ entries-snoc stored cap r.head n
        ∙ ap (λ xs. xs ++ get_or stored ((r.head + n) % cap) default ∷ []) e1
        ∙ ap (λ x. queue r ++ x ∷ []) e2 in
      rw full (
        refl,
        q,
        record {
          cap = s.cap ∙ sym len;
          divides = subst (λ l. l ∣ usize_mod) (sym len) s.divides;
          small = omega (arith, len, s.small);
          head = s.head;
          tail = omega arith;
          fits = omega (arith, len, next, h);
        },
      )

  -- A pop of an empty queue takes nothing and changes nothing; of any other it takes the value at its
  -- front and leaves the rest, and the ring stays a ring.
  pub pop-queue :
      (r : Ring T)
      → IsRing default r
      → let (r', taken) = pop default r in
        ((taken ≡ none) × (queue r ≡ []) × (r' ≡ r))
        ⊎ ((x : T) × (taken ≡ some x) × (queue r ≡ x ∷ queue r') × IsRing default r')
  unfolding pop
  pop-queue r s =
      let cap = length r.buf in
      let n = wrapping_sub default r.tail r.head in
      elim (Bool-cases (r.head == r.tail)) [
        | inl h ↦
            let z : n ≡ 0 = ground (arith, h, s.head, s.tail) in
            rw h (inl (refl, ap (λ k. entries r.buf cap r.head k) z, refl))
        | inr h ↦
            let head' = (r.head + 1) % usize_mod in
            let c = wrapping_sub default r.tail head' in
            let z : n ≡ suc c = ground (arith, h, s.head, s.tail) in
            let x = get_or r.buf (r.head % cap) default in
            let same : (r.head + 1) % cap ≡ head' % cap =
              sym (mod-mod_of_dvd cap (r.head + 1) s.divides) in
            let q : queue r ≡ x ∷ entries r.buf cap head' c =
              ap (λ k. entries r.buf cap r.head k) z
              ∙ ap (λ xs. x ∷ xs) (entries-cong r.buf cap (r.head + 1) head' c same) in
            rw h (
              inr (
                x,
                ap (λ m. some (get_or r.buf (r.head % m) default)) s.cap,
                q,
                record {
                  cap = s.cap;
                  divides = s.divides;
                  small = s.small;
                  head = omega arith;
                  tail = s.tail;
                  fits = omega (arith, z, s.fits);
                },
              ))
      ]
