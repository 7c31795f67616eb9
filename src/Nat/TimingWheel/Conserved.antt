-- ===== src/Nat/TimingWheel/Conserved.antt =====
-- What `TimingWheel::advance` keeps: no entry is lost or delivered twice.
use light_andromeda.Prelude.{
  ◌-◌, Bool, true, Bool-cases, if◌then◌else◌, inr, inl, ◌⊎◌, ℕ, zero, suc, ◌+◌, ◌/◌, ◌%◌, ◌≤◌, ◌<◌,
  ◌≡◌, ◌≢◌, List, [], ◌∷◌, ◌++◌, length, get_or, set, refl, ap, ◌∙◌, arith, length-set,
  get_or-set_self,
}
use light_andromeda.Nat.TimingWheel.{total, len, TimingWheel, u64_mod, drain, steps, advance}
use mathlib.Core.Path.{subst}
use native.Mathlib.Nat.{mod-lt}

pub eq-or-ne : (a b : ℕ) → (a ≡ b) ⊎ (a ≢ b)
eq-or-ne a b = omega arith

module _ {ℓ} {K : Type ℓ} where
  -- The number of entries that `f` accepts.
  unfoldable pub count : (K → Bool) → List K → ℕ
  count f [] = 0
  count f (x ∷ xs) = let rest = count f xs in if f x then suc rest else rest

  count-append : (f : K → Bool) (xs ys : List K) → count f (xs ++ ys) ≡ count f xs + count f ys
  unfolding count
  count-append f [] ys = omega arith
  count-append f (x ∷ xs) ys = elim (Bool-cases (f x)) [
    | inl h ↦ rw (h, count) (omega (arith, count-append f xs ys))
    | inr h ↦ rw (h, count) (count-append f xs ys)
  ]

  get_or-cleared :
      (slots : List (List K)) (c b : ℕ) → get_or slots b [] ≡ [] → get_or (set slots c []) b [] ≡ []
  get_or-cleared [] c b e = e
  get_or-cleared (s ∷ ss) zero zero e = refl
  get_or-cleared (s ∷ ss) zero (suc b) e = e
  get_or-cleared (s ∷ ss) (suc c) zero e = e
  get_or-cleared (s ∷ ss) (suc c) (suc b) e = get_or-cleared ss c b e

  -- The number of entries in all the buckets that `f` accepts.
  unfoldable pub total_count : (K → Bool) → List (List K) → ℕ
  total_count f [] = 0
  total_count f (s ∷ ss) = count f s + total_count f ss

  total_count-set :
      (f : K → Bool) (slots : List (List K)) (b : ℕ) (x : List K)
      → b < length slots
      → total_count f (set slots b x) + count f (get_or slots b [])
        ≡ total_count f slots + count f x
  unfolding total_count
  total_count-set f [] b x h = absurd (omega arith)
  total_count-set f (s ∷ ss) zero x h = omega arith
  total_count-set f (s ∷ ss) (suc b) x h = omega (arith, total_count-set f ss b x (omega arith))

  drain-count :
      (f : K → Bool) (k s last n : ℕ) (slots : List (List K)) (due : List K)
      → length slots ≡ n
      → 0 < n
      → let (slots', due') = drain k s last n slots due in
        (total_count f slots' + count f due' ≡ total_count f slots + count f due)
        × (length slots' ≡ n)
  unfolding drain total_count count
  drain-count f zero s last n slots due e h = (refl, e)
  drain-count f (suc k) s last n slots due e h =
      let b = (last + s) % u64_mod % n in
      let (t, l) =
        drain-count f k (s + 1) last n (set slots b []) (due ++ get_or slots b [])
          (length-set slots b [] ∙ e) h in
      (
        omega (
          arith,
          t,
          count-append f due (get_or slots b []),
          total_count-set f slots b [] (rw e (mod-lt ((last + s) % u64_mod) h)),
        ),
        l,
      )

  -- A bucket that is empty stays so.
  drain-empty :
      (k s last n b : ℕ) (slots : List (List K)) (due : List K)
      → get_or slots b [] ≡ []
      → get_or (drain k s last n slots due).0 b [] ≡ []
  unfolding drain
  drain-empty zero s last n b slots due e = e
  drain-empty (suc k) s last n b slots due e =
      let c = (last + s) % u64_mod % n in
      drain-empty k (s + 1) last n b (set slots c []) (due ++ get_or slots c [])
        (get_or-cleared slots c b e)

  drain-emptied :
      (k s last n t : ℕ) (slots : List (List K)) (due : List K)
      → length slots ≡ n
      → 0 < n
      → s ≤ t
      → t < s + k
      → get_or (drain k s last n slots due).0 ((last + t) % u64_mod % n) [] ≡ []
  unfolding drain
  drain-emptied zero s last n t slots due e h a c = absurd (omega (arith, a, c))
  drain-emptied (suc k) s last n t slots due e h a c =
      let b = (last + s) % u64_mod % n in
      elim (eq-or-ne s t) [
        | inl same ↦
            drain-empty k (s + 1) last n ((last + t) % u64_mod % n) (set slots b [])
              (due ++ get_or slots b [])
              (subst (λ i. get_or (set slots b []) ((last + i) % u64_mod % n) [] ≡ []) same
                (get_or-set_self slots b [] [] (rw e (mod-lt ((last + s) % u64_mod) h))))
        | inr other ↦
            drain-emptied k (s + 1) last n t (set slots b []) (due ++ get_or slots b [])
              (length-set slots b [] ∙ e) h (omega (arith, a, other)) (omega (arith, c))
      ]

  -- `advance` moves entries: of every kind of key, those that stay and those that are delivered are as many
  -- as before, so that no key is lost and none is delivered twice; the number of buckets stays, and the
  -- buckets of the ticks after the wheel's time up to the new time, at most one turn of the wheel, are empty
  -- after it.
  pub advance-count :
      (w : TimingWheel K) (now : ℕ) (due : List K)
      → 0 < length w.slots
      → now / w.tick < u64_mod
      → let (w', due') = advance w now due in
        ((f : K → Bool)
          → total_count f w'.slots + count f due' ≡ total_count f w.slots + count f due)
        × (length w'.slots ≡ length w.slots)
        × ((t : ℕ)
            → w.now / w.tick < t
            → t ≤ now / w.tick
            → t ≤ w.now / w.tick + length w.slots
            → get_or w'.slots (t % length w.slots) [] ≡ [])
  unfolding advance
  advance-count w now due h c =
      let n = length w.slots in
      let last = w.now / w.tick in
      (
        λ f. (drain-count f (steps w now) 1 last n w.slots due refl h).0,
        (drain-count (λ k. true) (steps w now) 1 last n w.slots due refl h).1,
        λ t a b d.
            let here : (last + (t - last)) % u64_mod ≡ t = omega (arith, a, b, c) in
            subst (λ i. get_or (advance w now due).0.slots (i % n) [] ≡ []) here
              (drain-emptied (steps w now) 1 last n (t - last) w.slots due refl h (omega (arith, a))
                (omega (arith, a, b, c, d))),
      )

  count-true : (xs : List K) → count (λ k. true) xs ≡ length xs
  unfolding count
  count-true [] = refl
  count-true (x ∷ xs) = ap suc (count-true xs)

  total_count-true : (slots : List (List K)) → total_count (λ k. true) slots ≡ total slots
  unfolding total_count total
  total_count-true [] = refl
  total_count-true (s ∷ ss) = omega (arith, count-true s, total_count-true ss)

  -- `len` counts down by what `advance` delivers.
  pub len-advance :
      (w : TimingWheel K) (now : ℕ) (due : List K)
      → 0 < length w.slots
      → let (w', due') = advance w now due in len w' + length due' ≡ len w + length due
  unfolding len advance
  len-advance w now due h =
      let (w', due') = advance w now due in
      omega (
        arith,
        (drain-count (λ k. true) (steps w now) 1 (w.now / w.tick) (length w.slots) w.slots due refl
            h).0,
        count-true due,
        count-true due',
        total_count-true w.slots,
        total_count-true w'.slots,
      )
