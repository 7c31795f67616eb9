-- ===== src/Nat/TimingWheel/Delivery.antt =====
-- What `TimingWheel::advance` delivers: an entry whose deadline has come.
use light_andromeda.Prelude.{
  inr, inl, ℕ, zero, suc, ◌+◌, ◌-◌, ◌/◌, ◌%◌, ◌≤◌, ◌<◌, ◌≡◌, ◌≢◌, List, [], ◌∷◌, ◌++◌, length,
  get_or, set, refl, ap, sym, ◌∙◌, arith, length-set, get_or-set_ne, get_or-set_self,
}
use mathlib.Core.List.{Mem, mem-append_left, mem-append_right}
use mathlib.Core.List.Memᴰ
use mathlib.Core.Path.{subst}
use native.Mathlib.Nat.{mod-le, add-mod-mod, mod-lt}
use light_andromeda.Nat.TimingWheel.{TimingWheel, u64_mod, insert, drain, steps, advance}
use light_andromeda.Nat.TimingWheel.Conserved.{eq-or-ne}

module _ {ℓ} {K : Type ℓ} where
  drain-due :
      (count s last n : ℕ) (slots : List (List K)) (due : List K) (k : K)
      → Mem k due
      → Mem k (drain count s last n slots due).1
  unfolding drain
  drain-due zero s last n slots due k m = m
  drain-due (suc count) s last n slots due k m =
      let b = (last + s) % u64_mod % n in
      drain-due count (s + 1) last n (set slots b []) (due ++ get_or slots b []) k
        (mem-append_left (get_or slots b []) m)

  drain-bucket :
      (count s last n t : ℕ) (slots : List (List K)) (due : List K) (k : K)
      → s ≤ t
      → t < s + count
      → Mem k (get_or slots ((last + t) % u64_mod % n) [])
      → Mem k (drain count s last n slots due).1
  unfolding drain
  drain-bucket zero s last n t slots due k a c m = absurd (omega arith)
  drain-bucket (suc count) s last n t slots due k a c m =
      let b = (last + s) % u64_mod % n in
      let b' = (last + t) % u64_mod % n in
      let got = get_or slots b [] in
      elim (eq-or-ne b b') [
        | inl e ↦
            drain-due count (s + 1) last n (set slots b []) (due ++ got) k
              (mem-append_right due (subst (λ i. Mem k (get_or slots i [])) (sym e) m))
        | inr h ↦
            drain-bucket count (s + 1) last n t (set slots b []) (due ++ got) k (next h)
              (omega arith) (subst (λ xs. Mem k xs) (sym (get_or-set_ne slots b b' [] [] h)) m)
      ]
    where
      next : (last + s) % u64_mod % n ≢ (last + t) % u64_mod % n → s + 1 ≤ t
      next h = elim (eq-or-ne s t) [
        | inl e ↦ absurd (h (ap (λ x. (last + x) % u64_mod % n) e))
        | inr g ↦ omega (arith, g)
      ]

  -- An entry that `insert` puts into the wheel with a deadline in a later tick than the wheel's time
  -- is delivered by an `advance` to any time at or after that deadline's tick.
  pub advance-insert :
      (w : TimingWheel K) (key : K) (deadline now : ℕ) (due : List K)
      → 0 < length w.slots
      → w.now / w.tick < deadline / w.tick
      → deadline / w.tick ≤ now / w.tick
      → now / w.tick < u64_mod
      → Mem key (advance (insert w key deadline) now due).1
  unfolding advance insert
  advance-insert w key deadline now due h a b c =
      let n = length w.slots in
      let last = w.now / w.tick in
      let d = deadline / w.tick in
      let bucket = d % n in
      let filled = get_or w.slots bucket [] ++ key ∷ [] in
      let slots = set w.slots bucket filled in
      let l : length slots ≡ n = length-set w.slots bucket filled in
      let r = (d - last - 1) % n in
      let r_lt = mod-lt (d - last - 1) h in
      let r_le = mod-le (d - last - 1) n in
      let e1 : (last + (r + 1)) % u64_mod ≡ last + 1 + r = omega (arith, r_le, a, b, c) in
      let e2 : last + 1 + (d - last - 1) ≡ d = omega (arith, a) in
      let here : (last + (r + 1)) % u64_mod % length slots ≡ bucket =
        ap (λ x. x % length slots) e1
        ∙ ap (λ m. (last + 1 + r) % m) l
        ∙ add-mod-mod (last + 1) (d - last - 1) n
        ∙ ap (λ x. x % n) e2 in
      let got : get_or slots bucket [] ≡ filled =
        get_or-set_self w.slots bucket filled [] (mod-lt d h) in
      drain-bucket (steps (insert w key deadline) now) 1 last (length slots) (r + 1) slots due key
        (omega arith) (omega (arith, l, r_le, r_lt, a, b, c))
        (subst (λ i. Mem key (get_or slots i [])) (sym here)
          (subst (λ xs. Mem key xs) (sym got)
            (mem-append_right (get_or w.slots bucket []) ∣ Memᴰ.head refl ∣₁)))
