-- ===== src/Dataplane/Spsc/Channel.antt =====
-- The ring that `channel` makes.
use light_andromeda.Prelude.{
  ◌∙◌, sym, ap, inr, ◌-◌, inl, zero, replicate, length, leb, suc, ◌+◌, ◌*◌, arith, Bool-cases, [],
  ◌^◌, ◌≤◌, ◌<◌, max, ℕ, ◌≡◌, refl,
}
use Prim.Native.Nat.{◌∣◌}
use mathlib.Core.Path.{subst}
use native.Mathlib.Nat.{pow-suc, pow-le-pow_right, dvd_refl, dvd-mul_right_of_dvd}
use light_andromeda.Dataplane.Spsc.{usize_mod, next_power, ring_capacity, channel}
use light_andromeda.Dataplane.Spsc.Fifo.{IsRing, queue}

lt_two_pow : (n : ℕ) → n < 2 ^ n
lt_two_pow zero = omega arith
lt_two_pow (suc n) = omega (arith, pow-suc 2 n, lt_two_pow n)

swap : (a b : ℕ) → a * (b * 2) ≡ a * 2 * b
swap a b = grind arith

two_pow_shift : (k fuel : ℕ) → 2 ^ k * 2 ^ suc fuel ≡ 2 ^ suc k * 2 ^ fuel
two_pow_shift k fuel =
    ap (λ m. 2 ^ k * m) (pow-suc 2 fuel)
    ∙ swap (2 ^ k) (2 ^ fuel)
    ∙ ap (λ m. m * 2 ^ fuel) (sym (pow-suc 2 k))

length-replicate {ℓ} : {T : Type ℓ} (n : ℕ) (x : T) → length (replicate n x) ≡ n
length-replicate zero x = refl
length-replicate (suc n) x = ap suc (length-replicate n x)

-- A power of two that is at least `n` and less than twice `n`.
abbrev IsCapacity : ℕ → ℕ → Type 0
IsCapacity n p = (j : ℕ) × (p ≡ 2 ^ j) × (n ≤ p) × (p < 2 * n)

-- The doublings that the fuel allows are enough.
next_power-IsCapacity :
    (fuel k n : ℕ) → n ≤ 2 ^ k * 2 ^ fuel → 2 ^ k < 2 * n → IsCapacity n (next_power fuel (2 ^ k) n)
unfolding next_power
next_power-IsCapacity zero k n h l = (k, refl, omega (arith, h), l)
next_power-IsCapacity (suc fuel) k n h l = elim (Bool-cases (leb n (2 ^ k))) [
  | inl e ↦ rw e (k, refl, ground (arith, e), l)
  | inr e ↦
      let double : 2 * 2 ^ k ≡ 2 ^ suc k = omega (arith, pow-suc 2 k) in
      let more : 2 ^ k < n = ground (arith, e) in
      let enough : n ≤ 2 ^ suc k * 2 ^ fuel = omega (arith, h, two_pow_shift k fuel) in
      let rest = next_power-IsCapacity fuel (suc k) n enough (omega (arith, double, more)) in
      rw (e, double) rest
]

ring_capacity-IsCapacity : (capacity : ℕ) → IsCapacity (max capacity 2) (ring_capacity capacity)
unfolding ring_capacity
ring_capacity-IsCapacity capacity =
    let n = max capacity 2 in
    next_power-IsCapacity n 0 n (omega (arith, lt_two_pow n)) (omega arith)

add_zero : (j : ℕ) → j ≡ j + 0
add_zero j = omega arith

add_suc : (j d : ℕ) → suc (j + d) ≡ j + suc d
add_suc j d = omega arith

two_pow_dvd : (j d : ℕ) → 2 ^ j ∣ 2 ^ (j + d)
two_pow_dvd j zero = subst (λ m. 2 ^ j ∣ 2 ^ m) (add_zero j) (dvd_refl (2 ^ j))
two_pow_dvd j (suc d) =
    let more : 2 ^ (j + d) * 2 ≡ 2 ^ (j + suc d) =
      sym (pow-suc 2 (j + d)) ∙ ap (λ m. 2 ^ m) (add_suc j d) in
    subst (λ m. 2 ^ j ∣ m) more (dvd-mul_right_of_dvd (2 ^ j) (two_pow_dvd j d) 2)

-- A power of two that a word holds divides the number of words.
word_dvd : (j : ℕ) → 2 ^ j < usize_mod → 2 ^ j ∣ usize_mod
word_dvd j h = elim (Bool-cases (leb j 64)) [
  | inl e ↦
      let d : j + (64 - j) ≡ 64 = ground (arith, e) in
      subst (λ m. 2 ^ j ∣ 2 ^ m) d (two_pow_dvd j (64 - j))
  | inr e ↦
      let big : 2 ^ 65 ≤ 2 ^ j =
        pow-le-pow_right (omega arith) {i = 65} {j = j} (ground (arith, e)) in
      absurd (omega (arith, big, h))
]

-- For a capacity of at most 2^63, `channel` gives an empty ring that is well formed, whose number of
-- slots is at least the capacity asked for and 2, and less than twice the larger of these.
pub channel-IsRing {ℓ} :
    {T : Type ℓ} (default : T) (capacity : ℕ)
    → capacity ≤ 2 ^ 63
    → let r = channel default capacity in
      IsRing default r
      × (queue default r ≡ [])
      × (max capacity 2 ≤ length r.buf)
      × (length r.buf < 2 * max capacity 2)
unfolding channel
channel-IsRing default capacity h =
    let (j, e, lo, hi) = ring_capacity-IsCapacity capacity in
    let n = ring_capacity capacity in
    let len : length (replicate n default) ≡ n = length-replicate n default in
    let small : n < usize_mod = omega (arith, hi, h) in
    (
      record {
        cap = omega (arith, len, lo);
        divides = subst (λ m. m ∣ usize_mod) (sym (len ∙ e)) (word_dvd j (omega (arith, e, small)));
        small = omega (arith, len, small);
        head = omega arith;
        tail = omega arith;
        fits = omega arith;
      },
      refl,
      omega (arith, len, lo),
      omega (arith, len, hi),
    )
