-- ===== src/Nat/TimingWheel.antt =====
-- crates/andromeda-nat/src/timing_wheel.rs: a hashed timing wheel. Times and ticks are `u64`.
pub mod Delivery
pub mod Conserved
use light_andromeda.Prelude.{
  ℕ, zero, suc, ◌+◌, ◌-◌, ◌/◌, ◌%◌, ◌^◌, min, List, [], ◌∷◌, ◌++◌, Option, none, some, length,
  get_or, set, replicate, Bool, ◌||◌, ◌&&◌, true, ◌==◌, if◌then◌else◌,
}

abbrev pub u64_mod : ℕ
u64_mod = 2 ^ 64

pub record TimingWheel {ℓ} (K : Type ℓ) : Type ℓ where
  pub slots : List (List K)
  pub tick : ℕ
  pub now : ℕ

module _ {ℓ} {K : Type ℓ} where
  -- `slots` buckets of `tick` time units; the two assertions fail as `none`.
  unfoldable pub new : (tick slots : ℕ) → Option (TimingWheel K)
  new tick slots =
      if tick == 0 || slots == 0
      then none
      else some (record { slots = replicate slots []; tick = tick; now = 0 })

  abbrev pub bucket_of : TimingWheel K → ℕ → ℕ
  bucket_of w deadline = deadline / w.tick % length w.slots

  unfoldable pub insert : TimingWheel K → K → ℕ → TimingWheel K
  insert w key deadline =
      let b = bucket_of w deadline in
      record w { slots = set w.slots b (get_or w.slots b [] ++ key ∷ []) }

  -- The loop `for s in 1..=steps` with `count` rounds left: bucket `(last + s) % n` moves to `due`.
  unfoldable pub drain : (count s last n : ℕ) → List (List K) → List K → List (List K) × List K
  drain zero s last n slots due = (slots, due)
  drain (suc count) s last n slots due =
      let b = (last + s) % u64_mod % n in
      drain count (s + 1) last n (set slots b []) (due ++ get_or slots b [])

  -- How many buckets `advance` drains: `cur_tick.wrapping_sub(last_tick).min(n)`.
  abbrev pub steps : TimingWheel K → ℕ → ℕ
  steps w now = min ((now / w.tick + u64_mod - w.now / w.tick) % u64_mod) (length w.slots)

  unfoldable pub advance : TimingWheel K → ℕ → List K → TimingWheel K × List K
  unfolding drain
  advance w now due =
      let (slots, due') = drain (steps w now) 1 (w.now / w.tick) (length w.slots) w.slots due in
      (record w { slots = slots; now = now }, due')

  -- The number of entries in all the buckets.
  unfoldable pub total : List (List K) → ℕ
  total [] = 0
  total (s ∷ ss) = length s + total ss

  -- `len`
  unfoldable pub len : TimingWheel K → ℕ
  unfolding total
  len w = total w.slots

  unfoldable pub all_empty : List (List K) → Bool
  all_empty [] = true
  all_empty (s ∷ ss) = (length s == 0) && all_empty ss

  unfoldable pub is_empty : TimingWheel K → Bool
  unfolding all_empty
  is_empty w = all_empty w.slots
