-- ===== src/Dataplane/Spsc.antt =====
-- crates/andromeda-dataplane/src/spsc.rs: the single-producer, single-consumer ring. Indices are
-- `usize`, of 64 bits, and wrap.
pub mod Fifo
pub mod Channel
pub mod Schedule
use light_andromeda.Prelude.{
  ℕ, zero, suc, ◌+◌, ◌-◌, ◌*◌, ◌%◌, ◌^◌, max, List, Option, none, some, length, get_or, set,
  replicate, leb, ◌==◌, if◌then◌else◌,
}

abbrev pub usize_mod : ℕ
usize_mod = 2 ^ 64

pub record Ring {ℓ} (T : Type ℓ) : Type ℓ where
  pub buf : List T
  pub mask : ℕ
  pub head : ℕ
  pub tail : ℕ

-- `next_power_of_two`: doublings of `p` until it reaches `n`.
unfoldable pub next_power : (fuel p n : ℕ) → ℕ
next_power zero p n = p
next_power (suc fuel) p n = let rest = next_power fuel (2 * p) n in if leb n p then p else rest

-- The capacity that `channel` makes of the one asked for: `n` doublings reach `n`.
unfoldable pub ring_capacity : ℕ → ℕ
unfolding next_power
ring_capacity capacity = let n = max capacity 2 in next_power n 1 n

module _ {ℓ} {T : Type ℓ} (default : T) where
  unfoldable pub channel : ℕ → Ring T
  unfolding ring_capacity
  channel capacity =
      let cap = ring_capacity capacity in
      record { buf = replicate cap default; mask = cap - 1; head = 0; tail = 0 }

  -- `i & mask`, for a mask of ones.
  abbrev pub slot : Ring T → ℕ → ℕ
  slot r i = i % (r.mask + 1)

  -- `a.wrapping_sub(b)`
  abbrev pub wrapping_sub : ℕ → ℕ → ℕ
  wrapping_sub a b = (a + usize_mod - b) % usize_mod

  -- The ring, and whether the value was taken.
  unfoldable pub push : Ring T → T → Ring T × Option T
  push r val =
      if wrapping_sub r.tail r.head == length r.buf
      then (r, some val)
      else (record r { buf = set r.buf (slot r r.tail) val; tail = (r.tail + 1) % usize_mod }, none)

  unfoldable pub pop : Ring T → Ring T × Option T
  pop r = if r.head == r.tail then (r, none) else (
    record r { head = (r.head + 1) % usize_mod },
    some (get_or r.buf (slot r r.head) default),
  )
