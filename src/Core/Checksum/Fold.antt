-- ===== src/Core/Checksum/Fold.antt =====
-- `fold`: the loop ends, and gives the residue modulo 65535 that is 0 only for 0.
use light_andromeda.Prelude.{inr}
use light_andromeda.Prelude.{inl}
use light_andromeda.Prelude.{◌⊎◌}
use light_andromeda.Prelude.{
  ℕ, zero, suc, ◌+◌, ◌-◌, ◌/◌, ◌%◌, ◌≤◌, ◌<◌, ◌≡◌, ◌↔◌, refl, arith, ◌==◌, if◌then◌else◌,
}
use light_andromeda.Core.Checksum.{fold_loop, fold}

-- With the sum as fuel the loop ends by its test: nothing is left above the low 16 bits.
pub fold_loop-lt : (fuel sum : ℕ) → sum ≤ fuel → fold_loop fuel sum < 65536
unfolding fold_loop
fold_loop-lt zero sum h = omega arith
fold_loop-lt (suc fuel) sum h = ground (arith, fold_loop-lt fuel (sum % 65536 + sum / 65536))

-- 0 stays 0, and any other sum goes to the representative of its residue in 1 .. 65535.
fold_loop_residue :
    (fuel sum : ℕ)
    → sum ≤ fuel
    → fold_loop fuel sum ≡ (if sum == 0 then 0 else (sum - 1) % 65535 + 1)
unfolding fold_loop
fold_loop_residue zero sum h = ground arith
fold_loop_residue (suc fuel) sum h =
    ground (arith, fold_loop_residue fuel (sum % 65536 + sum / 65536))

-- `fold` is reduction modulo 65535, with 65535 for a multiple that is not 0 itself, and 0 for 0.
pub fold_lem : (sum : ℕ) → fold sum ≡ (if sum == 0 then 0 else (sum - 1) % 65535 + 1)
unfolding fold
fold_lem sum = ground (arith, fold_loop_residue sum sum, fold_loop-lt sum sum)

pub fold-le : (sum : ℕ) → fold sum ≤ 65535
fold-le sum = ground (arith, fold_lem sum)

-- One's-complement addition is addition modulo 65535.
pub fold-mod : (sum : ℕ) → fold sum % 65535 ≡ sum % 65535
fold-mod sum = ground (arith, fold_lem sum)

-- Zero has one representative of its own: only the sum 0 folds to it.
pub fold-pos_iff : (sum : ℕ) → (0 < fold sum) ↔ (0 < sum)
fold-pos_iff sum = (λ h. ground (arith, fold_lem sum), λ h. ground (arith, fold_lem sum))

pub fold-pos : (sum : ℕ) → 0 < sum → 0 < fold sum
fold-pos sum = (fold-pos_iff sum).1

-- What `omega` needs of a fold, in one fact.
pub fold_parts :
    (sum : ℕ)
    → (fold sum ≤ 65535)
      × (fold sum % 65535 ≡ sum % 65535)
      × ((sum ≡ 0) × (fold sum ≡ 0) ⊎ (0 < sum) × (0 < fold sum))
fold_parts sum = (fold-le sum, fold-mod sum, parts sum)
  where
    parts : (sum : ℕ) → (sum ≡ 0) × (fold sum ≡ 0) ⊎ (0 < sum) × (0 < fold sum)
    parts zero = inl (refl, ground (arith, fold_lem 0))
    parts (suc n) = inr (omega arith, fold-pos (suc n) (omega arith))
