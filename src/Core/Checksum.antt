-- ===== src/Core/Checksum.antt =====
-- crates/andromeda-core/src/checksum.rs: the Internet checksum (RFC 1071) and its incremental
-- update (RFC 1624). The accumulator is a `u32`, so its additions are taken `% 2 ^ 32`; the
-- complement of a `u16` w is 65535 - w.
pub mod Fold
pub mod Sum
pub mod Update
pub mod Complete
use light_andromeda.Prelude.{
  ℕ, zero, suc, ◌+◌, ◌-◌, ◌/◌, ◌%◌, ◌^◌, List, [], ◌∷◌, Bytes, be16, ◌==◌, if◌then◌else◌,
}

abbrev pub u32_mod : ℕ
u32_mod = 2 ^ 32

-- `a.wrapping_add(b)` on `u32`.
abbrev pub add32 : ℕ → ℕ → ℕ
add32 a b = (a + b) % u32_mod

-- `!w` on `u16`.
abbrev pub not16 : ℕ → ℕ
not16 w = 65535 - w

-- The loop of `sum_be16` from the accumulator on; a trailing odd byte is a high byte.
unfoldable pub sum_from : ℕ → Bytes → ℕ
sum_from sum [] = sum
sum_from sum (last ∷ []) = add32 sum (be16 last 0)
sum_from sum (hi ∷ lo ∷ rest) = sum_from (add32 sum (be16 hi lo)) rest

unfoldable pub sum_be16 : Bytes → ℕ
sum_be16 bytes = sum_from 0 bytes

-- `while (sum >> 16) != 0`. Each round makes the sum smaller, so the sum itself is fuel enough
-- (`Fold.fold_loop-lt`).
unfoldable pub fold_loop : ℕ → ℕ → ℕ
fold_loop zero sum = sum
fold_loop (suc fuel) sum =
    let rest = fold_loop fuel (sum % 65536 + sum / 65536) in if sum / 65536 == 0 then sum else rest

unfoldable pub fold : ℕ → ℕ
unfolding fold_loop
fold sum = fold_loop sum sum % 65536

unfoldable pub checksum : Bytes → ℕ
checksum bytes = not16 (fold (sum_be16 bytes))

unfoldable pub accumulate : ℕ → Bytes → ℕ
accumulate acc bytes = add32 acc (sum_be16 bytes)

unfoldable pub finalize : ℕ → ℕ
finalize acc = not16 (fold acc)

-- RFC 1624: HC' = ~(~HC + ~m + m').
unfoldable pub update_word : ℕ → ℕ → ℕ → ℕ
update_word old_check old new = not16 (fold (add32 (add32 (not16 old_check) (not16 old)) new))

-- The two halves of a 32-bit field.
unfoldable pub update_dword : ℕ → ℕ → ℕ → ℕ
update_dword old_check old new =
    let c = update_word old_check (old / 65536) (new / 65536) in
    update_word c (old % 65536) (new % 65536)
