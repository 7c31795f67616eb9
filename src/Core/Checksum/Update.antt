-- ===== src/Core/Checksum/Update.antt =====
-- The incremental update against a recomputation, and the data whose checksum verifies.
use light_andromeda.Prelude.{◌/◌, ap, ℕ, ◌+◌, ◌%◌, ◌≤◌, ◌<◌, ◌≡◌, ◌↔◌, arith}
use light_andromeda.Core.Checksum.{update_dword, fold, not16, finalize, update_word}
use light_andromeda.Core.Checksum.Fold.{fold_parts}

-- A sum verifies if its one's-complement value is minus zero.
abbrev pub Verifies : ℕ → Type 0
Verifies sum = (0 < sum) × (sum % 65535 ≡ 0)

-- The checksum of data that includes its own checksum is 0 exactly if the sum verifies.
pub finalize-eq-zero_iff : (sum : ℕ) → (finalize sum ≡ 0) ↔ Verifies sum
unfolding finalize
finalize-eq-zero_iff sum = (λ h. omega (arith, fold_parts sum), λ h. omega (arith, fold_parts sum))

pub finalize-le : (sum : ℕ) → finalize sum ≤ 65535
unfolding finalize
finalize-le sum = omega arith

abbrev update_sum : ℕ → ℕ → ℕ → ℕ
update_sum c old new = not16 c + not16 old + new

-- The additions of an update do not wrap.
update_word-fold :
    (c old new : ℕ) → new ≤ 65535 → update_word c old new ≡ not16 (fold (update_sum c old new))
unfolding update_word
update_word-fold c old new hn = ap (λ k. not16 (fold k)) (omega arith)

-- The update of a checksum, modulo 65535: what is added by the new word is taken off.
pub update_word-mod :
    (c old new : ℕ)
    → c ≤ 65535
    → old ≤ 65535
    → new ≤ 65535
    → (update_word c old new + new) % 65535 ≡ (c + old) % 65535
update_word-mod c old new hc ho hn =
    omega (arith, update_word-fold c old new hn, fold_parts (update_sum c old new))

pub update_word-le : (c old new : ℕ) → update_word c old new ≤ 65535
unfolding update_word
update_word-le c old new = omega arith

-- The incremental update of the checksum of a sum gives the checksum of the changed sum, bit for
-- bit, when the changed sum is not 0.
pub update_word-finalize :
    (rest old new : ℕ)
    → old ≤ 65535
    → new ≤ 65535
    → 0 < rest + new
    → update_word (finalize (rest + old)) old new ≡ finalize (rest + new)
unfolding finalize
update_word-finalize rest old new ho hn pos =
    let c = finalize (rest + old) in
    omega (
      arith,
      update_word-fold c old new hn,
      fold_parts (update_sum c old new),
      fold_parts (rest + old),
      fold_parts (rest + new),
    )

-- A changed sum of 0 is the exception: the update gives 0, and a recomputation 0xffff.
pub update_word_zero :
    (old : ℕ) → old ≤ 65535 → (update_word (finalize old) old 0 ≡ 0) × (finalize 0 ≡ 65535)
unfolding finalize
update_word_zero old ho =
    let c = finalize old in
    (
      omega (
        arith,
        update_word-fold c old 0 (omega arith),
        fold_parts (update_sum c old 0),
        fold_parts old,
      ),
      omega (arith, fold_parts 0),
    )

-- An update keeps a verifying sum verifying, if there is anything else in it.
pub update_word-Verifies :
    (rest c old new : ℕ)
    → 0 < rest
    → c ≤ 65535
    → old ≤ 65535
    → new ≤ 65535
    → Verifies (rest + c + old)
    → Verifies (rest + update_word c old new + new)
update_word-Verifies rest c old new hr hc ho hn v =
    (omega arith, omega (arith, update_word-mod c old new hc ho hn))

pub update_dword-mod :
    (c old new : ℕ)
    → c ≤ 65535
    → old < 4294967296
    → new < 4294967296
    → (update_dword c old new + new / 65536 + new % 65536) % 65535
      ≡ (c + old / 65536 + old % 65536) % 65535
unfolding update_dword
update_dword-mod c old new hc ho hn =
    let c1 = update_word c (old / 65536) (new / 65536) in
    omega (
      arith,
      update_word-mod c (old / 65536) (new / 65536) hc (omega arith) (omega arith),
      update_word-mod c1 (old % 65536) (new % 65536) (update_word-le _ _ _) (omega arith)
          (omega arith),
    )

pub update_dword-le : (c old new : ℕ) → update_dword c old new ≤ 65535
unfolding update_dword
update_dword-le c old new = update_word-le _ _ _
