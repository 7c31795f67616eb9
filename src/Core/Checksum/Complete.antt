-- ===== src/Core/Checksum/Complete.antt =====
-- Data that holds its own checksum in the place of a zero word verifies.
use light_andromeda.Prelude.{ap, arith, refl, ◌≤◌, ◌-◌, length, ◌+◌, ◌<◌, IsBytes, ◌≡◌, Bytes, ℕ}
use light_andromeda.Core.Checksum
use light_andromeda.Core.Checksum.Fold.{fold-mod, fold-le}
use light_andromeda.Core.Checksum.Sum.{words_sum, sum_be16-eq-words_sum}
use light_andromeda.Core.Checksum.Update.{Verifies}

-- Data with its checksum in place of a zero word verifies.
pub checksum-Verifies :
    (sum total : ℕ) → 0 < sum → total ≡ sum + (65535 - Checksum.fold sum) → Verifies total
checksum-Verifies sum total h e = (omega (arith, e), omega (arith, e, fold-mod sum, fold-le sum))

pub checksum-words_sum :
    (bytes : Bytes)
    → IsBytes bytes
    → length bytes ≤ 131070
    → Checksum.checksum bytes ≡ Checksum.finalize (words_sum bytes)
unfolding Checksum.checksum Checksum.finalize
checksum-words_sum bytes b l =
    ap (λ n. Checksum.not16 (Checksum.fold n)) (sum_be16-eq-words_sum bytes b l)

pub finalize-eq : (sum : ℕ) → Checksum.finalize sum ≡ 65535 - Checksum.fold sum
unfolding Checksum.finalize
finalize-eq sum = refl
