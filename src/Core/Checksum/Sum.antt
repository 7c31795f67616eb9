-- ===== src/Core/Checksum/Sum.antt =====
-- The sum of 16-bit words that `sum_be16` computes, without the wrap of its accumulator.
use light_andromeda.Prelude.{
  ◌%◌, ◌/◌, octets, byte_at, ℕ, zero, suc, ◌+◌, ◌*◌, ◌≤◌, ◌<◌, ◌≡◌, [], ◌∷◌, ◌++◌, arith, Bytes,
  IsBytes, be16, to_be16, be16_at, IsEven, length, write_at,
}
use light_andromeda.Core.Checksum.{u32_mod, add32, sum_from, sum_be16}

unfoldable pub words_sum : Bytes → ℕ
words_sum [] = 0
words_sum (last ∷ []) = be16 last 0
words_sum (hi ∷ lo ∷ rest) = be16 hi lo + words_sum rest

pub words_sum-le : (bytes : Bytes) → IsBytes bytes → words_sum bytes ≤ 32768 * (length bytes + 1)
unfolding words_sum
words_sum-le [] h = omega arith
words_sum-le (last ∷ []) h = omega arith
words_sum-le (hi ∷ lo ∷ rest) h = omega (arith, words_sum-le rest h.1.1)

sum_from-eq-add :
    (sum : ℕ) (bytes : Bytes)
    → sum + words_sum bytes < u32_mod
    → sum_from sum bytes ≡ sum + words_sum bytes
unfolding sum_from words_sum
sum_from-eq-add sum [] h = omega arith
sum_from-eq-add sum (last ∷ []) h = omega arith
sum_from-eq-add sum (hi ∷ lo ∷ rest) h =
    omega (arith, sum_from-eq-add (add32 sum (be16 hi lo)) rest (omega arith))

-- The accumulator does not wrap on data of up to 2 ^ 17 - 2 bytes: every IP datagram fits.
pub sum_be16-eq-words_sum :
    (bytes : Bytes) → IsBytes bytes → length bytes ≤ 131070 → sum_be16 bytes ≡ words_sum bytes
unfolding sum_be16
sum_be16-eq-words_sum bytes h l =
    omega (arith, sum_from-eq-add 0 bytes (omega (arith, words_sum-le bytes h)))

pub words_sum-append :
    (xs ys : Bytes) → IsEven (length xs) → words_sum (xs ++ ys) ≡ words_sum xs + words_sum ys
unfolding words_sum
words_sum-append [] ys e = omega arith
words_sum-append (x ∷ []) ys e = elim e [ ]
words_sum-append (hi ∷ lo ∷ rest) ys e = omega (arith, words_sum-append rest ys e)

-- Replacing the word at an even offset changes the sum by the difference of the words.
pub words_sum-write16 :
    (bytes : Bytes) (i w : ℕ)
    → IsEven i
    → suc i < length bytes
    → w < 65536
    → words_sum (write_at bytes i (to_be16 w)) + be16_at bytes i ≡ words_sum bytes + w
unfolding words_sum
words_sum-write16 [] i w e l h = absurd (omega arith)
words_sum-write16 (x ∷ []) i w e l h = absurd (omega arith)
words_sum-write16 (hi ∷ lo ∷ rest) zero w e l h = omega arith
words_sum-write16 (hi ∷ lo ∷ rest) (suc zero) w e l h = elim e [ ]
words_sum-write16 (hi ∷ lo ∷ rest) (suc (suc i)) w e l h =
    omega (arith, words_sum-write16 rest i w e (omega arith) h)

-- The same for a 32-bit field, such as an address.
pub words_sum-write32 :
    (bytes : Bytes) (i ip : ℕ)
    → IsEven i
    → i + 3 < length bytes
    → ip < 4294967296
    → words_sum (write_at bytes i (octets ip)) + be16_at bytes i + be16_at bytes (suc (suc i))
      ≡ words_sum bytes + ip / 65536 + ip % 65536
unfolding words_sum
words_sum-write32 [] i ip e l h = absurd (omega arith)
words_sum-write32 (x ∷ []) i ip e l h = absurd (omega arith)
words_sum-write32 (a ∷ b ∷ []) i ip e l h = absurd (omega arith)
words_sum-write32 (a ∷ b ∷ c ∷ []) i ip e l h = absurd (omega arith)
words_sum-write32 (a ∷ b ∷ c ∷ d ∷ rest) zero ip e l h = omega arith
words_sum-write32 (a ∷ b ∷ c ∷ d ∷ rest) (suc zero) ip e l h = elim e [ ]
words_sum-write32 (a ∷ b ∷ c ∷ d ∷ rest) (suc (suc i)) ip e l h =
    omega (arith, words_sum-write32 (c ∷ d ∷ rest) i ip e (omega arith) h)

pub byte_at-le-words_sum : (bytes : Bytes) → byte_at bytes 0 ≤ words_sum bytes
unfolding words_sum
byte_at-le-words_sum [] = omega arith
byte_at-le-words_sum (a ∷ []) = omega arith
byte_at-le-words_sum (a ∷ b ∷ rest) = omega arith
