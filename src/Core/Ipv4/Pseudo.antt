-- ===== src/Core/Ipv4/Pseudo.antt =====
-- The pseudo-header sum of `pseudo_header_sum`, which TCP and UDP checksums cover.
use light_andromeda.Prelude.{
  ◌↔◌, arith, ◌%◌, ◌/◌, length, ◌≡◌, octets, ◌+◌, ℕ, ◌<◌, Ipv4Addr, Bytes, IsBytes,
}
use light_andromeda.Core.Ipv4.{octets, length, ℕ, pseudo_header_sum}
use light_andromeda.Core.Checksum.{accumulate, sum_from, sum_be16, finalize}
use light_andromeda.Core.Checksum.Sum.{words_sum, words_sum-le, sum_be16-eq-words_sum}
use light_andromeda.Core.Checksum.Update.{Verifies, finalize-eq-zero_iff}

-- An address as its two words.
abbrev pub halves : Ipv4Addr → ℕ
halves ip = ip / 65536 + ip % 65536

-- The words of the pseudo-header.
abbrev pub pseudo_sum : Ipv4Addr → Ipv4Addr → ℕ → ℕ → ℕ
pseudo_sum src dst proto len = halves src + halves dst + proto + len

sum-octets : (ip : Ipv4Addr) → ip < 4294967296 → sum_be16 (octets ip) ≡ halves ip
unfolding sum_be16 sum_from
sum-octets ip h = omega arith

-- The accumulator of the source does not wrap.
pub pseudo_header_sum-eq :
    (src dst : Ipv4Addr) (proto len : ℕ)
    → src < 4294967296
    → dst < 4294967296
    → proto < 256
    → len < 65536
    → pseudo_header_sum src dst proto len ≡ pseudo_sum src dst proto len
unfolding pseudo_header_sum accumulate
pseudo_header_sum-eq src dst proto len hs hd hp hl =
    omega (arith, sum-octets src hs, sum-octets dst hd)

-- The accumulator over a segment does not wrap either.
pub accumulate-segment :
    (src dst : Ipv4Addr) (proto : ℕ) (l4 : Bytes)
    → src < 4294967296
    → dst < 4294967296
    → proto < 256
    → length l4 < 65536
    → IsBytes l4
    → accumulate (pseudo_header_sum src dst proto (length l4 % 65536)) l4
      ≡ pseudo_sum src dst proto (length l4) + words_sum l4
unfolding accumulate
accumulate-segment src dst proto l4 hs hd hp hl b = omega (
  arith,
  pseudo_header_sum-eq src dst proto (length l4 % 65536) hs hd hp (omega arith),
  sum_be16-eq-words_sum l4 b (omega arith),
  words_sum-le l4 b,
)

-- What a receiver computes over a segment, its checksum included, is 0 exactly if the sum of the
-- pseudo-header and the segment verifies.
pub finalize-segment_iff :
    (src dst : Ipv4Addr) (proto : ℕ) (l4 : Bytes)
    → src < 4294967296
    → dst < 4294967296
    → proto < 256
    → length l4 < 65536
    → IsBytes l4
    → (finalize (accumulate (pseudo_header_sum src dst proto (length l4 % 65536)) l4) ≡ 0)
      ↔ Verifies (pseudo_sum src dst proto (length l4) + words_sum l4)
finalize-segment_iff src dst proto l4 hs hd hp hl b =
    rw (accumulate-segment src dst proto l4 hs hd hp hl b)
      (finalize-eq-zero_iff (pseudo_sum src dst proto (length l4) + words_sum l4))
