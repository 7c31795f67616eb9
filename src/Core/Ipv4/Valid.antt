-- ===== src/Core/Ipv4/Valid.antt =====
-- Packets that `Ipv4View::parse` accepts and whose header checksum verifies.
use light_andromeda.Prelude.{
  ◌/◌, byte_at, arith, ◌↔◌, ℕ, ◌≤◌, ◌≡◌, Bytes, IsBytes, take, length, IsBytes-take, length-take,
  true, ==_iff,
}
use light_andromeda.Core.Ipv4.{byte_at, ℕ, ihl_bytes, total_length, parse, checksum_valid}
use light_andromeda.Core.Checksum
use light_andromeda.Core.Checksum.Sum.{words_sum, sum_be16-eq-words_sum}
use light_andromeda.Core.Checksum.Update.{Verifies, finalize-eq-zero_iff}
use light_andromeda.Core.Errors.{ok}

-- What a successful parse establishes.
pub record IsParsed (buf : Bytes) : Type 0 where
  pub min_len : 20 ≤ length buf
  pub version : byte_at buf 0 / 16 ≡ 4
  pub ihl_ge : 20 ≤ ihl_bytes buf
  pub ihl_le : ihl_bytes buf ≤ length buf
  pub total_ge : ihl_bytes buf ≤ total_length buf

-- `parse` accepts exactly the buffers with these fields, and returns the buffer itself.
pub parse-eq-ok_iff : (buf : Bytes) → (parse buf ≡ ok buf) ↔ IsParsed buf
unfolding parse
parse-eq-ok_iff buf = (λ h. ground arith, λ h. ground arith)

pub IsParsed-parse : {buf v : Bytes} → parse buf ≡ ok v → IsParsed buf × (v ≡ buf)
unfolding parse
IsParsed-parse h = ground arith

-- The words that the header checksum covers.
abbrev pub header_sum : Bytes → ℕ
header_sum buf = words_sum (take (ihl_bytes buf) buf)

pub ihl_bytes-le : (buf : Bytes) → ihl_bytes buf ≤ 60
unfolding ihl_bytes
ihl_bytes-le buf = omega arith

-- `checksum_valid` is the test of the RFC: the one's-complement sum of the header is minus zero.
pub checksum_valid_iff :
    (buf : Bytes)
    → IsBytes buf
    → ihl_bytes buf ≤ length buf
    → (checksum_valid buf ≡ true) ↔ Verifies (header_sum buf)
unfolding checksum_valid Checksum.checksum Checksum.finalize
checksum_valid_iff buf h l =
    let n = ihl_bytes buf in
    let sum =
      sum_be16-eq-words_sum (take n buf) (IsBytes-take n buf h)
        (omega (arith, length-take n buf l, ihl_bytes-le buf)) in
    rw sum (
      λ e. (finalize-eq-zero_iff (header_sum buf)).0 ((==_iff _ _).0 e),
      λ v. (==_iff _ _).1 ((finalize-eq-zero_iff (header_sum buf)).1 v),
    )
