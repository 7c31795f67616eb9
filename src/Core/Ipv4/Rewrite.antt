-- ===== src/Core/Ipv4/Rewrite.antt =====
-- The incremental rewrites of the IPv4 header keep its checksum valid.
use light_andromeda.Prelude.{
  IsBytes-octets, IsBytes-to_be16, be16_at-write_ge, drop, drop-write_at, IsBytes-write_at,
  be16_at-write32, be16_at-take, be16_at-write_lt, get_or-take, byte_at-lt, length-write_at, ◌/◌,
  length-take, ◌%◌, arith, ◌∙◌, get_or-write_at_lt, take-write_at, suc, ◌*◌, ap, be16_at, to_be16,
  byte_at, octets, ◌≡◌, write_at, ◌+◌, ◌<◌, ◌≤◌, IsEven, ℕ, Bytes, IsBytes, take, length,
}
use light_andromeda.Core.Ipv4.{
  drop, protocol, total_length, be16_at, to_be16, octets, byte_at, write_at, ℕ, ihl_bytes, src, dst,
  header_checksum, set_src, set_dst,
}
use light_andromeda.Core.Checksum.{update_dword}
use light_andromeda.Core.Checksum.Sum.{
  words_sum, words_sum-write16, words_sum-write32, byte_at-le-words_sum,
}
use light_andromeda.Core.Checksum.Update.{Verifies, update_dword-mod, update_dword-le}
use light_andromeda.Core.Ipv4.Valid.{IsParsed, header_sum}

-- Replacing the address at `i` and then the checksum by its update keeps the header's sum.
rewrite_sum :
    (h : Bytes) (i new c : ℕ)
    → IsEven i
    → 12 ≤ i
    → i + 3 < length h
    → new < 4294967296
    → c ≤ 65535
    → words_sum (write_at (write_at h i (octets new)) 10 (to_be16 c))
        + be16_at h 10
        + be16_at h i
        + be16_at h (suc (suc i))
      ≡ words_sum h + new / 65536 + new % 65536 + c
rewrite_sum h i new c e lo hi hn hc = omega (
  arith,
  words_sum-write32 h i new e hi hn,
  words_sum-write16 (write_at h i (octets new)) 10 c tt
      (omega (arith, length-write_at h i (octets new))) (omega arith),
  be16_at-write_lt h i (octets new) 10 (omega arith),
)

-- The header of a rewritten buffer is the rewritten header.
take-rewrite :
    (buf : Bytes) (n i : ℕ) (new c : ℕ)
    → 12 ≤ i
    → i + 4 ≤ n
    → take n (write_at (write_at buf i (octets new)) 10 (to_be16 c))
      ≡ write_at (write_at (take n buf) i (octets new)) 10 (to_be16 c)
take-rewrite buf n i new c lo hi = rw (
  take-write_at (write_at buf i (octets new)) 10 (to_be16 c) n (omega arith),
  take-write_at buf i (octets new) n hi,
)

-- Byte 0, which holds the version, is not written.
byte_at-rewrite :
    (buf : Bytes) (i : ℕ) (new c : ℕ) (j : ℕ)
    → j < 10
    → 12 ≤ i
    → byte_at (write_at (write_at buf i (octets new)) 10 (to_be16 c)) j ≡ byte_at buf j
byte_at-rewrite buf i new c j h lo =
    get_or-write_at_lt _ 10 (to_be16 c) j 0 h
    ∙ get_or-write_at_lt buf i (octets new) j 0 (omega arith)

ihl_bytes-rewrite :
    (buf : Bytes) (i : ℕ) (new c : ℕ)
    → 12 ≤ i
    → ihl_bytes (write_at (write_at buf i (octets new)) 10 (to_be16 c)) ≡ ihl_bytes buf
unfolding ihl_bytes
ihl_bytes-rewrite buf i new c lo =
    ap (λ b. b % 16 * 4) (byte_at-rewrite buf i new c 0 (omega arith) lo)

-- The step that `set_src` and `set_dst` share: the sum of the header still verifies.
rewrite-Verifies :
    (buf : Bytes) (i old new : ℕ)
    → IsEven i
    → 12 ≤ i
    → i + 4 ≤ ihl_bytes buf
    → IsParsed buf
    → IsBytes buf
    → new < 4294967296
    → old ≡ be16_at buf i * 65536 + be16_at buf (suc (suc i))
    → Verifies (header_sum buf)
    → Verifies (
        header_sum (
          write_at
            (write_at buf i (octets new))
            10
            (to_be16 (update_dword (header_checksum buf) old new))))
unfolding header_checksum
rewrite-Verifies buf i old new e lo hi p b hn ho v =
    let n = ihl_bytes buf in
    let h = take n buf in
    let c = update_dword (be16_at buf 10) old new in
    let h' = write_at (write_at h i (octets new)) 10 (to_be16 c) in
    let lh = length-take n buf p.ihl_le in
    let w0 = byte_at-lt buf i b in
    let w1 = byte_at-lt buf (suc i) b in
    let w2 = byte_at-lt buf (suc (suc i)) b in
    let w3 = byte_at-lt buf (suc (suc (suc i))) b in
    let c0 = byte_at-lt buf 10 b in
    let c1 = byte_at-lt buf 11 b in
    let sum = rewrite_sum h i new c e lo (omega arith) hn (update_dword-le _ old new) in
    let eq = update_dword-mod (be16_at buf 10) old new (omega arith) (omega arith) hn in
    rw (ihl_bytes-rewrite buf i new c lo, take-rewrite buf n i new c lo hi)
      (
        omega (
          arith,
          p.version,
          byte_at-le-words_sum h',
          byte_at-rewrite h i new c 0 (omega arith) lo,
          get_or-take n buf 0 0 (omega arith),
        ),
        omega (
          arith,
          sum,
          eq,
          v.1,
          be16_at-take n buf 10 (omega arith),
          be16_at-take n buf i (omega arith),
          be16_at-take n buf (suc (suc i)) (omega arith),
        ),
      )

-- A packet that parses, is made of bytes, and whose header checksum verifies.
pub record IsSound (buf : Bytes) : Type 0 where
  pub parsed : IsParsed buf
  pub bytes : IsBytes buf
  pub verifies : Verifies (header_sum buf)

-- What a rewrite of the address at `i` leaves alone.
pub record Keeps (buf buf' : Bytes) : Type 0 where
  pub len : length buf' ≡ length buf
  pub ihl : ihl_bytes buf' ≡ ihl_bytes buf
  pub proto : protocol buf' ≡ protocol buf
  pub rest : drop (ihl_bytes buf) buf' ≡ drop (ihl_bytes buf) buf

pub src-eq-words : (buf : Bytes) → src buf ≡ be16_at buf 12 * 65536 + be16_at buf 14
unfolding src
src-eq-words buf = omega arith

pub dst-eq-words : (buf : Bytes) → dst buf ≡ be16_at buf 16 * 65536 + be16_at buf 18
unfolding dst
dst-eq-words buf = omega arith

rewrite-Keeps :
    (buf : Bytes) (i new c : ℕ)
    → 12 ≤ i
    → i + 4 ≤ ihl_bytes buf
    → Keeps buf (write_at (write_at buf i (octets new)) 10 (to_be16 c))
unfolding protocol
rewrite-Keeps buf i new c lo hi = record {
  len = length-write_at _ 10 (to_be16 c) ∙ length-write_at buf i (octets new);
  ihl = ihl_bytes-rewrite buf i new c lo;
  proto = byte_at-rewrite buf i new c 9 (omega arith) lo;
  rest =
      drop-write_at _ 10 (to_be16 c) (ihl_bytes buf) (omega arith)
      ∙ drop-write_at buf i (octets new) (ihl_bytes buf) hi;
}

rewrite-IsParsed :
    (buf : Bytes) (i new c : ℕ)
    → 12 ≤ i
    → i + 4 ≤ ihl_bytes buf
    → IsParsed buf
    → IsParsed (write_at (write_at buf i (octets new)) 10 (to_be16 c))
unfolding total_length
rewrite-IsParsed buf i new c lo hi p =
    let k = rewrite-Keeps buf i new c lo hi in
    let b0 = byte_at-rewrite buf i new c 0 (omega arith) lo in
    let b2 = byte_at-rewrite buf i new c 2 (omega arith) lo in
    let b3 = byte_at-rewrite buf i new c 3 (omega arith) lo in
    record {
      min_len = omega (arith, k.len, p.min_len);
      version = omega (arith, b0, p.version);
      ihl_ge = omega (arith, k.ihl, p.ihl_ge);
      ihl_le = omega (arith, k.ihl, k.len, p.ihl_le);
      total_ge = omega (arith, k.ihl, b2, b3, p.total_ge);
    }

rewrite-IsBytes :
    (buf : Bytes) (i new c : ℕ)
    → IsBytes buf
    → IsBytes (write_at (write_at buf i (octets new)) 10 (to_be16 c))
rewrite-IsBytes buf i new c b =
    IsBytes-write_at _ 10 (to_be16 c) (IsBytes-to_be16 c)
      (IsBytes-write_at buf i (octets new) (IsBytes-octets new) b)

module _ (buf : Bytes) (new : ℕ) (s : IsSound buf) (hn : new < 4294967296) where
  -- `set_src` on a sound packet with an address of 32 bits keeps the packet sound, its header checksum
  -- included, puts the address in place, and leaves the destination and the payload alone.
  pub set_src_lem :
      let buf' = (set_src buf new).0 in
      IsSound buf' × (src buf' ≡ new) × (dst buf' ≡ dst buf) × Keeps buf buf'
  unfolding set_src
  set_src_lem =
      let c = update_dword (be16_at buf 10) (src buf) new in
      let w = write_at buf 12 (octets new) in
      let ihl = s.parsed.ihl_ge in
      let le = s.parsed.ihl_le in
      let halves = be16_at-write32 buf 12 new (omega arith) hn in
      (
        record {
          parsed = rewrite-IsParsed buf 12 new c (omega arith) (omega arith) s.parsed;
          bytes = rewrite-IsBytes buf 12 new c s.bytes;
          verifies =
              rewrite-Verifies buf 12 (src buf) new tt (omega arith) (omega arith) s.parsed s.bytes
                hn (src-eq-words buf) s.verifies;
        },
        omega (
          arith,
          src-eq-words (write_at w 10 (to_be16 c)),
          be16_at-write_ge w 10 (to_be16 c) 12 (omega arith),
          be16_at-write_ge w 10 (to_be16 c) 14 (omega arith),
          halves,
        ),
        omega (
          arith,
          dst-eq-words (write_at w 10 (to_be16 c)),
          dst-eq-words buf,
          be16_at-write_ge w 10 (to_be16 c) 16 (omega arith),
          be16_at-write_ge w 10 (to_be16 c) 18 (omega arith),
          be16_at-write_ge buf 12 (octets new) 16 (omega arith),
          be16_at-write_ge buf 12 (octets new) 18 (omega arith),
        ),
        rewrite-Keeps buf 12 new c (omega arith) (omega arith),
      )

  -- `set_dst` on a sound packet with an address of 32 bits keeps the packet sound, its header checksum
  -- included, puts the address in place, and leaves the source and the payload alone.
  pub set_dst_lem :
      let buf' = (set_dst buf new).0 in
      IsSound buf' × (dst buf' ≡ new) × (src buf' ≡ src buf) × Keeps buf buf'
  unfolding set_dst
  set_dst_lem =
      let c = update_dword (be16_at buf 10) (dst buf) new in
      let w = write_at buf 16 (octets new) in
      let ihl = s.parsed.ihl_ge in
      let le = s.parsed.ihl_le in
      let halves = be16_at-write32 buf 16 new (omega arith) hn in
      (
        record {
          parsed = rewrite-IsParsed buf 16 new c (omega arith) (omega arith) s.parsed;
          bytes = rewrite-IsBytes buf 16 new c s.bytes;
          verifies =
              rewrite-Verifies buf 16 (dst buf) new tt (omega arith) (omega arith) s.parsed s.bytes
                hn (dst-eq-words buf) s.verifies;
        },
        omega (
          arith,
          dst-eq-words (write_at w 10 (to_be16 c)),
          be16_at-write_ge w 10 (to_be16 c) 16 (omega arith),
          be16_at-write_ge w 10 (to_be16 c) 18 (omega arith),
          halves,
        ),
        omega (
          arith,
          src-eq-words (write_at w 10 (to_be16 c)),
          src-eq-words buf,
          be16_at-write_ge w 10 (to_be16 c) 12 (omega arith),
          be16_at-write_ge w 10 (to_be16 c) 14 (omega arith),
          be16_at-write_lt buf 16 (octets new) 12 (omega arith),
          be16_at-write_lt buf 16 (octets new) 14 (omega arith),
        ),
        rewrite-Keeps buf 16 new c (omega arith) (omega arith),
      )
