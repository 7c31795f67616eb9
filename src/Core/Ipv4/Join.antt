-- ===== src/Core/Ipv4/Join.antt =====
-- A sound packet whose payload is replaced by another of the same length.
use light_andromeda.Prelude.{
  get_or-take, ◌∙◌, get_or-append_lt, length-append, be16_at, byte_at, length-take, ◌*◌,
  IsBytes-take, suc, take-append, ◌%◌, ◌<◌, ◌+◌, drop-append, arith, ◌++◌, length, ℕ,
  IsBytes-append, ◌≡◌, Bytes, IsBytes, ap, take, drop,
}
use light_andromeda.Core.Ipv4.{
  be16_at, byte_at, length, ℕ, ihl_bytes, total_length, protocol, src, dst,
}
use light_andromeda.Core.Ipv4.Valid.{IsParsed}
use light_andromeda.Core.Ipv4.Rewrite.{IsSound, src-eq-words, dst-eq-words}

-- The header of `pkt`, and then `l4`.
abbrev pub join : Bytes → Bytes → Bytes
join pkt l4 = take (ihl_bytes pkt) pkt ++ l4

module _ (pkt l4 : Bytes) (p : IsParsed pkt) where
  byte_at-join : (i : ℕ) → i < ihl_bytes pkt → byte_at (join pkt l4) i ≡ byte_at pkt i
  byte_at-join i h =
      let n = ihl_bytes pkt in
      get_or-append_lt (take n pkt) l4 i 0 (omega (arith, length-take n pkt p.ihl_le))
      ∙ get_or-take n pkt i 0 h

  be16_at-join : (i : ℕ) → suc i < ihl_bytes pkt → be16_at (join pkt l4) i ≡ be16_at pkt i
  be16_at-join i h = omega (arith, byte_at-join i (omega arith), byte_at-join (suc i) h)

  pub ihl_bytes-join : ihl_bytes (join pkt l4) ≡ ihl_bytes pkt
  unfolding ihl_bytes
  ihl_bytes-join = ap (λ b. b % 16 * 4) (byte_at-join 0 (omega (arith, p.ihl_ge)))

  pub protocol-join : protocol (join pkt l4) ≡ protocol pkt
  unfolding protocol
  protocol-join = byte_at-join 9 (omega (arith, p.ihl_ge))

  pub src-join : src (join pkt l4) ≡ src pkt
  src-join = omega (
    arith,
    src-eq-words pkt,
    src-eq-words (join pkt l4),
    be16_at-join 12 (omega (arith, p.ihl_ge)),
    be16_at-join 14 (omega (arith, p.ihl_ge)),
  )

  pub dst-join : dst (join pkt l4) ≡ dst pkt
  dst-join = omega (
    arith,
    dst-eq-words pkt,
    dst-eq-words (join pkt l4),
    be16_at-join 16 (omega (arith, p.ihl_ge)),
    be16_at-join 18 (omega (arith, p.ihl_ge)),
  )

  pub take-join : take (ihl_bytes pkt) (join pkt l4) ≡ take (ihl_bytes pkt) pkt
  take-join = take-append _ l4 (ihl_bytes pkt) (length-take (ihl_bytes pkt) pkt p.ihl_le)

  pub drop-join : drop (ihl_bytes pkt) (join pkt l4) ≡ l4
  drop-join = drop-append _ l4 (ihl_bytes pkt) (length-take (ihl_bytes pkt) pkt p.ihl_le)

  pub length-join : length (join pkt l4) ≡ ihl_bytes pkt + length l4
  length-join =
      omega (
        arith,
        length-append (take (ihl_bytes pkt) pkt) l4,
        length-take (ihl_bytes pkt) pkt p.ihl_le,
      )

  IsParsed-join : IsParsed (join pkt l4)
  unfolding total_length
  IsParsed-join = record {
    min_len = omega (arith, length-join, p.ihl_ge);
    version = omega (arith, byte_at-join 0 (omega (arith, p.ihl_ge)), p.version);
    ihl_ge = omega (arith, ihl_bytes-join, p.ihl_ge);
    ihl_le = omega (arith, ihl_bytes-join, length-join);
    total_ge = omega (arith, ihl_bytes-join, be16_at-join 2 (omega (arith, p.ihl_ge)), p.total_ge);
  }

pub IsSound-join : (pkt l4 : Bytes) → IsSound pkt → IsBytes l4 → IsSound (join pkt l4)
IsSound-join pkt l4 s b = record {
  parsed = IsParsed-join pkt l4 s.parsed;
  bytes = IsBytes-append _ l4 (IsBytes-take (ihl_bytes pkt) pkt s.bytes) b;
  verifies = rw (ihl_bytes-join pkt l4 s.parsed, take-join pkt l4 s.parsed) (s.verifies);
}
