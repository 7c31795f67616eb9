-- ===== src/Core/Ipv4/Written.antt =====
-- A packet behind a header that `write_header` wrote is read back.
use light_andromeda.Prelude.{
  refl, ◌∙◌, ipv4-octets, ◌-◌, IsBytes-append, ◌++◌, ◌≤◌, length, arith, true, IsBytes, ◌^◌, ◌<◌,
  ◌≡◌, ◌+◌, Bytes, Ipv4Addr, ℕ,
}
use light_andromeda.Core.Ipv4.{ok}
use light_andromeda.Core.Checksum
use light_andromeda.Core.Checksum.Complete.{checksum-Verifies, checksum-words_sum, finalize-eq}
use light_andromeda.Core.Checksum.Update.{Verifies}
use light_andromeda.Core.Checksum.Sum.{words_sum}
use light_andromeda.Core.Ipv4
use light_andromeda.Core.Ipv4.Header.{ipv4_header, header_checksum_of}
use light_andromeda.Core.Ipv4.Rewrite.{IsSound}
use light_andromeda.Core.Ipv4.Valid.{IsParsed, parse-eq-ok_iff, checksum_valid_iff}

-- The header over a payload of the given length.
abbrev pub header_for : Ipv4Addr → Ipv4Addr → (proto ttl id flags len : ℕ) → Bytes
header_for s d proto ttl id flags len =
    ipv4_header s d proto ttl id flags (20 + len)
      (header_checksum_of s d proto ttl id flags (20 + len))

header_for-IsBytes :
    (s d proto ttl id flags total c : ℕ)
    → proto < 256
    → ttl < 256
    → IsBytes (ipv4_header s d proto ttl id flags total c)
header_for-IsBytes s d proto ttl id flags total c p t = omega arith

header_for-Verifies :
    (s d proto ttl id flags total : ℕ)
    → proto < 256
    → ttl < 256
    → Verifies (
        words_sum (
          ipv4_header s d proto ttl id flags total
            (header_checksum_of s d proto ttl id flags total)))
unfolding words_sum
header_for-Verifies s d proto ttl id flags total p t =
    let plain = ipv4_header s d proto ttl id flags total 0 in
    let value : Checksum.checksum plain ≡ 65535 - Checksum.fold (words_sum plain) =
      checksum-words_sum plain (header_for-IsBytes s d proto ttl id flags total 0 p t) (omega arith)
      ∙ finalize-eq (words_sum plain) in
    checksum-Verifies (words_sum plain) _ (omega arith) (omega (arith, value))

-- What the view reads of the packet.
pub record IsWritten (pkt : Bytes) (s d proto : ℕ) (rest : Bytes) : Type 0 where
  pub parsed : Ipv4.parse pkt ≡ ok pkt
  pub sound : IsSound pkt
  pub valid : Ipv4.checksum_valid pkt ≡ true
  pub proto_is : Ipv4.protocol pkt ≡ proto
  pub src_is : Ipv4.src pkt ≡ s
  pub dst_is : Ipv4.dst pkt ≡ d
  pub total_is : Ipv4.total_length pkt ≡ 20 + length rest
  pub ihl_is : Ipv4.ihl_bytes pkt ≡ 20
  pub payload_is : Ipv4.payload pkt ≡ rest

pub header_for-IsWritten :
    (s d proto ttl id flags : ℕ) (rest : Bytes)
    → s < 2 ^ 32
    → d < 2 ^ 32
    → proto < 256
    → ttl < 256
    → length rest ≤ 65515
    → IsBytes rest
    → IsWritten (header_for s d proto ttl id flags (length rest) ++ rest) s d proto rest
unfolding Ipv4.protocol Ipv4.src Ipv4.dst Ipv4.payload Ipv4.ihl_bytes Ipv4.total_length
header_for-IsWritten s d proto ttl id flags rest hs hd hp ht l b =
    let total = 20 + length rest in
    let c = header_checksum_of s d proto ttl id flags total in
    let pkt = header_for s d proto ttl id flags (length rest) ++ rest in
    let is_parsed : IsParsed pkt = record {
      min_len = omega arith;
      version = omega arith;
      ihl_ge = omega arith;
      ihl_le = omega arith;
      total_ge = omega arith;
    } in
    let bytes =
      IsBytes-append (header_for s d proto ttl id flags (length rest)) rest
        (header_for-IsBytes s d proto ttl id flags total c hp ht) b in
    let verifies = header_for-Verifies s d proto ttl id flags total hp ht in
    record {
      parsed = (parse-eq-ok_iff pkt).1 is_parsed;
      sound = record { parsed = is_parsed; bytes = bytes; verifies = verifies };
      valid = (checksum_valid_iff pkt bytes (omega arith)).1 verifies;
      proto_is = refl;
      src_is = ipv4-octets s hs;
      dst_is = ipv4-octets d hd;
      total_is = omega arith;
      ihl_is = refl;
      payload_is = refl;
    }
