-- ===== src/Core/Tests.antt =====
-- Packets and buffers on which the theorems of the core are applied.
use light_andromeda.Prelude.{
  some, [], ◌++◌, ◌∷◌, refl, take, Bytes, ◌+◌, replicate, true, length, ◌≡◌, arith,
}
use light_andromeda.Core.Checksum.{finalize, update_word}
use light_andromeda.Core.Checksum.Sum.{words_sum}
use light_andromeda.Core.Checksum.Update.{update_word-finalize, update_word_zero}
use light_andromeda.Core.Ipv4.Valid.{IsParsed, parse-eq-ok_iff}
use light_andromeda.Core.Ipv4.Rewrite.{IsSound}
use light_andromeda.Core.Ipv4
use light_andromeda.Core.Ipv4.{
  src, dst, set_src, set_dst, checksum_valid, pseudo_header_sum, ihl_bytes, total_length,
}
use light_andromeda.Core.Errors.{ok}
use light_andromeda.Core.Overlay.{EncapParams, new, encode, decode, encap, decap}
use light_andromeda.Core.Overlay.Header.{decode-encode, new-IsHeader}
use light_andromeda.Core.Overlay.RoundTrip.{decapsulated, decap-encap}

-- 10.0.0.1 to 10.0.0.2, three bytes of UDP data.
abbrev packet : Bytes
packet =
    69 ∷ 0 ∷ 0 ∷ 31 ∷ 0 ∷ 1 ∷ 64 ∷ 0 ∷ 64 ∷ 17 ∷ 38 ∷ 203 ∷ 10 ∷ 0 ∷ 0 ∷ 1 ∷ 10 ∷ 0 ∷ 0 ∷ 2 ∷ 4
    ∷ 210 ∷ 0 ∷ 53 ∷ 0 ∷ 11 ∷ 226 ∷ 204 ∷ 1 ∷ 2 ∷ 3 ∷ []

abbrev segment : Bytes
segment = 4 ∷ 210 ∷ 0 ∷ 53 ∷ 0 ∷ 11 ∷ 226 ∷ 204 ∷ 1 ∷ 2 ∷ 3 ∷ []

packet-IsParsed : IsParsed packet
unfolding Ipv4.parse
packet-IsParsed = (parse-eq-ok_iff packet).0 refl

packet-IsSound : IsSound packet
unfolding words_sum ihl_bytes
packet-IsSound = record { parsed = packet-IsParsed; bytes = omega arith; verifies = omega arith }

update_word-finalize_example : update_word (finalize (300 + 7)) 7 65535 ≡ finalize (300 + 65535)
update_word-finalize_example =
    update_word-finalize 300 7 65535 (omega arith) (omega arith) (omega arith)

update_word_zero_example : (update_word (finalize 65535) 65535 0 ≡ 0) × (finalize 0 ≡ 65535)
update_word_zero_example = update_word_zero 65535 (omega arith)

decode-encode_example :
    decode (encode (new 4660 777) (replicate 8 255) ++ 1 ∷ 2 ∷ []) ≡ ok (new 4660 777)
decode-encode_example =
    decode-encode (new 4660 777) (replicate 8 255) (1 ∷ 2 ∷ [])
      (new-IsHeader 4660 777 (omega arith)) refl

abbrev params : EncapParams
params = record {
  outer_src_mac = record { b0 = 2; b1 = 0; b2 = 0; b3 = 0; b4 = 0; b5 = 1 };
  outer_dst_mac = record { b0 = 2; b1 = 0; b2 = 0; b3 = 0; b4 = 0; b5 = 2 };
  outer_src_ip = 3232235777;
  outer_dst_ip = 3232235778;
  vni = 4660;
  flow_hash = 777;
  ip_id = 9;
  outer_udp_checksum = true;
}

decap-encap_example :
    let (out', written) = encap (replicate 64 255) segment params in
    (written ≡ ok (50 + length segment))
    × (decap (take (50 + length segment) out') ≡ ok (some (decapsulated params segment)))
decap-encap_example =
    decap-encap (replicate 64 255) segment params
      (record { src = omega arith; dst = omega arith; flow_hash = omega arith }) (omega arith)
      (omega arith)
