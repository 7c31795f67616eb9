-- ===== src/Cli/Frames/Built.antt =====
-- The frames that are made up are sound: they parse, and their checksums verify.
use light_andromeda.Prelude.{
  le→ltb_false, drop, some, sym, IsBytes-append, IsBytes, ◌^◌, ◌<◌, true, refl, zero, ap, suc, ◌+◌,
  ◌≤◌, ◌++◌, copy_over, length, replicate, ◌≡◌, ℕ, Bytes, [], ◌∷◌, ◌%◌, arith,
}
use light_andromeda.Core.FiveTuple.{ports_of, five_tuple_of}
use light_andromeda.Core.Checksum.Fold.{fold-pos, fold-le, fold-mod}
use light_andromeda.Core.Ipv4.Pseudo.{accumulate-segment, pseudo_sum}
use light_andromeda.Core.Checksum.Complete.{finalize-eq}
use light_andromeda.Core.Checksum.Update.{Verifies}
use light_andromeda.Core.Checksum.Sum.{words_sum}
use light_andromeda.Cli.Frames.{datagram, packet, frame, udp_frame, frame_dst, frame_src}
use light_andromeda.Core.Checksum
use light_andromeda.Core.Errors.{ok}
use light_andromeda.Core.Ethernet
use light_andromeda.Core.Ethernet.Header.{eth_header, parse-write_header}
use light_andromeda.Core.Ipv4
use light_andromeda.Core.Ipv4.Header.{ipv4_header}
use light_andromeda.Core.Ipv4.Written.{header_for, header_for-IsWritten, IsWritten}
use light_andromeda.Core.Udp
use light_andromeda.Core.Udp.Header.{udp_header}

replicate-add : (n m x : ℕ) → replicate (n + m) x ≡ replicate n x ++ replicate m x
replicate-add zero m x = let e : zero + m ≡ m = omega arith in rw e refl
replicate-add (suc n) m x =
    let e : suc n + m ≡ suc (n + m) = omega arith in rw e (ap (◌∷◌ x) (replicate-add n m x))

length-replicate : (n x : ℕ) → length (replicate n x) ≡ n
length-replicate zero x = refl
length-replicate (suc n) x = ap suc (length-replicate n x)

-- A copy over as many bytes.
copy_over-whole : (src xs : Bytes) → length src ≡ length xs → copy_over src xs ≡ src
copy_over-whole [] [] e = refl
copy_over-whole [] (x ∷ xs) e = absurd (omega arith)
copy_over-whole (b ∷ bs) [] e = absurd (omega arith)
copy_over-whole (b ∷ bs) (x ∷ xs) e = ap (◌∷◌ b) (copy_over-whole bs xs (omega arith))

-- The checksum that is sent.
abbrev sent : (src dst sp dp : ℕ) → Bytes → ℕ
sent src dst sp dp payload =
    Udp.compute_checksum src dst (udp_header sp dp (8 + length payload) 0 ++ payload)

datagram-eq :
    (src dst sp dp : ℕ) (payload : Bytes)
    → length payload ≤ 65507
    → datagram src dst sp dp payload
      ≡ udp_header sp dp (8 + length payload) (sent src dst sp dp payload) ++ payload
unfolding datagram Udp.write_header
datagram-eq src dst sp dp payload l =
    let n = length payload in
    let len : (8 + n % 65536) % 65536 ≡ 8 + n = omega arith in
    let zeros = replicate n 0 in
    let whole : copy_over payload zeros ≡ payload =
      copy_over-whole payload zeros (omega (arith, length-replicate n 0)) in
    rw (datagram, replicate-add 8 n 0, len, whole) refl

packet-eq :
    (src dst : ℕ) (dg : Bytes)
    → length dg ≤ 65515
    → packet src dst dg ≡ header_for src dst 17 64 1 0x4000 (length dg) ++ dg
unfolding packet
packet-eq src dst dg l =
    let n = length dg in
    let total : (20 + n % 65536) % 65536 ≡ 20 + n = omega arith in
    let zeros = replicate n 0 in
    let whole : copy_over dg zeros ≡ dg =
      copy_over-whole dg zeros (omega (arith, length-replicate n 0)) in
    let header =
      Ipv4.Header.write_header-eq (replicate 20 0) src dst 17 64 1 true (n % 65536) refl in
    rw (packet, replicate-add 20 n 0, header, total, whole) refl

frame-eq : (ip : Bytes) → frame ip ≡ eth_header frame_dst frame_src 0x0800 ++ ip
unfolding frame Ethernet.write_header
frame-eq ip =
    let n = length ip in
    let zeros = replicate n 0 in
    let whole : copy_over ip zeros ≡ ip =
      copy_over-whole ip zeros (omega (arith, length-replicate n 0)) in
    rw (frame, replicate-add 14 n 0, whole) refl

-- A checksum of 0 is sent as 0xffff, and the sum verifies with either.
sent-Verifies :
    (sum c total : ℕ)
    → 0 < sum
    → Udp.sent_checksum (Checksum.finalize sum) ≡ c
    → total ≡ sum + c
    → (0 < c) × (c < 65536) × Verifies total
unfolding Udp.sent_checksum
sent-Verifies sum c total h e t =
    let value = finalize-eq sum in ground (arith, value, fold-mod sum, fold-le sum, fold-pos sum h)

datagram-Verifies :
    (src dst sp dp : ℕ) (payload : Bytes)
    → src < 2 ^ 32
    → dst < 2 ^ 32
    → length payload ≤ 65507
    → IsBytes payload
    → let dg = datagram src dst sp dp payload in
      (0 < Udp.checksum_field dg) × Verifies (pseudo_sum src dst 17 (length dg) + words_sum dg)
unfolding words_sum Udp.checksum_field Udp.compute_checksum
datagram-Verifies src dst sp dp payload hs hd l b =
    let n = length payload in
    let plain = udp_header sp dp (8 + n) 0 ++ payload in
    let c = sent src dst sp dp payload in
    let sum = pseudo_sum src dst 17 (length plain) + words_sum plain in
    let bytes : IsBytes plain =
      IsBytes-append (udp_header sp dp (8 + n) 0) payload (omega arith) b in
    let acc = accumulate-segment src dst 17 plain hs hd (omega arith) (omega arith) bytes in
    let e : Udp.sent_checksum (Checksum.finalize sum) ≡ c =
      ap (λ a. Udp.sent_checksum (Checksum.finalize a)) (sym acc) in
    let (pos, lt, v) = sent-Verifies sum c (sum + c) (omega arith) e refl in
    rw (datagram-eq src dst sp dp payload l)
      (omega (arith, pos, lt), (omega arith, omega (arith, v, lt)))

ports_of-udp :
    (l4 : Bytes) (sp dp : ℕ)
    → 8 ≤ length l4
    → Udp.src_port l4 ≡ sp
    → Udp.dst_port l4 ≡ dp
    → ports_of 17 l4 ≡ some (sp, dp)
unfolding ports_of Udp.parse
ports_of-udp l4 sp dp l s d = rw (ports_of, le→ltb_false (length l4) 8 l, s, d) refl

-- The ports are read back.
datagram-ports :
    (src dst sp dp : ℕ) (payload : Bytes)
    → sp < 65536
    → dp < 65536
    → length payload ≤ 65507
    → ports_of 17 (datagram src dst sp dp payload) ≡ some (sp, dp)
unfolding Udp.src_port Udp.dst_port
datagram-ports src dst sp dp payload hsp hdp l =
    rw (datagram-eq src dst sp dp payload l)
      (ports_of-udp _ sp dp (omega arith) (omega arith) (omega arith))

five_tuple_of-IsWritten :
    (pkt dg : Bytes) (src dst sp dp : ℕ)
    → IsWritten pkt src dst 17 dg
    → ports_of 17 dg ≡ some (sp, dp)
    → five_tuple_of pkt
      ≡ some (record { src_ip = src; dst_ip = dst; src_port = sp; dst_port = dp; protocol = 17 })
unfolding five_tuple_of
five_tuple_of-IsWritten pkt dg src dst sp dp w p =
    rw (w.parsed, five_tuple_of, w.proto_is, w.payload_is, p, w.src_is, w.dst_is, w.proto_is) refl

datagram-IsBytes :
    (src dst sp dp : ℕ) (payload : Bytes)
    → length payload ≤ 65507
    → IsBytes payload
    → IsBytes (datagram src dst sp dp payload)
datagram-IsBytes src dst sp dp payload l b = rw (datagram-eq src dst sp dp payload l) (
    IsBytes-append (udp_header sp dp (8 + length payload) (sent src dst sp dp payload)) payload
      (omega arith) b)

pub length-datagram :
    (src dst sp dp : ℕ) (payload : Bytes)
    → length payload ≤ 65507
    → length (datagram src dst sp dp payload) ≡ 8 + length payload
length-datagram src dst sp dp payload l = rw (datagram-eq src dst sp dp payload l) (omega arith)

-- A frame that is made up, with addresses and a payload that fit their types and a payload of at most
-- 65507 bytes, is an Ethernet frame of an IPv4 packet, sound with its header checksum, of UDP between
-- the given addresses and ports, whose checksum is present and verifies, around the payload.
pub udp_frame-IsWritten :
    (src dst sp dp : ℕ) (payload : Bytes)
    → src < 2 ^ 32
    → dst < 2 ^ 32
    → sp < 65536
    → dp < 65536
    → length payload ≤ 65507
    → IsBytes payload
    → let f = udp_frame src dst sp dp payload in
      let pkt = Ethernet.payload f in
      let dg = datagram src dst sp dp payload in
      (Ethernet.parse f ≡ ok f)
      × (Ethernet.ethertype f ≡ Ethernet.ethertype_ipv4)
      × (length f ≡ 42 + length payload)
      × IsWritten pkt src dst 17 dg
      × (five_tuple_of pkt
          ≡ some
              (record { src_ip = src; dst_ip = dst; src_port = sp; dst_port = dp; protocol = 17 }))
      × (0 < Udp.checksum_field dg)
      × Verifies (pseudo_sum src dst 17 (length dg) + words_sum dg)
      × (drop 8 dg ≡ payload)
unfolding udp_frame
udp_frame-IsWritten src dst sp dp payload hs hd hsp hdp l b =
    let dg = datagram src dst sp dp payload in
    let n = length-datagram src dst sp dp payload l in
    let short : length dg ≤ 65515 = omega arith in
    let pkt = packet src dst dg in
    let same = packet-eq src dst dg short in
    let bytes = datagram-IsBytes src dst sp dp payload l b in
    let w : IsWritten pkt src dst 17 dg = rw same (
      header_for-IsWritten src dst 17 64 1 0x4000 dg hs hd (omega arith) (omega arith) short
        bytes) in
    let (parsed, _, _, ty, payload_is) =
      parse-write_header frame_dst frame_src 0x0800 pkt (omega arith) in
    let (pos, verifies) = datagram-Verifies src dst sp dp payload hs hd l b in
    let ports = datagram-ports src dst sp dp payload hsp hdp l in
    let len : length pkt ≡ 20 + length dg = rw same (omega arith) in
    rw (frame-eq pkt, payload_is)
      (
        parsed,
        ty,
        omega arith,
        w,
        five_tuple_of-IsWritten pkt dg src dst sp dp w ports,
        pos,
        verifies,
        rw (datagram-eq src dst sp dp payload l) refl,
      )
