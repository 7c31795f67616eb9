-- ===== src/Core/IcmpTests.antt =====
-- A datagram that does not fit, on which the theorem of the ICMP reply is applied.
use light_andromeda.Core.Checksum
use light_andromeda.Core.Errors.{ok}
use light_andromeda.Core.Ethernet
use light_andromeda.Core.Ethernet.{MacAddr}
use light_andromeda.Core.Icmp.{write_frag_needed}
use light_andromeda.Core.Icmp.Reply.{write_frag_needed-answers}
use light_andromeda.Core.Ipv4
use light_andromeda.Prelude.{Bytes, ◌∷◌, ◌≡◌, refl, arith, replicate, take, drop, be16_at, true}

-- From 10.0.0.1 to 10.0.0.2, with ten bytes behind the header.
abbrev datagram : Bytes
datagram =
    69
    ∷ 0
    ∷ 0
    ∷ 30
    ∷ 0
    ∷ 1
    ∷ 64
    ∷ 0
    ∷ 64
    ∷ 17
    ∷ 38
    ∷ 204
    ∷ 10
    ∷ 0
    ∷ 0
    ∷ 1
    ∷ 10
    ∷ 0
    ∷ 0
    ∷ 2
    ∷ replicate 10 7

abbrev frame : Bytes
frame = 2 ∷ 0 ∷ 0 ∷ 0 ∷ 0 ∷ 254 ∷ 2 ∷ 0 ∷ 0 ∷ 0 ∷ 0 ∷ 9 ∷ 8 ∷ 0 ∷ datagram

abbrev gateway : MacAddr
gateway = record { b0 = 2; b1 = 0; b2 = 0; b3 = 0; b4 = 0; b5 = 254 }

write_frag_needed-answers_example :
    let (out', n) = write_frag_needed (replicate 80 255) frame gateway 167772414 1450 in
    let pkt = Ethernet.payload (take 70 out') in
    let icmp = Ipv4.payload pkt in
    (n ≡ ok 70)
    × (Ethernet.dst out' ≡ Ethernet.src frame)
    × (Ethernet.ethertype out' ≡ Ethernet.ethertype_ipv4)
    × (Ipv4.parse pkt ≡ ok pkt)
    × (Ipv4.checksum_valid pkt ≡ true)
    × (Ipv4.protocol pkt ≡ Ipv4.proto_icmp)
    × (Ipv4.src pkt ≡ 167772414)
    × (Ipv4.dst pkt ≡ Ipv4.src datagram)
    × (be16_at icmp 0 ≡ 0x0304)
    × (Checksum.checksum icmp ≡ 0)
    × (be16_at icmp 6 ≡ 1450)
    × (drop 8 icmp ≡ take 28 datagram)
unfolding Ipv4.ihl_bytes Ipv4.parse Ethernet.payload Ipv4.total_length
write_frag_needed-answers_example =
    write_frag_needed-answers (replicate 80 255) frame datagram gateway 167772414 1450 (omega arith)
      (omega arith) refl (omega arith) (omega arith) (omega arith)
