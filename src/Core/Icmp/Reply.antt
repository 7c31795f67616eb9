-- ===== src/Core/Icmp/Reply.antt =====
-- The bytes of the "Fragmentation Needed" reply, and how they answer the datagram.
use light_andromeda.Core.Icmp.Message.{
  icmp_message, write_message-eq, icmp_message-IsBytes, icmp_message-checksum, reply_ip,
  reply_ip_lem,
}
use light_andromeda.Prelude.{
  IsBytes-take, IsBytes-drop, le→ltb_false, ◌*◌, length-take, sym, ◌/◌, byte_at-lt, be16_at,
  take-append, slice, write_at, min, length-drop, false, fill, update_slice, drop, take, [], true,
  ◌∙◌, ◌++◌, ap, arith, to_be16, ◌-◌, ◌%◌, ◌<◌, ◌≤◌, ◌+◌, length, ℕ, ◌≡◌, refl, Bytes, IsBytes,
}
use light_andromeda.Core.Ipv4.Valid.{ihl_bytes-le, IsParsed-parse}
use light_andromeda.Core.Errors.{Result, ok}
use light_andromeda.Core.Icmp.{write_frag_needed, MacAddr, write_parsed, write_message}
use light_andromeda.Core.Ethernet.Header.{write_header-eq, eth_header}
use light_andromeda.Core.Ethernet
use mathlib.Core.Path.{subst}
use light_andromeda.Core.Checksum
use light_andromeda.Core.Ipv4
use light_andromeda.Core.Ipv4.Header
use light_andromeda.Core.Ipv4.Header.{ipv4_header, header_checksum_of}

-- What the stores leave.
abbrev reply_frame : (eth_dst gateway_mac : MacAddr) (gateway_ip dst mtu q : ℕ) → Bytes → Bytes
reply_frame eth_dst gateway_mac gateway_ip dst mtu q quote =
    eth_header eth_dst gateway_mac 0x0800
    ++ reply_ip gateway_ip dst (8 + q)
    ++ icmp_message mtu (Checksum.checksum (icmp_message mtu 0 quote)) quote

end_eq : (q : ℕ) → 42 + q ≡ 34 + (8 + q)
end_eq q = omega arith

write_parsed-eq :
    (out eth ip : Bytes) (mac : MacAddr) (gw mtu q : ℕ)
    → 42 + q ≤ length out
    → length (take q ip) ≡ q
    → write_parsed out eth ip mac gw mtu q
      ≡ reply_frame (Ethernet.src eth) mac gw (Ipv4.src ip) mtu q (take q ip)
        ++ drop (8 + q) (drop 20 (drop 14 out))
unfolding write_parsed
write_parsed-eq out eth ip mac gw mtu q l k =
    let quote = take q ip in
    let dst = Ipv4.src ip in
    let eth_hdr = eth_header (Ethernet.src eth) mac 0x0800 in
    let ip_hdr = reply_ip gw dst (8 + q) in
    let rest = drop 20 (drop 14 out) in
    let plain = icmp_message mtu 0 quote in
    let e1 : update_slice out 0 14 (λ h. (Ethernet.write_header h (Ethernet.src eth) mac 0x0800).0)
        ≡ eth_hdr ++ drop 14 out =
      fill [] out 0 14 (λ h. (Ethernet.write_header h (Ethernet.src eth) mac 0x0800).0) eth_hdr refl
        (omega (arith, l))
        (λ h e. ap (λ w. w.0) (write_header-eq h (Ethernet.src eth) mac 0x0800 e)) in
    let write_ip : Bytes → Bytes =
      λ h. (Ipv4.write_header h gw dst 1 64 0 false ((8 + q) % 65536)).0 in
    let e2 : update_slice (eth_hdr ++ drop 14 out) 14 34 write_ip ≡ eth_hdr ++ ip_hdr ++ rest =
      fill eth_hdr (drop 14 out) 14 20 write_ip ip_hdr refl (omega (arith, length-drop 14 out, l))
        (λ h e. ap (λ w. w.0) (Header.write_header-eq h gw dst 1 64 0 false ((8 + q) % 65536) e)) in
    let e3 : update_slice (eth_hdr ++ ip_hdr ++ rest) 34 (34 + (8 + q)) (write_message mtu quote)
        ≡ (eth_hdr ++ ip_hdr) ++ plain ++ drop (8 + q) rest =
      fill (eth_hdr ++ ip_hdr) rest 34 (8 + q) (write_message mtu quote) plain refl
        (omega (arith, length-drop 20 (drop 14 out), length-drop 14 out, l))
        (λ h e. write_message-eq mtu quote h (omega (arith, e, k))) in
    let message = write_message mtu quote in
    let finish : Bytes → Bytes =
      λ o. write_at o 36 (to_be16 (Checksum.checksum (slice o 34 (42 + q)))) in
    let stored = eth_hdr ++ ip_hdr ++ plain ++ drop (8 + q) rest in
    let covered : slice stored 34 (42 + q) ≡ plain =
      take-append plain (drop (8 + q) rest) (42 + q - 34) (omega (arith, k)) in
    ap (λ o. finish (update_slice (update_slice o 14 34 write_ip) 34 (42 + q) message)) e1
    ∙ ap (λ o. finish (update_slice o 34 (42 + q) message)) e2
    ∙ ap (λ n. finish (update_slice (eth_hdr ++ ip_hdr ++ rest) 34 n message)) (end_eq q)
    ∙ ap finish e3
    ∙ ap (λ m. write_at stored 36 (to_be16 (Checksum.checksum m))) covered

eth_parsed : (frame : Bytes) → 14 ≤ length frame → Ethernet.parse frame ≡ ok frame
unfolding Ethernet.parse
eth_parsed frame h = rw (le→ltb_false (length frame) 14 h) refl

write_frag_needed-eq :
    (out orig ip : Bytes) (mac : MacAddr) (gw mtu q : ℕ)
    → 14 ≤ length orig
    → Ipv4.parse (Ethernet.payload orig) ≡ ok ip
    → min (Ipv4.ihl_bytes ip + 8) (length ip) ≡ q
    → 42 + q ≤ length out
    → write_frag_needed out orig mac gw mtu ≡ (
      reply_frame (Ethernet.src orig) mac gw (Ipv4.src ip) mtu q (take q ip)
          ++ drop (8 + q) (drop 20 (drop 14 out)),
      ok (42 + q),
    )
unfolding write_frag_needed
write_frag_needed-eq out orig ip mac gw mtu q l e s room =
    let total : Result ℕ = ok (42 + q) in
    let quoted : length (take q ip) ≡ q = length-take q ip (omega (arith, s)) in
    rw (eth_parsed orig l, write_frag_needed, e, s, le→ltb_false (length out) (42 + q) room)
      (ap (λ o. (o, total)) (write_parsed-eq out orig ip mac gw mtu q room quoted))

be16-to_be16 : (w : ℕ) → w < 65536 → w / 256 % 256 * 256 + w % 256 ≡ w
be16-to_be16 w h = omega arith

src-lt : (ip : Bytes) → IsBytes ip → Ipv4.src ip < 4294967296
unfolding Ipv4.src
src-lt ip b =
    omega (arith, byte_at-lt ip 12 b, byte_at-lt ip 13 b, byte_at-lt ip 14 b, byte_at-lt ip 15 b)

-- The reply to a datagram that does not fit, in a buffer that holds it, is an Ethernet frame to the
-- sender's MAC of an IPv4 packet from the gateway to the sender, whose header checksum verifies, of an
-- ICMP message of type 3 and code 4, whose checksum verifies, with the MTU and, as its quote, the
-- header of the datagram with up to eight bytes more.
pub write_frag_needed-answers :
    (out orig ip : Bytes) (mac : MacAddr) (gw mtu : ℕ)
    → 14 ≤ length orig
    → IsBytes orig
    → Ipv4.parse (Ethernet.payload orig) ≡ ok ip
    → gw < 4294967296
    → mtu < 65536
    → let q = min (Ipv4.ihl_bytes ip + 8) (length ip) in
      42 + q ≤ length out
      → let (out', n) = write_frag_needed out orig mac gw mtu in
        let q = min (Ipv4.ihl_bytes ip + 8) (length ip) in
        let pkt = Ethernet.payload (take (42 + q) out') in
        let icmp = Ipv4.payload pkt in
        (n ≡ ok (42 + q))
        × (Ethernet.dst out' ≡ Ethernet.src orig)
        × (Ethernet.ethertype out' ≡ Ethernet.ethertype_ipv4)
        × (Ipv4.parse pkt ≡ ok pkt)
        × (Ipv4.checksum_valid pkt ≡ true)
        × (Ipv4.protocol pkt ≡ Ipv4.proto_icmp)
        × (Ipv4.src pkt ≡ gw)
        × (Ipv4.dst pkt ≡ Ipv4.src ip)
        × (be16_at icmp 0 ≡ 0x0304)
        × (Checksum.checksum icmp ≡ 0)
        × (be16_at icmp 6 ≡ mtu)
        × (drop 8 icmp ≡ take q ip)
unfolding Ethernet.dst Ethernet.ethertype Ethernet.payload Ethernet.mac_at
write_frag_needed-answers out orig ip mac gw mtu l b e g m room =
    let q = min (Ipv4.ihl_bytes ip + 8) (length ip) in
    let quote = take q ip in
    let (_, same) = IsParsed-parse e in
    let bytes : IsBytes ip = subst IsBytes (sym same) (IsBytes-drop 14 orig b) in
    let quoted : length quote ≡ q = length-take q ip (omega arith) in
    let short : q ≤ 68 = omega (arith, ihl_bytes-le ip) in
    let qb : IsBytes quote = IsBytes-take q ip bytes in
    let c = Checksum.checksum (icmp_message mtu 0 quote) in
    let icmp = icmp_message mtu c quote in
    let frame = reply_frame (Ethernet.src orig) mac gw (Ipv4.src ip) mtu q quote in
    let cut : take (42 + q) (frame ++ drop (8 + q) (drop 20 (drop 14 out))) ≡ frame =
      take-append frame (drop (8 + q) (drop 20 (drop 14 out))) (42 + q) (omega (arith, quoted)) in
    let (p0, p1, p2, p3, p4, p5) =
      reply_ip_lem gw (Ipv4.src ip) q icmp g (src-lt ip bytes) (omega (arith, quoted))
        (omega (arith, short)) (icmp_message-IsBytes mtu c quote qb) in
    rw (write_frag_needed-eq out orig ip mac gw mtu q l e refl room, cut)
      (
        refl,
        refl,
        refl,
        p0,
        p1,
        p2,
        p3,
        p4,
        ap (λ i. be16_at i 0) p5,
        ap Checksum.checksum p5 ∙ icmp_message-checksum mtu quote qb (omega (arith, quoted, short)),
        ap (λ i. be16_at i 6) p5 ∙ be16-to_be16 mtu m,
        ap (λ i. drop 8 i) p5,
      )
