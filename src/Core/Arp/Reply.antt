-- ===== src/Core/Arp/Reply.antt =====
-- The reply of the ARP proxy answers the request.
use light_andromeda.Prelude.{
  byte_at-lt, ◌<◌, ◌∙◌, byte_at, update_slice, ipv4, ipv4-octets, ℕ, le→ltb_false, length-drop, ap,
  fill, [], ◌∷◌, octets, drop, arith, ◌++◌, length, ◌≤◌, Ipv4Addr, ◌≡◌, refl, Bytes, IsBytes,
}
use light_andromeda.Core.Arp.{
  Result, parse, oper, oper_reply, sender_mac, sender_ip, target_ip, write_payload, write_reply,
}
use light_andromeda.Core.Errors.{ok}
use light_andromeda.Core.Ethernet
use light_andromeda.Core.Ethernet.{MacAddr, mac_bytes}
use light_andromeda.Core.Ethernet.Header.{eth_header, write_header-eq}

-- The 28 bytes of a reply.
abbrev reply_payload : MacAddr → MacAddr → Ipv4Addr → Ipv4Addr → Bytes
reply_payload answer_mac requester_mac requester_ip asked_ip =
    0 ∷ 1 ∷ 8 ∷ 0 ∷ 6 ∷ 4 ∷ 0 ∷ 2 ∷ mac_bytes answer_mac
    ++ octets asked_ip
    ++ mac_bytes requester_mac
    ++ octets requester_ip

write_payload-eq :
    (p : Bytes) (a m : MacAddr) (ip asked : Ipv4Addr)
    → length p ≡ 28
    → write_payload a m ip asked p ≡ reply_payload a m ip asked
unfolding write_payload
write_payload-eq
      (x0 ∷ x1 ∷ x2 ∷ x3 ∷ x4 ∷ x5 ∷ x6 ∷ x7 ∷ x8 ∷ x9 ∷ x10 ∷ x11 ∷ x12 ∷ x13 ∷ x14 ∷ x15 ∷ x16
        ∷ x17 ∷ x18 ∷ x19 ∷ x20 ∷ x21 ∷ x22 ∷ x23 ∷ x24 ∷ x25 ∷ x26 ∷ x27 ∷ [])
      a m ip asked e =
    refl
write_payload-eq p a m ip asked e = absurd (omega arith)

write_reply-eq :
    (out req : Bytes) (mac : MacAddr)
    → 42 ≤ length out
    → parse req ≡ ok req
    → write_reply out req mac ≡ (
      eth_header (sender_mac req) mac 0x0806
          ++ reply_payload mac (sender_mac req) (sender_ip req) (target_ip req)
          ++ drop 28 (drop 14 out),
      ok 42,
    )
unfolding write_reply
write_reply-eq out req mac l e =
    let m = sender_mac req in
    let eth =
      fill [] out 0 14 (λ h. (Ethernet.write_header h m mac 0x0806).0) (eth_header m mac 0x0806)
        refl (omega (arith, l)) (λ h k. ap (λ w. w.0) (write_header-eq h m mac 0x0806 k)) in
    let arp =
      fill (eth_header m mac 0x0806) (drop 14 out) 14 28
        (write_payload mac m (sender_ip req) (target_ip req))
        (reply_payload mac m (sender_ip req) (target_ip req)) refl
        (omega (arith, length-drop 14 out, l))
        (λ h k. write_payload-eq h mac m (sender_ip req) (target_ip req) k) in
    let total : Result ℕ = ok 42 in
    let body = write_payload mac m (sender_ip req) (target_ip req) in
    rw (le→ltb_false (length out) 42 l, e)
      (ap (λ o. (update_slice o 14 42 body, total)) eth ∙ ap (λ o. (o, total)) arp)

ipv4-lt :
    (req : Bytes) (i j k l : ℕ)
    → IsBytes req
    → ipv4 (byte_at req i) (byte_at req j) (byte_at req k) (byte_at req l) < 4294967296
ipv4-lt req i j k l h =
    omega (arith, byte_at-lt req i h, byte_at-lt req j h, byte_at-lt req k h, byte_at-lt req l h)

-- To a request that is accepted, in a buffer that holds the frame, the proxy's reply is an ARP reply
-- from its MAC to the requester's, which says that the address asked for is at that MAC, and is meant
-- for the requester's address.
pub write_reply-answers :
    (out req : Bytes) (mac : MacAddr)
    → 42 ≤ length out
    → IsBytes req
    → parse req ≡ ok req
    → let (out', n) = write_reply out req mac in
      let p = Ethernet.payload out' in
      (n ≡ ok 42)
      × (Ethernet.dst out' ≡ sender_mac req)
      × (Ethernet.src out' ≡ mac)
      × (Ethernet.ethertype out' ≡ Ethernet.ethertype_arp)
      × (parse p ≡ ok p)
      × (oper p ≡ oper_reply)
      × (sender_mac p ≡ mac)
      × (sender_ip p ≡ target_ip req)
      × (target_ip p ≡ sender_ip req)
unfolding parse oper sender_mac sender_ip target_ip Ethernet.payload Ethernet.dst Ethernet.src
    Ethernet.ethertype Ethernet.mac_at
write_reply-answers out req mac l b e = rw (write_reply-eq out req mac l e) (
  refl,
  refl,
  refl,
  refl,
  ground arith,
  refl,
  refl,
  ipv4-octets (target_ip req) (ipv4-lt req 24 25 26 27 b),
  ipv4-octets (sender_ip req) (ipv4-lt req 14 15 16 17 b),
)
