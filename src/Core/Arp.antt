-- ===== src/Core/Arp.antt =====
-- crates/andromeda-core/src/arp.rs: ARP requests and the proxy's replies.
pub mod Reply
use light_andromeda.Core.Ethernet
use light_andromeda.Core.Ethernet.{MacAddr}
use light_andromeda.Prelude.{
  ℕ, Bool, ◌||◌, not, Bytes, Ipv4Addr, byte_at, be16_at, to_be16, ipv4, octets, length, set,
  write_at, update_slice, ltb, ◌==◌, if◌then◌else◌,
}
use light_andromeda.Core.Errors.{Result, ok, err, too_short, bad_header_len, buffer_too_small}

abbrev pub arp_len : ℕ
arp_len = 28

abbrev pub arp_frame_len : ℕ
arp_frame_len = 42

abbrev pub oper_request : ℕ
oper_request = 1

abbrev pub oper_reply : ℕ
oper_reply = 2

-- `ArpView::parse`: Ethernet and IPv4 only.
unfoldable pub parse : Bytes → Result Bytes
parse buf =
    let htype = be16_at buf 0 in
    let ptype = be16_at buf 2 in
    if ltb (length buf) arp_len
    then err (too_short "arp" arp_len (length buf))
    else if not (htype == 1)
        || not (ptype == Ethernet.ethertype_ipv4)
        || not (byte_at buf 4 == 6)
        || not (byte_at buf 5 == 4)
    then err (bad_header_len "arp" (length buf))
    else ok buf

unfoldable pub oper : Bytes → ℕ
oper buf = be16_at buf 6

unfoldable pub is_request : Bytes → Bool
unfolding oper
is_request buf = oper buf == oper_request

unfoldable pub sender_mac : Bytes → MacAddr
unfolding Ethernet.mac_at
sender_mac buf = Ethernet.mac_at buf 8

unfoldable pub sender_ip : Bytes → Ipv4Addr
sender_ip buf = ipv4 (byte_at buf 14) (byte_at buf 15) (byte_at buf 16) (byte_at buf 17)

unfoldable pub target_ip : Bytes → Ipv4Addr
target_ip buf = ipv4 (byte_at buf 24) (byte_at buf 25) (byte_at buf 26) (byte_at buf 27)

-- The stores into the 28 bytes `p` of the ARP payload.
unfoldable pub write_payload : MacAddr → MacAddr → Ipv4Addr → Ipv4Addr → Bytes → Bytes
write_payload answer_mac requester_mac requester_ip asked_ip p =
    let p1 = write_at p 0 (to_be16 1) in
    let p2 = write_at p1 2 (to_be16 Ethernet.ethertype_ipv4) in
    let p3 = set (set p2 4 6) 5 4 in
    let p4 = write_at p3 6 (to_be16 oper_reply) in
    let p5 = write_at p4 8 (Ethernet.mac_bytes answer_mac) in
    let p6 = write_at p5 14 (octets asked_ip) in
    let p7 = write_at p6 18 (Ethernet.mac_bytes requester_mac) in
    write_at p7 24 (octets requester_ip)

-- The output buffer, and the number of bytes written or the error.
unfoldable pub write_reply : Bytes → Bytes → MacAddr → Bytes × Result ℕ
unfolding write_payload
write_reply out request_payload answer_mac =
    if ltb (length out) arp_frame_len
    then (out, err (buffer_too_small arp_frame_len (length out)))
    else (elim (parse request_payload) [
      | err e ↦ (out, err e)
      | ok req ↦
          let requester_mac = sender_mac req in
          let out1 =
            update_slice out 0 14
              (λ h. (Ethernet.write_header h requester_mac answer_mac Ethernet.ethertype_arp).0) in
          let out2 =
            update_slice out1 14 arp_frame_len
              (write_payload answer_mac requester_mac (sender_ip req) (target_ip req)) in
          (out2, ok arp_frame_len)
    ])
