-- ===== src/Core/Icmp.antt =====
-- crates/andromeda-core/src/icmp.rs: the "Fragmentation Needed" reply of the overlay's path-MTU
-- discovery.
pub mod Message
pub mod Reply
use light_andromeda.Core.Checksum
use light_andromeda.Core.Ethernet
use light_andromeda.Core.Ethernet.{MacAddr}
use light_andromeda.Core.Ipv4
use light_andromeda.Prelude.{
  ℕ, ◌+◌, ◌%◌, false, min, Bytes, Ipv4Addr, to_be16, slice, length, take, set, write_at,
  update_slice, ltb, if◌then◌else◌,
}
use light_andromeda.Core.Errors.{Result, ok, err, buffer_too_small}

abbrev pub icmp_hdr_len : ℕ
icmp_hdr_len = 8

abbrev pub dest_unreachable : ℕ
dest_unreachable = 3

abbrev pub frag_needed : ℕ
frag_needed = 4

-- The stores into the ICMP message: its header, with no checksum yet, and the quoted datagram.
unfoldable pub write_message : ℕ → Bytes → Bytes → Bytes
write_message next_hop_mtu quote icmp =
    let icmp1 = set (set icmp 0 dest_unreachable) 1 frag_needed in
    let icmp2 = set (set icmp1 2 0) 3 0 in
    let icmp3 = set (set icmp2 4 0) 5 0 in
    let icmp4 = write_at icmp3 6 (to_be16 next_hop_mtu) in write_at icmp4 icmp_hdr_len quote

-- The reply, once the original frame is parsed and there is room for it.
unfoldable pub write_parsed :
    Bytes → (eth ip : Bytes) → MacAddr → Ipv4Addr → (next_hop_mtu quote_len : ℕ) → Bytes
unfolding write_message
write_parsed out eth ip gateway_mac gateway_ip next_hop_mtu quote_len =
    let icmp_end = 34 + icmp_hdr_len + quote_len in
    let out1 =
      update_slice out 0 14
        (λ h. (Ethernet.write_header h (Ethernet.src eth) gateway_mac Ethernet.ethertype_ipv4).0) in
    let icmp_len = icmp_hdr_len + quote_len in
    let out2 = update_slice out1 14 34 (λ h.
      (Ipv4.write_header h gateway_ip (Ipv4.src ip) Ipv4.proto_icmp 64 0 false
        (icmp_len % 65536)).0) in
    let out3 = update_slice out2 34 icmp_end (write_message next_hop_mtu (take quote_len ip)) in
    let c = Checksum.checksum (slice out3 34 icmp_end) in write_at out3 36 (to_be16 c)

-- The output buffer, and the number of bytes written or the error.
unfoldable pub write_frag_needed : Bytes → Bytes → MacAddr → Ipv4Addr → ℕ → Bytes × Result ℕ
unfolding write_parsed
write_frag_needed out orig_frame gateway_mac gateway_ip next_hop_mtu =
    elim (Ethernet.parse orig_frame) [
      | err e ↦ (out, err e)
      | ok eth ↦ elim (Ipv4.parse (Ethernet.payload eth)) [
        | err e ↦ (out, err e)
        | ok ip ↦
            let quote_len = min (Ipv4.ihl_bytes ip + 8) (length ip) in
            let icmp_end = 34 + icmp_hdr_len + quote_len in
            if ltb (length out) icmp_end
            then (out, err (buffer_too_small icmp_end (length out)))
            else (
              write_parsed out eth ip gateway_mac gateway_ip next_hop_mtu quote_len,
              ok icmp_end,
            )
      ]
    ]
