-- ===== src/Core/Overlay/Encap.antt =====
-- The 50 bytes that `encap_in_place` writes in front of the inner frame.
use light_andromeda.Prelude.{
  ◌∙◌, ap, [], fill, update_slice, refl, true, arith, length-drop, drop, ◌≡◌, ◌%◌, length, ◌++◌,
  ◌+◌, bit_or, ◌≤◌, ℕ, Bytes,
}
use light_andromeda.Core.Ethernet
use light_andromeda.Core.Ethernet.Header.{eth_header, write_header-eq as write_eth}
use light_andromeda.Core.Ipv4
use light_andromeda.Core.Ipv4.Header.{
  ipv4_header, header_checksum_of, total_of, write_header-eq as write_ip,
}
use light_andromeda.Core.Udp
use light_andromeda.Core.Udp.Header.{udp_header, udp_len, write_header-eq as write_udp}
use light_andromeda.Core.Overlay.{EncapParams, write_headers, new, encode}
use light_andromeda.Core.Overlay.Header.{andromeda_header, encode-eq}

-- The `u16` lengths of the outer headers.
abbrev pub udp_payload_len : ℕ → ℕ
udp_payload_len inner_len = (8 + inner_len) % 65536

abbrev pub ip_total : ℕ → ℕ
ip_total inner_len = total_of ((8 + udp_payload_len inner_len) % 65536)

module _ (p : EncapParams) (inner_len : ℕ) where
  abbrev pub outer_eth : Bytes
  outer_eth = eth_header p.outer_dst_mac p.outer_src_mac 0x0800

  abbrev pub outer_ip : Bytes
  outer_ip =
      ipv4_header p.outer_src_ip p.outer_dst_ip 17 64 p.ip_id 0x4000 (ip_total inner_len)
        (header_checksum_of p.outer_src_ip p.outer_dst_ip 17 64 p.ip_id 0x4000 (ip_total inner_len))

  -- With the UDP checksum `c`.
  abbrev pub outer_udp : ℕ → Bytes
  outer_udp c = udp_header (bit_or p.flow_hash 0xc000) 43481 (udp_len (udp_payload_len inner_len)) c

  abbrev pub andromeda : Bytes
  andromeda = andromeda_header (new p.vni p.flow_hash)

  abbrev pub outer_headers : ℕ → Bytes
  outer_headers c = outer_eth ++ outer_ip ++ outer_udp c ++ andromeda

  eth_stores : Bytes → Bytes
  eth_stores h = (Ethernet.write_header h p.outer_dst_mac p.outer_src_mac 0x0800).0

  ip_stores : Bytes → Bytes
  ip_stores h =
      (Ipv4.write_header h p.outer_src_ip p.outer_dst_ip 17 64 p.ip_id true
        ((8 + udp_payload_len inner_len) % 65536)).0

  udp_stores : Bytes → Bytes
  udp_stores h =
      (Udp.write_header h (bit_or p.flow_hash 0xc000) 43481 (udp_payload_len inner_len)).0

  -- The header stores fill the first 50 bytes, whatever they held, and nothing else.
  pub write_headers-eq :
      (out : Bytes)
      → 50 ≤ length out
      → write_headers out inner_len p ≡ outer_headers 0 ++ drop 8 (drop 8 (drop 20 (drop 14 out)))
  unfolding write_headers eth_stores ip_stores udp_stores new
  write_headers-eq out l =
      let d1 = drop 14 out in
      let d2 = drop 20 d1 in
      let d3 = drop 8 d2 in
      let l1 = length-drop 14 out in
      let l2 = length-drop 20 d1 in
      let l3 = length-drop 8 d2 in
      let e1 : update_slice out 0 14 eth_stores ≡ outer_eth ++ d1 =
        fill [] out 0 14 eth_stores outer_eth refl (omega arith)
          (λ h e. ap (λ x. x.0) (write_eth h p.outer_dst_mac p.outer_src_mac 0x0800 e)) in
      let e2 : update_slice (outer_eth ++ d1) 14 34 ip_stores ≡ outer_eth ++ outer_ip ++ d2 =
        fill outer_eth d1 14 20 ip_stores outer_ip refl (omega arith) (λ h e.
          ap (λ x. x.0)
            (write_ip h p.outer_src_ip p.outer_dst_ip 17 64 p.ip_id true
              ((8 + udp_payload_len inner_len) % 65536) e)) in
      let e3 : update_slice (outer_eth ++ outer_ip ++ d2) 34 42 udp_stores
          ≡ outer_eth ++ outer_ip ++ outer_udp 0 ++ d3 =
        fill (outer_eth ++ outer_ip) d2 34 8 udp_stores (outer_udp 0) refl (omega arith) (λ h e.
          ap (λ x. x.0)
            (write_udp h (bit_or p.flow_hash 0xc000) 43481 (udp_payload_len inner_len) e)) in
      let e4 =
        fill (outer_eth ++ outer_ip ++ outer_udp 0) d3 42 8 (encode (new p.vni p.flow_hash))
          andromeda refl (omega arith) (λ h e. encode-eq h (new p.vni p.flow_hash) e) in
      ap (λ o. update_slice o 42 50 (encode (new p.vni p.flow_hash)))
        (ap (λ o. update_slice o 34 42 udp_stores)
            (ap (λ o. update_slice o 14 34 ip_stores) e1 ∙ e2)
          ∙ e3)
      ∙ e4
