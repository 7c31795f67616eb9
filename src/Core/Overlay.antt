-- ===== src/Core/Overlay.antt =====
-- crates/andromeda-core/src/overlay.rs: the Andromeda header, its encapsulation and decapsulation.
-- Where the source joins disjoint bit fields by `|`, the model adds them.
pub mod Header
pub mod Encap
pub mod RoundTrip
use light_andromeda.Core.Ethernet
use light_andromeda.Core.Ethernet.{MacAddr}
use light_andromeda.Core.Ipv4
use light_andromeda.Core.Udp
use light_andromeda.Prelude.{
  ℕ, ◌+◌, ◌*◌, ◌/◌, ◌%◌, ◌^◌, Bool, true, not, Option, none, some, bit_or, bit_xor, Bytes, Ipv4Addr,
  byte_at, be16_at, to_be16, slice, length, drop, set, write_at, update_slice, ltb, ◌==◌,
  if◌then◌else◌,
}
use light_andromeda.Core.Errors.{
  Result, ok, err, too_short, bad_version, bad_header_len, buffer_too_small, ◌>>=◌,
}

abbrev pub andromeda_udp_port : ℕ
andromeda_udp_port = 43481

abbrev pub andromeda_version : ℕ
andromeda_version = 1

abbrev pub andromeda_hdr_len : ℕ
andromeda_hdr_len = 8

-- 14 + 20 + 8 + 8
abbrev pub overlay_overhead : ℕ
overlay_overhead = 50

abbrev pub inner_proto_ethernet : ℕ
inner_proto_ethernet = 0

pub record AndromedaHdr : Type 0 where
  pub version : ℕ
  pub flags : ℕ
  pub inner_proto : ℕ
  pub flow_hash : ℕ
  pub vni : ℕ
  pub hop_limit : ℕ

-- `AndromedaHdr::new`.
unfoldable pub new : ℕ → ℕ → AndromedaHdr
new vni flow_hash = record {
  version = andromeda_version;
  flags = 0;
  inner_proto = inner_proto_ethernet;
  flow_hash = flow_hash;
  vni = vni % 0x1000000;
  hop_limit = 64;
}

unfoldable pub is_control : AndromedaHdr → Bool
is_control h = not (h.flags / 8 % 2 == 0)

unfoldable pub encode : AndromedaHdr → Bytes → Bytes
encode h out =
    let out1 = set out 0 (h.version * 16 % 256 + h.flags % 16) in
    let out2 = set out1 1 h.inner_proto in
    let out3 = write_at out2 2 (to_be16 h.flow_hash) in
    let vni = h.vni % 0x1000000 in
    let out4 = set out3 4 (vni / 65536 % 256) in
    let out5 = set out4 5 (vni / 256 % 256) in
    let out6 = set out5 6 (vni % 256) in set out6 7 h.hop_limit

unfoldable pub decode : Bytes → Result AndromedaHdr
decode buf =
    let version = byte_at buf 0 / 16 in
    if ltb (length buf) andromeda_hdr_len
    then err (too_short "andromeda" andromeda_hdr_len (length buf))
    else if not (version == andromeda_version)
    then err (bad_version "andromeda" version)
    else ok (record {
      version = version;
      flags = byte_at buf 0 % 16;
      inner_proto = byte_at buf 1;
      flow_hash = be16_at buf 2;
      vni = byte_at buf 4 * 65536 + byte_at buf 5 * 256 + byte_at buf 6;
      hop_limit = byte_at buf 7;
    })

-- `u32` products wrap.
abbrev mul32 : ℕ → ℕ → ℕ
mul32 a b = a * b % 2 ^ 32

unfoldable pub flow_hash : Ipv4Addr → Ipv4Addr → (protocol src_port dst_port : ℕ) → ℕ
flow_hash src dst protocol src_port dst_port =
    let ports = src_port * 65536 + dst_port in
    let h0 =
      bit_xor
        (bit_xor (bit_xor (mul32 src 0x9E37_79B1) (mul32 dst 0x85EB_CA77))
          (mul32 ports 0xC2B2_AE3D))
        (mul32 protocol 0x27D4_EB2F) in
    let h1 = bit_xor h0 (h0 / 2 ^ 15) in
    let h2 = mul32 h1 0x2C1B_3C6D in
    let h3 = bit_xor h2 (h2 / 2 ^ 13) in bit_xor (h3 / 2 ^ 16) h3 % 2 ^ 16

pub record EncapParams : Type 0 where
  pub outer_src_mac : MacAddr
  pub outer_dst_mac : MacAddr
  pub outer_src_ip : Ipv4Addr
  pub outer_dst_ip : Ipv4Addr
  pub vni : ℕ
  pub flow_hash : ℕ
  pub ip_id : ℕ
  pub outer_udp_checksum : Bool

-- `u16::MAX` less the outer IPv4, UDP and Andromeda headers.
abbrev pub max_inner : ℕ
max_inner = 65499

-- The header stores of `encap_in_place`, after its checks.
unfoldable pub write_headers : Bytes → ℕ → EncapParams → Bytes
write_headers out inner_len p =
    let out1 =
      update_slice out 0 14 (λ h.
        (Ethernet.write_header h p.outer_dst_mac p.outer_src_mac Ethernet.ethertype_ipv4).0) in
    let udp_payload_len = (andromeda_hdr_len + inner_len) % 65536 in
    let ip_payload_len = (Udp.udp_hdr_len + udp_payload_len) % 65536 in
    let out2 = update_slice out1 14 34 (λ h.
      (Ipv4.write_header h p.outer_src_ip p.outer_dst_ip Ipv4.proto_udp 64 p.ip_id true
        ip_payload_len).0) in
    let out3 = update_slice out2 34 42 (λ h.
      (Udp.write_header h (bit_or p.flow_hash 0xc000) andromeda_udp_port udp_payload_len).0) in
    let hdr = record (new p.vni p.flow_hash) { inner_proto = inner_proto_ethernet } in
    update_slice out3 42 50 (encode hdr)

-- The output buffer, and the number of bytes written or the error.
unfoldable pub encap_in_place : Bytes → ℕ → EncapParams → Bytes × Result ℕ
encap_in_place out inner_len p =
    let total = overlay_overhead + inner_len in
    let out1 = write_headers out inner_len p in
    let c = Udp.compute_checksum p.outer_src_ip p.outer_dst_ip (slice out1 34 total) in
    if ltb (length out) total
    then (out, err (buffer_too_small total (length out)))
    else if ltb max_inner inner_len
    then (out, err (bad_header_len "overlay encap" inner_len))
    else if p.outer_udp_checksum
    then (write_at out1 40 (to_be16 c), ok total)
    else (out1, ok total)

unfoldable pub encap : Bytes → Bytes → EncapParams → Bytes × Result ℕ
encap out inner p =
    let total = overlay_overhead + length inner in
    if ltb (length out) total
    then (out, err (buffer_too_small total (length out)))
    else encap_in_place (write_at out overlay_overhead inner) (length inner) p

pub record Decapsulated : Type 0 where
  pub header : AndromedaHdr
  pub inner : Bytes
  pub outer_src_ip : Ipv4Addr
  pub outer_dst_ip : Ipv4Addr

-- The part of `decap` behind the UDP header.
unfoldable pub decap_udp : (ip after_udp : Bytes) → Result (Option Decapsulated)
decap_udp ip after_udp = do
  header ← decode after_udp
  ok (
      some (record {
        header = header;
        inner = drop andromeda_hdr_len after_udp;
        outer_src_ip = Ipv4.src ip;
        outer_dst_ip = Ipv4.dst ip;
      }))

-- The part of `decap` behind the IPv4 header.
unfoldable pub decap_l4 : (ip l4 : Bytes) → Result (Option Decapsulated)
unfolding decap_udp
decap_l4 ip l4 = Udp.parse l4 >>= λ udp_v.
    if not (Udp.dst_port udp_v == andromeda_udp_port)
    then ok none
    else decap_udp ip (drop Udp.udp_hdr_len l4)

-- The part of `decap` behind the Ethernet header.
unfoldable pub decap_ip : Bytes → Result (Option Decapsulated)
unfolding decap_l4
decap_ip packet = Ipv4.parse packet >>= λ ip.
    if not (Ipv4.protocol ip == Ipv4.proto_udp) then ok none else decap_l4 ip (Ipv4.payload ip)

unfoldable pub decap : Bytes → Result (Option Decapsulated)
unfolding decap_ip
decap frame = Ethernet.parse frame >>= λ eth.
    if not (Ethernet.ethertype eth == Ethernet.ethertype_ipv4)
    then ok none
    else decap_ip (Ethernet.payload eth)
