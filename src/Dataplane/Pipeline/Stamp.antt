-- ===== src/Dataplane/Pipeline/Stamp.antt =====
-- crates/andromeda-dataplane/src/pipeline.rs: `flow_hash_of`, and `stamp_outer`, which copies the
-- precomputed header and patches its variable fields.
pub mod Equiv
use light_andromeda.Core.Checksum
use light_andromeda.Core.Ipv4
use light_andromeda.Core.Udp
use light_andromeda.Core.Overlay
use light_andromeda.Dataplane.Pipeline.State.{Pipeline, OuterTemplate}
use light_andromeda.Prelude.{
  ℕ, ◌+◌, ◌%◌, ◌||◌, bit_or, Bytes, Ipv4Addr, be16, be16_at, byte_at, octets, to_be16, slice,
  length, write_at, update_slice, leb, ◌==◌, if◌then◌else◌,
}

unfoldable pub flow_hash_of : Bytes → ℕ
flow_hash_of ip =
    let p = Ipv4.protocol ip in
    let l4 = Ipv4.payload ip in
    let sp = be16_at l4 0 in
    let dp = be16_at l4 2 in
    if p == Ipv4.proto_tcp || p == Ipv4.proto_udp
    then (if leb 4 (length l4) then Overlay.flow_hash (Ipv4.src ip) (Ipv4.dst ip) p sp dp else 0)
    else 0

-- `total_len` of an inner frame of the given length, as a `u16`.
abbrev pub outer_total_len : ℕ → ℕ
outer_total_len inner_len =
    (Ipv4.ipv4_min_hdr_len + 8 + Overlay.andromeda_hdr_len + inner_len) % 65536

-- The checksum folded from the template's base and the variable words of the header.
abbrev pub stamped_checksum : OuterTemplate → ℕ → Ipv4Addr → ℕ → ℕ
stamped_checksum tmpl total_len dst_ip ip_id =
    let d = octets dst_ip in
    Checksum.not16 (
      Checksum.fold (
        tmpl.ip_csum_base
        + total_len
        + ip_id
        + be16 (byte_at d 0) (byte_at d 1)
        + be16 (byte_at d 2) (byte_at d 3)))

-- The stores of `stamp_outer` up to the outer UDP checksum.
unfoldable pub stamp_headers : OuterTemplate → Bytes → ℕ → Ipv4Addr → (flow ip_id vni : ℕ) → Bytes
stamp_headers tmpl out inner_len dst_ip flow ip_id vni =
    let out1 = write_at out 0 tmpl.prefix in
    let total_len = outer_total_len inner_len in
    let out2 = write_at out1 16 (to_be16 total_len) in
    let out3 = write_at out2 18 (to_be16 ip_id) in
    let out4 = write_at out3 30 (octets dst_ip) in
    let out5 = write_at out4 24 (to_be16 (stamped_checksum tmpl total_len dst_ip ip_id)) in
    let out6 = write_at out5 34 (to_be16 (bit_or flow 0xc000)) in
    let udp_len = (8 + Overlay.andromeda_hdr_len + inner_len) % 65536 in
    let out7 = write_at out6 38 (to_be16 udp_len) in
    update_slice out7 42 50 (Overlay.encode (Overlay.new vni flow))

unfoldable pub stamp_outer : Pipeline → Bytes → ℕ → Ipv4Addr → (flow ip_id vni : ℕ) → Bytes
stamp_outer s out inner_len dst_ip flow ip_id vni =
    let out1 = stamp_headers s.tmpl out inner_len dst_ip flow ip_id vni in
    let end = Overlay.overlay_overhead + inner_len in
    let c = Udp.compute_checksum s.cfg.local_node_ip dst_ip (slice out1 34 end) in
    if s.cfg.outer_udp_checksum then write_at out1 40 (to_be16 c) else out1
