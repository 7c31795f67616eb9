-- ===== src/Core/Ipv4.antt =====
-- crates/andromeda-core/src/ipv4.rs: IPv4 headers, read and rewritten in place. A view is the
-- buffer that it borrows; a shift or a mask of the source is the division or remainder that it is.
pub mod Valid
pub mod Pseudo
pub mod Join
pub mod Header
pub mod Written
pub mod Rewrite
use light_andromeda.Core.Checksum
use light_andromeda.Prelude.{
  ℕ, ◌+◌, ◌-◌, ◌*◌, ◌/◌, ◌%◌, Bool, ◌||◌, not, Option, none, some, Bytes, Ipv4Addr, byte_at,
  be16_at, be16, to_be16, ipv4, octets, length, take, drop, set, write_at, ltb, ◌==◌, if◌then◌else◌,
}
use light_andromeda.Core.Errors.{Result, ok, err, too_short, bad_version, bad_header_len}

abbrev pub ipv4_min_hdr_len : ℕ
ipv4_min_hdr_len = 20

abbrev pub proto_icmp : ℕ
proto_icmp = 1

abbrev pub proto_tcp : ℕ
proto_tcp = 6

abbrev pub proto_udp : ℕ
proto_udp = 17

unfoldable pub ihl_bytes : Bytes → ℕ
ihl_bytes buf = byte_at buf 0 % 16 * 4

unfoldable pub total_length : Bytes → ℕ
total_length buf = be16_at buf 2

-- `Ipv4View::parse`, and `Ipv4ViewMut::parse`, which calls it.
unfoldable pub parse : Bytes → Result Bytes
unfolding ihl_bytes total_length
parse buf =
    let version = byte_at buf 0 / 16 in
    let ihl = ihl_bytes buf in
    let total = total_length buf in
    if ltb (length buf) ipv4_min_hdr_len
    then err (too_short "ipv4" ipv4_min_hdr_len (length buf))
    else if not (version == 4)
    then err (bad_version "ipv4" version)
    else if ltb ihl ipv4_min_hdr_len || ltb (length buf) ihl
    then err (bad_header_len "ipv4" ihl)
    else if ltb total ihl
    then err (bad_header_len "ipv4-total" total)
    else ok buf

unfoldable pub dscp_ecn : Bytes → ℕ
dscp_ecn buf = byte_at buf 1

unfoldable pub identification : Bytes → ℕ
identification buf = be16_at buf 4

unfoldable pub flags_frag : Bytes → ℕ
flags_frag buf = be16_at buf 6

unfoldable pub dont_fragment : Bytes → Bool
unfolding flags_frag
dont_fragment buf = not (flags_frag buf / 0x4000 % 2 == 0)

unfoldable pub more_fragments : Bytes → Bool
unfolding flags_frag
more_fragments buf = not (flags_frag buf / 0x2000 % 2 == 0)

unfoldable pub fragment_offset : Bytes → ℕ
unfolding flags_frag
fragment_offset buf = flags_frag buf % 0x2000 * 8

unfoldable pub ttl : Bytes → ℕ
ttl buf = byte_at buf 8

unfoldable pub protocol : Bytes → ℕ
protocol buf = byte_at buf 9

unfoldable pub header_checksum : Bytes → ℕ
header_checksum buf = be16_at buf 10

unfoldable pub src : Bytes → Ipv4Addr
src buf = ipv4 (byte_at buf 12) (byte_at buf 13) (byte_at buf 14) (byte_at buf 15)

unfoldable pub dst : Bytes → Ipv4Addr
dst buf = ipv4 (byte_at buf 16) (byte_at buf 17) (byte_at buf 18) (byte_at buf 19)

unfoldable pub checksum_valid : Bytes → Bool
unfolding ihl_bytes
checksum_valid buf = Checksum.checksum (take (ihl_bytes buf) buf) == 0

unfoldable pub payload : Bytes → Bytes
unfolding ihl_bytes
payload buf = drop (ihl_bytes buf) buf

unfoldable pub set_header_checksum : Bytes → ℕ → Bytes
set_header_checksum buf c = write_at buf 10 (to_be16 c)

-- The buffer, and the old and new address.
unfoldable pub set_src : Bytes → Ipv4Addr → Bytes × (ℕ × ℕ)
unfolding src header_checksum set_header_checksum
set_src buf new =
    let old = src buf in
    let c = Checksum.update_dword (header_checksum buf) old new in
    (set_header_checksum (write_at buf 12 (octets new)) c, (old, new))

unfoldable pub set_dst : Bytes → Ipv4Addr → Bytes × (ℕ × ℕ)
unfolding dst header_checksum set_header_checksum
set_dst buf new =
    let old = dst buf in
    let c = Checksum.update_dword (header_checksum buf) old new in
    (set_header_checksum (write_at buf 16 (octets new)) c, (old, new))

-- The buffer, and the new TTL, or none if it was 0.
unfoldable pub decrement_ttl : Bytes → Bytes × Option ℕ
unfolding header_checksum set_header_checksum
decrement_ttl buf =
    let ttl = byte_at buf 8 in
    let old_word = be16 (byte_at buf 8) (byte_at buf 9) in
    let new_ttl = ttl - 1 in
    let new_word = be16 new_ttl (byte_at buf 9) in
    let c = Checksum.update_word (header_checksum buf) old_word new_word in
    if ttl == 0 then (buf, none) else (set_header_checksum (set buf 8 new_ttl) c, some new_ttl)

unfoldable pub pseudo_header_sum : Ipv4Addr → Ipv4Addr → ℕ → ℕ → ℕ
pseudo_header_sum src dst protocol l4_len =
    let acc1 = Checksum.accumulate 0 (octets src) in
    let acc2 = Checksum.accumulate acc1 (octets dst) in
    let acc3 = Checksum.add32 acc2 protocol in Checksum.add32 acc3 l4_len

-- The stores of `write_header` before the checksum. The `u16` total length wraps.
unfoldable pub write_fields :
    Bytes → Ipv4Addr → Ipv4Addr → (protocol ttl identification : ℕ) → Bool → ℕ → Bytes
write_fields buf src dst protocol ttl identification dont_fragment payload_len =
    let total = (ipv4_min_hdr_len + payload_len) % 65536 in
    let flags : ℕ = if dont_fragment then 0x4000 else 0 in
    let buf1 = set (set buf 0 0x45) 1 0x00 in
    let buf2 = write_at buf1 2 (to_be16 total) in
    let buf3 = write_at buf2 4 (to_be16 identification) in
    let buf4 = write_at buf3 6 (to_be16 flags) in
    let buf5 = set (set buf4 8 ttl) 9 protocol in
    let buf6 = set (set buf5 10 0) 11 0 in
    let buf7 = write_at buf6 12 (octets src) in write_at buf7 16 (octets dst)

unfoldable pub write_header :
    Bytes → Ipv4Addr → Ipv4Addr → (protocol ttl identification : ℕ) → Bool → ℕ → Bytes × ℕ
unfolding write_fields
write_header buf src dst protocol ttl identification dont_fragment payload_len =
    let buf1 = write_fields buf src dst protocol ttl identification dont_fragment payload_len in
    let c = Checksum.checksum (take ipv4_min_hdr_len buf1) in
    (write_at buf1 10 (to_be16 c), ipv4_min_hdr_len)
