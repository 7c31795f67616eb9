-- ===== src/Core/Udp.antt =====
-- crates/andromeda-core/src/udp.rs: UDP headers. A view is the buffer that it borrows.
pub mod Patch
pub mod Header
use light_andromeda.Core.Checksum
use light_andromeda.Core.Ipv4
use light_andromeda.Prelude.{
  ℕ, ◌+◌, ◌/◌, ◌%◌, [], ◌∷◌, Bool, Bytes, Ipv4Addr, be16_at, to_be16, length, drop, write_at, ltb,
  ◌==◌, if◌then◌else◌,
}
use light_andromeda.Core.Errors.{Result, ok, err, too_short}

abbrev pub udp_hdr_len : ℕ
udp_hdr_len = 8

-- `UdpView::parse` and `UdpViewMut::parse`.
unfoldable pub parse : Bytes → Result Bytes
parse buf =
    if ltb (length buf) udp_hdr_len then err (too_short "udp" udp_hdr_len (length buf)) else ok buf

unfoldable pub src_port : Bytes → ℕ
src_port buf = be16_at buf 0

unfoldable pub dst_port : Bytes → ℕ
dst_port buf = be16_at buf 2

-- `UdpView::length`, the field.
unfoldable pub length_field : Bytes → ℕ
length_field buf = be16_at buf 4

-- `checksum`, the field.
unfoldable pub checksum_field : Bytes → ℕ
checksum_field buf = be16_at buf 6

unfoldable pub payload : Bytes → Bytes
payload buf = drop udp_hdr_len buf

unfoldable pub set_checksum : Bytes → ℕ → Bytes
set_checksum buf c = write_at buf 6 (to_be16 c)

unfoldable pub checksum_disabled : Bytes → Bool
unfolding checksum_field
checksum_disabled buf = checksum_field buf == 0

-- RFC 768: a computed checksum of 0 is sent as 0xffff.
unfoldable pub sent_checksum : ℕ → ℕ
sent_checksum c = if c == 0 then 0xffff else c

unfoldable pub patch_checksum_word : Bytes → ℕ → ℕ → Bytes
unfolding checksum_disabled checksum_field set_checksum sent_checksum
patch_checksum_word buf old new =
    let c = Checksum.update_word (checksum_field buf) old new in
    if checksum_disabled buf then buf else set_checksum buf (sent_checksum c)

unfoldable pub patch_checksum_dword : Bytes → ℕ → ℕ → Bytes
unfolding patch_checksum_word
patch_checksum_dword buf old new =
    let buf1 = patch_checksum_word buf (old / 65536) (new / 65536) in
    patch_checksum_word buf1 (old % 65536) (new % 65536)

unfoldable pub set_src_port : Bytes → ℕ → Bytes
unfolding src_port patch_checksum_word
set_src_port buf port =
    let old = src_port buf in patch_checksum_word (write_at buf 0 (to_be16 port)) old port

unfoldable pub set_dst_port : Bytes → ℕ → Bytes
unfolding dst_port patch_checksum_word
set_dst_port buf port =
    let old = dst_port buf in patch_checksum_word (write_at buf 2 (to_be16 port)) old port

unfoldable pub compute_checksum : Ipv4Addr → Ipv4Addr → Bytes → ℕ
unfolding sent_checksum
compute_checksum src dst l4 =
    let pseudo = Ipv4.pseudo_header_sum src dst Ipv4.proto_udp (length l4 % 65536) in
    let acc = Checksum.accumulate pseudo l4 in sent_checksum (Checksum.finalize acc)

unfoldable pub write_header : Bytes → (src_port dst_port payload_len : ℕ) → Bytes × ℕ
write_header buf src_port dst_port payload_len =
    let buf1 = write_at buf 0 (to_be16 src_port) in
    let buf2 = write_at buf1 2 (to_be16 dst_port) in
    let len = (udp_hdr_len + payload_len) % 65536 in
    let buf3 = write_at buf2 4 (to_be16 len) in (write_at buf3 6 (0 ∷ 0 ∷ []), udp_hdr_len)
