-- ===== src/Core/Tcp.antt =====
-- crates/andromeda-core/src/tcp.rs: the fixed part of TCP headers. A view is the buffer that it
-- borrows.
pub mod Patch
use light_andromeda.Core.Checksum
use light_andromeda.Core.Ipv4
use light_andromeda.Prelude.{
  ℕ, ◌*◌, ◌/◌, ◌%◌, ◌||◌, Bytes, Ipv4Addr, byte_at, be16_at, to_be16, ipv4, length, drop, write_at,
  ltb, if◌then◌else◌,
}
use light_andromeda.Core.Errors.{Result, ok, err, too_short, bad_header_len}

abbrev pub tcp_min_hdr_len : ℕ
tcp_min_hdr_len = 20

unfoldable pub data_offset : Bytes → ℕ
data_offset buf = byte_at buf 12 / 16 * 4

-- `TcpView::parse`, and `TcpViewMut::parse`, which calls it.
unfoldable pub parse : Bytes → Result Bytes
unfolding data_offset
parse buf =
    let data_off = data_offset buf in
    if ltb (length buf) tcp_min_hdr_len
    then err (too_short "tcp" tcp_min_hdr_len (length buf))
    else if ltb data_off tcp_min_hdr_len || ltb (length buf) data_off
    then err (bad_header_len "tcp" data_off)
    else ok buf

unfoldable pub src_port : Bytes → ℕ
src_port buf = be16_at buf 0

unfoldable pub dst_port : Bytes → ℕ
dst_port buf = be16_at buf 2

-- `seq` and `ack`: a `u32` is read as the four octets of an address are.
unfoldable pub seq : Bytes → ℕ
seq buf = ipv4 (byte_at buf 4) (byte_at buf 5) (byte_at buf 6) (byte_at buf 7)

unfoldable pub ack : Bytes → ℕ
ack buf = ipv4 (byte_at buf 8) (byte_at buf 9) (byte_at buf 10) (byte_at buf 11)

unfoldable pub flags : Bytes → ℕ
flags buf = byte_at buf 13

unfoldable pub window : Bytes → ℕ
window buf = be16_at buf 14

unfoldable pub checksum_field : Bytes → ℕ
checksum_field buf = be16_at buf 16

unfoldable pub payload : Bytes → Bytes
unfolding data_offset
payload buf = drop (data_offset buf) buf

unfoldable pub set_checksum : Bytes → ℕ → Bytes
set_checksum buf c = write_at buf 16 (to_be16 c)

unfoldable pub patch_checksum_word : Bytes → ℕ → ℕ → Bytes
unfolding checksum_field set_checksum
patch_checksum_word buf old new =
    set_checksum buf (Checksum.update_word (checksum_field buf) old new)

unfoldable pub patch_checksum_dword : Bytes → ℕ → ℕ → Bytes
unfolding patch_checksum_word
patch_checksum_dword buf old new =
    let buf1 = patch_checksum_word buf (old / 65536) (new / 65536) in
    patch_checksum_word buf1 (old % 65536) (new % 65536)

unfoldable pub set_src_port : Bytes → ℕ → Bytes
unfolding src_port patch_checksum_word
set_src_port buf port =
    let old = src_port buf in patch_checksum_word (write_at buf 0 (to_be16 port)) old port

unfoldable pub set_dst_port : Bytes → ℕ → Bytes
unfolding dst_port patch_checksum_word
set_dst_port buf port =
    let old = dst_port buf in patch_checksum_word (write_at buf 2 (to_be16 port)) old port

unfoldable pub compute_checksum : Ipv4Addr → Ipv4Addr → Bytes → ℕ
compute_checksum src dst l4 =
    let pseudo = Ipv4.pseudo_header_sum src dst Ipv4.proto_tcp (length l4 % 65536) in
    Checksum.finalize (Checksum.accumulate pseudo l4)
