-- ===== src/Core/Ethernet.antt =====
-- crates/andromeda-core/src/ethernet.rs: Ethernet II frames. A view is the buffer that it borrows,
-- and a mutable view's method returns the buffer that it leaves.
pub mod Header
pub mod Mac
use light_andromeda.Prelude.{
  ◌+◌, ℕ, ◌%◌, [], ◌∷◌, Bool, ◌&&◌, Bytes, byte_at, be16_at, to_be16, not, length, drop, write_at,
  ltb, ◌==◌, if◌then◌else◌,
}
use light_andromeda.Core.Errors.{Result, ok, err, too_short}

abbrev pub eth_hdr_len : ℕ
eth_hdr_len = 14

abbrev pub ethertype_ipv4 : ℕ
ethertype_ipv4 = 0x0800

abbrev pub ethertype_arp : ℕ
ethertype_arp = 0x0806

-- `MacAddr([u8; 6])`.
pub record MacAddr : Type 0 where
  pub b0 : ℕ
  pub b1 : ℕ
  pub b2 : ℕ
  pub b3 : ℕ
  pub b4 : ℕ
  pub b5 : ℕ

-- The array as a slice, `&m.0`.
abbrev pub mac_bytes : MacAddr → Bytes
mac_bytes m = m.b0 ∷ m.b1 ∷ m.b2 ∷ m.b3 ∷ m.b4 ∷ m.b5 ∷ []

-- `m.copy_from_slice(&buf[i..i + 6])`, at an offset `i`.
unfoldable pub mac_at : Bytes → ℕ → MacAddr
mac_at buf i = record {
  b0 = byte_at buf i;
  b1 = byte_at buf (1 + i);
  b2 = byte_at buf (2 + i);
  b3 = byte_at buf (3 + i);
  b4 = byte_at buf (4 + i);
  b5 = byte_at buf (5 + i);
}

abbrev pub broadcast : MacAddr
broadcast = record { b0 = 0xff; b1 = 0xff; b2 = 0xff; b3 = 0xff; b4 = 0xff; b5 = 0xff }

unfoldable pub mac_eq : MacAddr → MacAddr → Bool
mac_eq m n =
    m.b0 == n.b0 && m.b1 == n.b1 && m.b2 == n.b2 && m.b3 == n.b3 && m.b4 == n.b4 && m.b5 == n.b5

unfoldable pub is_multicast : MacAddr → Bool
is_multicast m = not (m.b0 % 2 == 0)

unfoldable pub is_broadcast : MacAddr → Bool
unfolding mac_eq
is_broadcast m = mac_eq m broadcast

-- `EthFrame::parse` and `EthFrameMut::parse`.
unfoldable pub parse : Bytes → Result Bytes
parse buf =
    if ltb (length buf) eth_hdr_len
    then err (too_short "ethernet" eth_hdr_len (length buf))
    else ok buf

unfoldable pub dst : Bytes → MacAddr
unfolding mac_at
dst buf = mac_at buf 0

unfoldable pub src : Bytes → MacAddr
unfolding mac_at
src buf = mac_at buf 6

unfoldable pub ethertype : Bytes → ℕ
ethertype buf = be16_at buf 12

unfoldable pub payload : Bytes → Bytes
payload buf = drop eth_hdr_len buf

unfoldable pub set_dst : Bytes → MacAddr → Bytes
set_dst buf m = write_at buf 0 (mac_bytes m)

unfoldable pub set_src : Bytes → MacAddr → Bytes
set_src buf m = write_at buf 6 (mac_bytes m)

unfoldable pub set_ethertype : Bytes → ℕ → Bytes
set_ethertype buf ty = write_at buf 12 (to_be16 ty)

-- The buffer with the header written, and the number of bytes of it.
unfoldable pub write_header : Bytes → MacAddr → MacAddr → ℕ → Bytes × ℕ
write_header buf dst src ethertype =
    let buf1 = write_at buf 0 (mac_bytes dst) in
    let buf2 = write_at buf1 6 (mac_bytes src) in
    (write_at buf2 12 (to_be16 ethertype), eth_hdr_len)
