-- ===== src/Nat/Apply.antt =====
-- crates/andromeda-nat/src/lib.rs: `apply`, the byte-level rewrite. The packet is returned beside the
-- result, since a failed rewrite may have changed it.
pub mod TcpArm
pub mod UdpArm
pub mod Sound
pub mod Checksums
pub mod Shape
pub mod Parses
use light_andromeda.Core.Ipv4
use light_andromeda.Core.Tcp
use light_andromeda.Core.Udp
use light_andromeda.Core.Errors.{Result, ok, err}
use light_andromeda.Nat.State.{Rewrite, is_noop}
use light_andromeda.Prelude.{
  ℕ, ◌++◌, not, Option, none, some, Bytes, Ipv4Addr, take, drop, ◌==◌, if◌then◌else◌,
}

-- Step 1: the addresses, each with the value that it then has; `old` is the one before.
unfoldable pub rewrite_src_ip : Bytes → Ipv4Addr → Option Ipv4Addr → Bytes × ℕ
rewrite_src_ip pkt old none = (pkt, old)
rewrite_src_ip pkt old (some s) = let (pkt1, (was, new)) = Ipv4.set_src pkt s in (pkt1, new)

unfoldable pub rewrite_dst_ip : Bytes → Ipv4Addr → Option Ipv4Addr → Bytes × ℕ
rewrite_dst_ip pkt old none = (pkt, old)
rewrite_dst_ip pkt old (some d) = let (pkt1, (was, new)) = Ipv4.set_dst pkt d in (pkt1, new)

-- `if new != old { patch_checksum_dword(old, new) }`, then the port, for TCP.
unfoldable pub tcp_patch_address : Bytes → (old new : ℕ) → Bytes
tcp_patch_address t old new = if not (new == old) then Tcp.patch_checksum_dword t old new else t

unfoldable pub udp_patch_address : Bytes → (old new : ℕ) → Bytes
udp_patch_address u old new = if not (new == old) then Udp.patch_checksum_dword u old new else u

unfoldable pub tcp_src_port : Bytes → Option ℕ → Bytes
tcp_src_port t none = t
tcp_src_port t (some p) = Tcp.set_src_port t p

unfoldable pub tcp_dst_port : Bytes → Option ℕ → Bytes
tcp_dst_port t none = t
tcp_dst_port t (some p) = Tcp.set_dst_port t p

unfoldable pub udp_src_port : Bytes → Option ℕ → Bytes
udp_src_port u none = u
udp_src_port u (some p) = Udp.set_src_port u p

unfoldable pub udp_dst_port : Bytes → Option ℕ → Bytes
udp_dst_port u none = u
udp_dst_port u (some p) = Udp.set_dst_port u p

-- The TCP arm of step 2.
unfoldable pub patch_tcp : Bytes → Rewrite → (old_src new_src old_dst new_dst : ℕ) → Bytes
unfolding tcp_patch_address tcp_src_port tcp_dst_port
patch_tcp t rw' old_src new_src old_dst new_dst =
    let t1 = tcp_patch_address t old_src new_src in
    let t2 = tcp_patch_address t1 old_dst new_dst in
    tcp_dst_port (tcp_src_port t2 rw'.new_src_port) rw'.new_dst_port

-- The UDP arm of step 2.
unfoldable pub patch_udp : Bytes → Rewrite → (old_src new_src old_dst new_dst : ℕ) → Bytes
unfolding udp_patch_address udp_src_port udp_dst_port
patch_udp u rw' old_src new_src old_dst new_dst =
    let u1 = udp_patch_address u old_src new_src in
    let u2 = udp_patch_address u1 old_dst new_dst in
    udp_dst_port (udp_src_port u2 rw'.new_src_port) rw'.new_dst_port

-- Step 2: the L4 checksum and the ports, of what lies behind the header.
unfoldable pub patch_l4 :
    Bytes → Rewrite → (protocol old_src new_src old_dst new_dst : ℕ) → Bytes × Result (Unit {0})
patch_l4 l4 rw' protocol old_src new_src old_dst new_dst =
    if protocol == Ipv4.proto_tcp
    then (elim (Tcp.parse l4) [
      | ok t ↦ (patch_tcp t rw' old_src new_src old_dst new_dst, ok tt)
      | err e ↦ (l4, err e)
    ])
    else if protocol == Ipv4.proto_udp
    then (elim (Udp.parse l4) [
      | ok u ↦ (patch_udp u rw' old_src new_src old_dst new_dst, ok tt)
      | err e ↦ (l4, err e)
    ])
    else (l4, ok tt)

-- The rewrite of a packet whose header was parsed. The source parses it again, unchanged, for the
-- mutable view.
unfoldable pub apply_parsed : Bytes → Rewrite → Bytes × Result (Unit {0})
apply_parsed pkt rw' =
    let ihl = Ipv4.ihl_bytes pkt in
    let old_src = Ipv4.src pkt in
    let old_dst = Ipv4.dst pkt in
    let (pkt1, new_src) = rewrite_src_ip pkt old_src rw'.new_src_ip in
    let (pkt2, new_dst) = rewrite_dst_ip pkt1 old_dst rw'.new_dst_ip in
    let (l4, result) =
      patch_l4 (drop ihl pkt2) rw' (Ipv4.protocol pkt) old_src new_src old_dst new_dst in
    (take ihl pkt2 ++ l4, result)

unfoldable pub apply : Bytes → Rewrite → Bytes × Result (Unit {0})
apply pkt rw' =
    if is_noop rw'
    then (pkt, ok tt)
    else (elim (Ipv4.parse pkt) [ err e ↦ (pkt, err e) | ok v ↦ apply_parsed pkt rw' ])
