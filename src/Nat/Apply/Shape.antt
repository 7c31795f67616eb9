-- ===== src/Nat/Apply/Shape.antt =====
-- `apply` stores bytes into the packet: it neither grows nor shrinks it.
use light_andromeda.Prelude.{
  ◌/◌, none, Stored-octets, inr, octets, Stored-behind, ◌==◌, inl, some, write_at, Stored-trans,
  Stored-refl, Bool-cases, Stored-to_be16, arith, Stored, Option, Ipv4Addr, ℕ, Bytes,
}
use light_andromeda.Nat.Apply.{
  Rewrite, apply_parsed, patch_udp, patch_tcp, rewrite_src_ip, tcp_dst_port, tcp_patch_address,
  tcp_src_port, udp_patch_address, rewrite_dst_ip, udp_dst_port, udp_src_port, patch_l4, apply,
}
use light_andromeda.Core.Ipv4
use light_andromeda.Core.Tcp
use light_andromeda.Core.Udp

ipv4_checksum-Stored : (b : Bytes) (c : ℕ) → Stored b (Ipv4.set_header_checksum b c)
unfolding Ipv4.set_header_checksum
ipv4_checksum-Stored b c = Stored-to_be16 b 10 c

pub set_src-Stored : (b : Bytes) (ip : Ipv4Addr) → Stored b (Ipv4.set_src b ip).0
unfolding Ipv4.set_src
set_src-Stored b ip =
    let b1 = write_at b 12 (octets ip) in
    Stored-trans b b1 _ (Stored-octets b 12 ip) (ipv4_checksum-Stored b1 _)

pub set_dst-Stored : (b : Bytes) (ip : Ipv4Addr) → Stored b (Ipv4.set_dst b ip).0
unfolding Ipv4.set_dst
set_dst-Stored b ip =
    let b1 = write_at b 16 (octets ip) in
    Stored-trans b b1 _ (Stored-octets b 16 ip) (ipv4_checksum-Stored b1 _)

pub rewrite_src_ip-Stored :
    (b : Bytes) (old : ℕ) (ip : Option Ipv4Addr) → Stored b (rewrite_src_ip b old ip).0
unfolding rewrite_src_ip
rewrite_src_ip-Stored b old none = Stored-refl b
rewrite_src_ip-Stored b old (some s) = set_src-Stored b s

pub rewrite_dst_ip-Stored :
    (b : Bytes) (old : ℕ) (ip : Option Ipv4Addr) → Stored b (rewrite_dst_ip b old ip).0
unfolding rewrite_dst_ip
rewrite_dst_ip-Stored b old none = Stored-refl b
rewrite_dst_ip-Stored b old (some d) = set_dst-Stored b d

tcp_word-Stored : (b : Bytes) (old new : ℕ) → Stored b (Tcp.patch_checksum_word b old new)
unfolding Tcp.patch_checksum_word Tcp.set_checksum
tcp_word-Stored b old new = Stored-to_be16 b 16 _

tcp_address-Stored : (b : Bytes) (old new : ℕ) → Stored b (tcp_patch_address b old new)
unfolding tcp_patch_address Tcp.patch_checksum_dword
tcp_address-Stored b old new = elim (Bool-cases (new == old)) [
  | inl e ↦ rw (e, tcp_patch_address) (Stored-refl b)
  | inr e ↦
      rw (e, tcp_patch_address)
        (Stored-trans b _ _ (tcp_word-Stored b (old / 65536) (new / 65536)) (tcp_word-Stored _ _ _))
]

tcp_src_port-Stored : (b : Bytes) (p : Option ℕ) → Stored b (tcp_src_port b p)
unfolding tcp_src_port Tcp.set_src_port
tcp_src_port-Stored b none = Stored-refl b
tcp_src_port-Stored b (some p) = Stored-trans b _ _ (Stored-to_be16 b 0 p) (tcp_word-Stored _ _ _)

tcp_dst_port-Stored : (b : Bytes) (p : Option ℕ) → Stored b (tcp_dst_port b p)
unfolding tcp_dst_port Tcp.set_dst_port
tcp_dst_port-Stored b none = Stored-refl b
tcp_dst_port-Stored b (some p) = Stored-trans b _ _ (Stored-to_be16 b 2 p) (tcp_word-Stored _ _ _)

patch_tcp-Stored :
    (b : Bytes) (rw' : Rewrite) (s s' d d' : ℕ) → Stored b (patch_tcp b rw' s s' d d')
unfolding patch_tcp
patch_tcp-Stored b rw' s s' d d' = Stored-trans b _ _ (tcp_address-Stored b s s') (
    Stored-trans _ _ _ (tcp_address-Stored _ d d') (
      Stored-trans _ _ _ (tcp_src_port-Stored _ rw'.new_src_port)
        (tcp_dst_port-Stored _ rw'.new_dst_port)))

udp_word-Stored : (b : Bytes) (old new : ℕ) → Stored b (Udp.patch_checksum_word b old new)
unfolding Udp.patch_checksum_word Udp.set_checksum
udp_word-Stored b old new = elim (Bool-cases (Udp.checksum_disabled b)) [
  | inl e ↦ rw (e, Udp.patch_checksum_word) (Stored-refl b)
  | inr e ↦ rw (e, Udp.patch_checksum_word) (Stored-to_be16 b 6 _)
]

udp_address-Stored : (b : Bytes) (old new : ℕ) → Stored b (udp_patch_address b old new)
unfolding udp_patch_address Udp.patch_checksum_dword
udp_address-Stored b old new = elim (Bool-cases (new == old)) [
  | inl e ↦ rw (e, udp_patch_address) (Stored-refl b)
  | inr e ↦
      rw (e, udp_patch_address)
        (Stored-trans b _ _ (udp_word-Stored b (old / 65536) (new / 65536)) (udp_word-Stored _ _ _))
]

udp_src_port-Stored : (b : Bytes) (p : Option ℕ) → Stored b (udp_src_port b p)
unfolding udp_src_port Udp.set_src_port
udp_src_port-Stored b none = Stored-refl b
udp_src_port-Stored b (some p) = Stored-trans b _ _ (Stored-to_be16 b 0 p) (udp_word-Stored _ _ _)

udp_dst_port-Stored : (b : Bytes) (p : Option ℕ) → Stored b (udp_dst_port b p)
unfolding udp_dst_port Udp.set_dst_port
udp_dst_port-Stored b none = Stored-refl b
udp_dst_port-Stored b (some p) = Stored-trans b _ _ (Stored-to_be16 b 2 p) (udp_word-Stored _ _ _)

patch_udp-Stored :
    (b : Bytes) (rw' : Rewrite) (s s' d d' : ℕ) → Stored b (patch_udp b rw' s s' d d')
unfolding patch_udp
patch_udp-Stored b rw' s s' d d' = Stored-trans b _ _ (udp_address-Stored b s s') (
    Stored-trans _ _ _ (udp_address-Stored _ d d') (
      Stored-trans _ _ _ (udp_src_port-Stored _ rw'.new_src_port)
        (udp_dst_port-Stored _ rw'.new_dst_port)))

patch_l4-Stored :
    (b : Bytes) (rw' : Rewrite) (p s s' d d' : ℕ) → Stored b (patch_l4 b rw' p s s' d d').0
unfolding patch_l4 Tcp.parse Udp.parse
patch_l4-Stored b rw' p s s' d d' =
    ground
      (arith, Stored-refl b, patch_tcp-Stored b rw' s s' d d', patch_udp-Stored b rw' s s' d d')

apply_parsed-Stored : (b : Bytes) (rw' : Rewrite) → Stored b (apply_parsed b rw').0
unfolding apply_parsed
apply_parsed-Stored b rw' =
    Stored-trans b _ _ (rewrite_src_ip-Stored b (Ipv4.src b) rw'.new_src_ip) (
      Stored-trans _ _ _ (rewrite_dst_ip-Stored _ (Ipv4.dst b) rw'.new_dst_ip)
        (Stored-behind (Ipv4.ihl_bytes b) _ _ (patch_l4-Stored _ rw' (Ipv4.protocol b) _ _ _ _)))

-- A rewrite, failed ones included, keeps the length of the packet and its bytes below 256.
pub apply-Stored : (b : Bytes) (rw' : Rewrite) → Stored b (apply b rw').0
unfolding apply Ipv4.parse
apply-Stored b rw' = ground (arith, Stored-refl b, apply_parsed-Stored b rw')
