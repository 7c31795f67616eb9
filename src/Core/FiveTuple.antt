-- ===== src/Core/FiveTuple.antt =====
-- `FiveTuple` and `five_tuple_of` of crates/andromeda-core/src/lib.rs.
use light_andromeda.Core.Ipv4
use light_andromeda.Core.Tcp
use light_andromeda.Core.Udp
use light_andromeda.Prelude.{
  ℕ, Bool, ◌&&◌, Option, none, some, Bytes, Ipv4Addr, ◌==◌, if◌then◌else◌,
}
use light_andromeda.Core.Errors.{ok, err}

pub record FiveTuple : Type 0 where
  pub src_ip : Ipv4Addr
  pub dst_ip : Ipv4Addr
  pub protocol : ℕ
  pub src_port : ℕ
  pub dst_port : ℕ

unfoldable pub reversed : FiveTuple → FiveTuple
reversed t = record {
  src_ip = t.dst_ip;
  dst_ip = t.src_ip;
  protocol = t.protocol;
  src_port = t.dst_port;
  dst_port = t.src_port;
}

-- The derived `PartialEq`.
unfoldable pub tuple_eq : FiveTuple → FiveTuple → Bool
tuple_eq a b =
    a.src_ip == b.src_ip
    && a.dst_ip == b.dst_ip
    && a.protocol == b.protocol
    && a.src_port == b.src_port
    && a.dst_port == b.dst_port

-- The ports of the L4 header, for TCP and UDP alone.
unfoldable pub ports_of : ℕ → Bytes → Option (ℕ × ℕ)
ports_of proto l4 =
    if proto == Ipv4.proto_tcp
    then (elim (Tcp.parse l4) [ ok t ↦ some (Tcp.src_port t, Tcp.dst_port t) | err e ↦ none ])
    else if proto == Ipv4.proto_udp
    then (elim (Udp.parse l4) [ ok u ↦ some (Udp.src_port u, Udp.dst_port u) | err e ↦ none ])
    else none

unfoldable pub five_tuple_of : Bytes → Option FiveTuple
unfolding ports_of
five_tuple_of ipv4_packet = elim (Ipv4.parse ipv4_packet) [
  | ok ip ↦ elim (ports_of (Ipv4.protocol ip) (Ipv4.payload ip)) [
    | some (src_port, dst_port) ↦ some (record {
      src_ip = Ipv4.src ip;
      dst_ip = Ipv4.dst ip;
      protocol = Ipv4.protocol ip;
      src_port = src_port;
      dst_port = dst_port;
    })
    | none ↦ none
  ]
  | err e ↦ none
]
