-- ===== src/Nat/Tests.antt =====
-- Packets and engines on which the theorems of the NAT are applied.
use light_andromeda.Prelude.{
  ◌<◌, Bool, get_or, ◌%◌, true, ◌≤◌, ◌↔◌, length, replicate, none, ℕ, ◌+◌, refl, inr, ◌≡◌, [], ◌∷◌,
  some, Bytes, arith,
}
use mathlib.Core.List.{Mem}
use light_andromeda.Nat.State.{NatEngine, zero_stats, Rewrite, no_rewrite}
use light_andromeda.Nat.Ports.{alloc_port}
use light_andromeda.Nat.Ports.Scan.{InRange, Takes, alloc_port-some, alloc_port-none_iff}
use light_andromeda.Nat.TimingWheel
use light_andromeda.Nat.TimingWheel.{TimingWheel, steps}
use light_andromeda.Nat.TimingWheel.Delivery.{advance-insert}
use light_andromeda.Nat.TimingWheel.Conserved.{count, total_count, advance-count}
use light_andromeda.Prelude.Map.{contains, nat_eq}
use light_andromeda.Core.Ipv4.Rewrite.{IsSound}
use light_andromeda.Core.Udp
use light_andromeda.Core.Tcp
use light_andromeda.Nat.Apply.{apply}
use light_andromeda.Core.Ipv4
use light_andromeda.Core.Ipv4.{src, dst, ihl_bytes, total_length, protocol}
use light_andromeda.Core.Ipv4.Valid.{parse-eq-ok_iff}
use light_andromeda.Core.Errors.{ok}
use light_andromeda.Core.Checksum.Sum.{words_sum}
use light_andromeda.Nat.Apply.Checksums.{apply-tcp, apply-udp, TcpRewritten, UdpRewritten}
use light_andromeda.Nat.Apply.Sound.{IsRewrite, TcpVerifies, UdpVerifies}

-- 10.0.0.1:1234 to 10.0.0.2:80, one byte of data.
abbrev tcp_packet : Bytes
tcp_packet =
    69 ∷ 0 ∷ 0 ∷ 41 ∷ 0 ∷ 1 ∷ 64 ∷ 0 ∷ 64 ∷ 6 ∷ 38 ∷ 204 ∷ 10 ∷ 0 ∷ 0 ∷ 1 ∷ 10 ∷ 0 ∷ 0 ∷ 2 ∷ 4 ∷ 210
    ∷ 0 ∷ 80 ∷ 0 ∷ 0 ∷ 0 ∷ 7 ∷ 0 ∷ 0 ∷ 0 ∷ 0 ∷ 80 ∷ 2 ∷ 1 ∷ 0 ∷ 116 ∷ 182 ∷ 0 ∷ 0 ∷ 33 ∷ []

-- 10.0.0.1:1234 to 10.0.0.2:53, three bytes of data.
abbrev udp_packet : Bytes
udp_packet =
    69 ∷ 0 ∷ 0 ∷ 31 ∷ 0 ∷ 1 ∷ 64 ∷ 0 ∷ 64 ∷ 17 ∷ 38 ∷ 203 ∷ 10 ∷ 0 ∷ 0 ∷ 1 ∷ 10 ∷ 0 ∷ 0 ∷ 2 ∷ 4
    ∷ 210 ∷ 0 ∷ 53 ∷ 0 ∷ 11 ∷ 226 ∷ 204 ∷ 1 ∷ 2 ∷ 3 ∷ []

-- 10.0.0.1:1234 becomes 198.51.100.7:40000.
abbrev source_nat : Rewrite
source_nat = record no_rewrite { new_src_ip = some 3325256711; new_src_port = some 40000 }

source_nat-IsRewrite : IsRewrite source_nat
source_nat-IsRewrite = record {
  src_ip = omega arith;
  dst_ip = tt;
  src_port = omega arith;
  dst_port = tt;
}

tcp_packet-IsSound : IsSound tcp_packet
unfolding words_sum ihl_bytes total_length Ipv4.parse
tcp_packet-IsSound = record {
  parsed = (parse-eq-ok_iff tcp_packet).0 refl;
  bytes = omega arith;
  verifies = omega arith;
}

tcp_packet-TcpVerifies : TcpVerifies tcp_packet
unfolding words_sum ihl_bytes src dst
tcp_packet-TcpVerifies = omega arith

udp_packet-IsSound : IsSound udp_packet
unfolding words_sum ihl_bytes total_length Ipv4.parse
udp_packet-IsSound = record {
  parsed = (parse-eq-ok_iff udp_packet).0 refl;
  bytes = omega arith;
  verifies = omega arith;
}

udp_packet-UdpVerifies : UdpVerifies udp_packet
unfolding words_sum ihl_bytes src dst Udp.checksum_field
udp_packet-UdpVerifies = inr (omega arith, omega arith)

apply-tcp_example :
    let (pkt', result) = apply tcp_packet source_nat in
    (result ≡ ok tt) × TcpRewritten tcp_packet pkt' source_nat
unfolding protocol Tcp.parse ihl_bytes
apply-tcp_example =
    apply-tcp tcp_packet source_nat tcp_packet-IsSound source_nat-IsRewrite refl refl
      tcp_packet-TcpVerifies

apply-udp_example :
    let (pkt', result) = apply udp_packet source_nat in
    (result ≡ ok tt) × UdpRewritten udp_packet pkt' source_nat
unfolding protocol Udp.parse ihl_bytes
apply-udp_example =
    apply-udp udp_packet source_nat udp_packet-IsSound source_nat-IsRewrite refl refl
      udp_packet-UdpVerifies

-- Ports 40000 to 40002, of which the first is taken.
abbrev engine : NatEngine
engine = record {
  nat_ip = 3325256711;
  port_min = 40000;
  port_max = 40002;
  next_port = 40000;
  used_ports = 40000 ∷ [];
  dnat_rules = [];
  snat_fwd = [];
  snat_rev = [];
  dnat_rev = [];
  wheel = record { slots = replicate 4 []; tick = 1000; now = 0 };
  idle_timeout = 120000;
  stats = zero_stats;
}

engine-InRange : InRange engine
engine-InRange = record { low = omega arith; high = omega arith; word = omega arith }

alloc_port-some_example :
    Takes engine (alloc_port engine 40000).0 40001 × InRange (alloc_port engine 40000).0
unfolding alloc_port contains
alloc_port-some_example = alloc_port-some engine 40000 40001 engine-InRange refl

alloc_port-none_iff_example :
    ((alloc_port engine 40000).1 ≡ none)
    ↔ ((q : ℕ) → 40000 ≤ q → q ≤ 40002 → contains engine.used_ports q ≡ true)
alloc_port-none_iff_example = alloc_port-none_iff engine 40000 engine-InRange

-- Four buckets of ten time units, at time 25.
abbrev wheel : TimingWheel ℕ
wheel = record { slots = replicate 4 []; tick = 10; now = 25 }

-- The deadline is more than one turn of the wheel ahead.
advance-insert_example : Mem 7 (TimingWheel.advance (TimingWheel.insert wheel 7 83) 95 []).1
advance-insert_example =
    advance-insert wheel 7 83 95 [] (omega arith) (omega arith) (omega arith) (omega arith)

-- Two entries, of which the first one's deadline has come.
abbrev filled : TimingWheel ℕ
filled = TimingWheel.insert (TimingWheel.insert wheel 7 31) 8 60

advance-count_example :
    let (w', due') = TimingWheel.advance filled 45 [] in
    ((f : ℕ → Bool) → total_count f w'.slots + count f due' ≡ total_count f filled.slots + 0)
    × (length w'.slots ≡ 4)
    × ((t : ℕ) → 2 < t → t ≤ 4 → t ≤ 6 → get_or w'.slots (t % 4) [] ≡ [])
unfolding count TimingWheel.insert
advance-count_example = advance-count filled 45 [] (omega arith) (omega arith)
