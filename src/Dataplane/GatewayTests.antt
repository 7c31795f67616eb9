-- ===== src/Dataplane/GatewayTests.antt =====
-- A frame for the gateway and the reply to it, on which the theorems of the way through the NAT are applied.
use light_andromeda.Prelude.{
  Bytes, ℕ, ◌≡◌, ◌∷◌, [], some, none, take, replicate, ◌++◌, refl, arith, length, ◌+◌, drop,
  write_at,
}
use light_andromeda.Core.Checksum.Sum.{words_sum}
use light_andromeda.Core.Errors.{ok}
use light_andromeda.Core.FiveTuple.{FiveTuple, five_tuple_of}
use light_andromeda.Core.Ipv4
use light_andromeda.Core.Ipv4.Valid.{parse-eq-ok_iff}
use light_andromeda.Core.Overlay.{decap, EncapParams, encap}
use light_andromeda.Core.Overlay.RoundTrip.{decapsulated}
use light_andromeda.Core.Tcp
use light_andromeda.Nat.Apply
use light_andromeda.Nat.Engine
use light_andromeda.Nat.Engine.{reply_of, rewrite_dst}
use light_andromeda.Nat.Engine.Inv.{IsConsistent, process-IsConsistent}
use light_andromeda.Prelude.Map.{lookup, nat_eq}
use light_andromeda.Nat.State.{Binding, tuple_key, Rewrite, outbound}
use light_andromeda.Dataplane.Pipeline.Underlay.{on_underlay_frame}
use light_andromeda.Dataplane.Pipeline.Gateway.Reply.{Returns, tcp-to-tenant}
use light_andromeda.Nat.Apply.Checksums.{TcpRewritten}
use light_andromeda.Dataplane.Tests.{pipeline, nat}
use light_andromeda.Dataplane.Pipeline.State.{Pipeline, new, forward, next_ip_id}
use light_andromeda.Dataplane.Pipeline.Stamp.{flow_hash_of}
use light_andromeda.Dataplane.Pipeline.Stamp.Equiv.{params_of}
use light_andromeda.Dataplane.Pipeline.Delivery.{IsReady}
use light_andromeda.Dataplane.Pipeline.Tenant.{on_tenant_frame}
use light_andromeda.Dataplane.Pipeline.Gateway.{Leaves}
use light_andromeda.Dataplane.Pipeline.Gateway.Delivered.{tenant-to-gateway}
use light_andromeda.Dataplane.Pipeline.Gateway.Tcp.{IsTcp, IsFlow, Translates, tcp-to-gateway}

-- 10.0.0.1:1234 to 10.0.0.2:80, one byte of data.
abbrev tcp_packet : Bytes
tcp_packet =
    69 ∷ 0 ∷ 0 ∷ 41 ∷ 0 ∷ 1 ∷ 64 ∷ 0 ∷ 64 ∷ 6 ∷ 38 ∷ 204 ∷ 10 ∷ 0 ∷ 0 ∷ 1 ∷ 10 ∷ 0 ∷ 0 ∷ 2 ∷ 4 ∷ 210
    ∷ 0 ∷ 80 ∷ 0 ∷ 0 ∷ 0 ∷ 7 ∷ 0 ∷ 0 ∷ 0 ∷ 0 ∷ 80 ∷ 2 ∷ 1 ∷ 0 ∷ 116 ∷ 182 ∷ 0 ∷ 0 ∷ 33 ∷ []

abbrev header : Bytes
header = 2 ∷ 0 ∷ 0 ∷ 0 ∷ 0 ∷ 254 ∷ 2 ∷ 0 ∷ 0 ∷ 0 ∷ 0 ∷ 9 ∷ 8 ∷ 0 ∷ []

abbrev inner : Bytes
inner = header ++ tcp_packet

abbrev tuple : FiveTuple
tuple = record {
  src_ip = 167772161;
  dst_ip = 167772162;
  protocol = 6;
  src_port = 1234;
  dst_port = 80;
}

pipeline-IsReady : IsReady pipeline
unfolding light_andromeda.Dataplane.Pipeline.State.template new
pipeline-IsReady = record { tmpl = refl; local = omega arith }

inner-Leaves : Leaves pipeline inner 3232235780 3325256711
unfolding new light_andromeda.Core.Ethernet.ethertype Ipv4.parse
    light_andromeda.Control.Fabric.resolve light_andromeda.Prelude.Map.lookup
    light_andromeda.Control.Fabric.new Ipv4.dst Ipv4.dont_fragment
inner-Leaves = record {
  ethernet = omega arith;
  ethertype = refl;
  parsed = refl;
  unresolved = refl;
  gateway = refl;
  snat = refl;
  small = refl;
  inner_len = omega arith;
  node = omega arith;
}

tuple-parsed : five_tuple_of (drop 14 inner) ≡ some tuple
unfolding five_tuple_of Ipv4.parse Ipv4.protocol Ipv4.payload Ipv4.src Ipv4.dst Tcp.parse
    Tcp.src_port Tcp.dst_port light_andromeda.Core.FiveTuple.ports_of
tuple-parsed = refl

nat-IsFlow : IsFlow pipeline.nat tuple
unfolding light_andromeda.Prelude.Map.lookup new
nat-IsFlow = record {
  consistent = record {
    range = record { low = omega arith; high = omega arith; word = omega arith };
    tables = record {
      used = λ t b h. absurd (ground (arith, h));
      unique = λ t u b c h k e. absurd (ground (arith, h));
      back = λ t b h. absurd (ground (arith, h));
    };
  };
  address = omega arith;
  not_reply = refl;
  ports = λ b h. absurd (ground (arith, h));
}

packet-IsTcp : IsTcp tcp_packet
unfolding words_sum Ipv4.ihl_bytes Ipv4.total_length Ipv4.parse Ipv4.src Ipv4.dst Ipv4.protocol
    Tcp.parse
packet-IsTcp = record {
  sound = record {
    parsed = (parse-eq-ok_iff tcp_packet).0 refl;
    bytes = omega arith;
    verifies = omega arith;
  };
  proto = refl;
  parsed = refl;
  verifies = omega arith;
}

tenant-to-gateway_example :
    let (nat', rw') = Engine.process pipeline.nat tuple outbound 1000 in
    let (s', sent, d) = on_tenant_frame pipeline inner (replicate 128 0) 1000 in
    let pkt = (Apply.apply tcp_packet rw').0 in
    let p = params_of pipeline.cfg 3232235780 (flow_hash_of pkt) (next_ip_id pipeline).1 4660 in
    (d ≡ forward 105)
    × (s'.nat ≡ nat')
    × (decap (take 105 sent) ≡ ok (some (decapsulated p (header ++ pkt))))
unfolding new
tenant-to-gateway_example =
    tenant-to-gateway pipeline inner (replicate 128 0) tuple 3232235780 3325256711 1000
      pipeline-IsReady inner-Leaves tuple-parsed (omega arith)

tcp-to-gateway_example :
    let (s', sent, d) = on_tenant_frame pipeline inner (replicate 128 0) 1000 in
    (d ≡ forward 105)
    × ((pkt : Bytes) × (rw' : Rewrite) × (decap (take 105 sent)
          ≡ ok (
              some (
                decapsulated
                  (params_of pipeline.cfg 3232235780
                    (flow_hash_of pkt)
                    (next_ip_id pipeline).1
                    4660)
                  (header ++ pkt))))
        × TcpRewritten tcp_packet pkt rw'
        × Translates nat tuple s'.nat rw' 1001)
unfolding new
tcp-to-gateway_example =
    tcp-to-gateway pipeline inner (replicate 128 0) tuple 3232235780 3325256711 1000 1001
      pipeline-IsReady inner-Leaves packet-IsTcp nat-IsFlow tuple-parsed (omega arith)

-- The switch after that packet, and the reply to 198.51.100.7:40000.
abbrev bound : Pipeline
bound = record pipeline { nat = (Engine.process pipeline.nat tuple outbound 1000).0 }

abbrev binding : Binding
binding = record { ip = 3325256711; port = 40000; last_seen = 1000 }

abbrev reply_packet : Bytes
reply_packet =
    69 ∷ 0 ∷ 0 ∷ 41 ∷ 0 ∷ 2 ∷ 64 ∷ 0 ∷ 64 ∷ 6 ∷ 6 ∷ 145 ∷ 10 ∷ 0 ∷ 0 ∷ 2 ∷ 198 ∷ 51 ∷ 100 ∷ 7 ∷ 0
    ∷ 80 ∷ 156 ∷ 64 ∷ 0 ∷ 0 ∷ 0 ∷ 9 ∷ 0 ∷ 0 ∷ 0 ∷ 8 ∷ 80 ∷ 18 ∷ 1 ∷ 0 ∷ 188 ∷ 243 ∷ 0 ∷ 0 ∷ 33 ∷ []

abbrev reply_inner : Bytes
reply_inner = header ++ reply_packet

abbrev gateway : EncapParams
gateway = params_of pipeline.cfg 3232235777 17 5 4660

reply_packet-IsTcp : IsTcp reply_packet
unfolding words_sum Ipv4.ihl_bytes Ipv4.total_length Ipv4.parse Ipv4.src Ipv4.dst Ipv4.protocol
    Tcp.parse
reply_packet-IsTcp = record {
  sound = record {
    parsed = (parse-eq-ok_iff reply_packet).0 refl;
    bytes = omega arith;
    verifies = omega arith;
  };
  proto = refl;
  parsed = refl;
  verifies = omega arith;
}

reply-Returns : Returns bound reply_inner 4660 (reply_of 3325256711 tuple 40000)
unfolding new light_andromeda.Core.Ethernet.ethertype five_tuple_of Ipv4.parse Ipv4.protocol
    Ipv4.payload Ipv4.src Ipv4.dst Tcp.parse Tcp.src_port Tcp.dst_port
    light_andromeda.Core.FiveTuple.ports_of light_andromeda.Dataplane.Pipeline.Underlay.serves
reply-Returns = record {
  ethernet = omega arith;
  ethertype = refl;
  tuple = refl;
  served = refl;
  snat = refl;
}

bound-IsConsistent : IsConsistent bound.nat
bound-IsConsistent = process-IsConsistent pipeline.nat tuple outbound 1000 nat-IsFlow.consistent

bound-binding : lookup tuple bound.nat.snat_fwd ≡ some binding
unfolding new Engine.process lookup light_andromeda.Nat.Ports.alloc_port
    light_andromeda.Prelude.Map.contains light_andromeda.Prelude.Map.insert
    light_andromeda.Core.FiveTuple.tuple_eq
bound-binding = refl

tcp-to-tenant_example :
    let sent = take 105 (encap (replicate 128 0) reply_inner gateway).0 in
    let (s', got, d) = on_underlay_frame bound sent (replicate 64 0) 1005 in
    (d ≡ forward 55)
    × ((pkt : Bytes) × (got ≡ write_at (replicate 64 0) 0 (header ++ pkt))
        × TcpRewritten reply_packet pkt (rewrite_dst 167772161 1234))
unfolding new Engine.process lookup light_andromeda.Nat.Ports.alloc_port
    light_andromeda.Prelude.Map.contains
tcp-to-tenant_example =
    tcp-to-tenant bound (replicate 128 0) (replicate 64 0) reply_inner gateway tuple binding 1005
      (record { src = omega arith; dst = omega arith; flow_hash = omega arith }) bound-IsConsistent
      bound-binding (omega arith) (omega arith) reply-Returns reply_packet-IsTcp (omega arith)
      (omega arith) (omega arith)
