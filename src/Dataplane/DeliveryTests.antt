-- ===== src/Dataplane/DeliveryTests.antt =====
-- Two nodes on which the theorems of delivery, of the lengths and of the batch handler are applied.
use light_andromeda.Prelude.{
  List, ◌++◌, false, ◌≡◌, refl, arith, [], ◌∷◌, true, none, replicate, Bytes, length, take,
}
use light_andromeda.Control.Fabric
use light_andromeda.Control.Fabric.{Fabric, NextHop}
use light_andromeda.Dataplane.Tests.{config, nat}
use light_andromeda.Dataplane.Pipeline.State.{Pipeline, PipelineConfig, new, forward, FrameSlot}
use light_andromeda.Dataplane.Pipeline.Tenant.{on_tenant_frame}
use light_andromeda.Dataplane.Pipeline.Underlay.{on_underlay_frame}
use light_andromeda.Dataplane.Pipeline.Delivery.{tenant-to-tenant, readdressed}
use light_andromeda.Dataplane.Pipeline.Batch.{encap_batch_inplace}
use light_andromeda.Dataplane.Pipeline.Batch.Inplace.{inplace_loop, encap_batch_inplace-loop}

-- A UDP packet from 10.0.0.1 to 10.0.0.2, in a frame to the virtual gateway.
abbrev packet : Bytes
packet =
    69 ∷ 0 ∷ 0 ∷ 31 ∷ 0 ∷ 1 ∷ 64 ∷ 0 ∷ 64 ∷ 17 ∷ 38 ∷ 203 ∷ 10 ∷ 0 ∷ 0 ∷ 1 ∷ 10 ∷ 0 ∷ 0 ∷ 2 ∷ 4
    ∷ 210 ∷ 0 ∷ 53 ∷ 0 ∷ 11 ∷ 226 ∷ 204 ∷ 1 ∷ 2 ∷ 3 ∷ []

abbrev inner : Bytes
inner = 2 ∷ 0 ∷ 0 ∷ 0 ∷ 0 ∷ 254 ∷ 2 ∷ 0 ∷ 0 ∷ 0 ∷ 0 ∷ 9 ∷ 8 ∷ 0 ∷ packet

-- 10.0.0.2 lives on the second node.
abbrev fabric : Fabric
fabric = Fabric.add_endpoint (Fabric.new 3232235777) (record {
  vni = 4660;
  inner_ip = 167772162;
  inner_mac = record { b0 = 2; b1 = 0; b2 = 0; b3 = 0; b4 = 0; b5 = 10 };
  node_ip = 3232235778;
  local = false;
})

abbrev hop : NextHop
hop = record {
  node_ip = 3232235778;
  inner_mac = record { b0 = 2; b1 = 0; b2 = 0; b3 = 0; b4 = 0; b5 = 10 };
  local = false;
}

abbrev sender : Pipeline
sender = new config fabric nat

abbrev receiver : Pipeline
receiver =
    new (record config { local_node_ip = 3232235778; nat_ip = none }) (Fabric.new 3232235778) nat

tenant-to-tenant_example :
    let (s', sent, d) = on_tenant_frame sender inner (replicate 128 0) 1000 in
    let (r', got, e) = on_underlay_frame receiver (take 95 sent) (replicate 64 0) 1001 in
    (d ≡ forward 95) × (e ≡ forward 45) × (got ≡ readdressed inner hop ++ replicate 19 0)
unfolding light_andromeda.Dataplane.Pipeline.State.template new
    light_andromeda.Core.Ethernet.ethertype light_andromeda.Core.Ipv4.parse
    light_andromeda.Core.Ethernet.payload Fabric.resolve light_andromeda.Prelude.Map.lookup
    Fabric.add_endpoint light_andromeda.Prelude.Map.insert Fabric.new light_andromeda.Core.Ipv4.dst
    light_andromeda.Core.Ipv4.dont_fragment light_andromeda.Dataplane.Pipeline.Underlay.serves
tenant-to-tenant_example =
    tenant-to-tenant sender receiver inner packet (replicate 128 0) (replicate 64 0) hop 1000 1001
      (record { tmpl = refl; local = omega arith })
      (record {
        ethernet = omega arith;
        ethertype = refl;
        parsed = refl;
        resolved = refl;
        small = refl;
        inner_len = omega arith;
        node = omega arith;
      })
      (omega arith) refl refl (omega arith)

-- The frame behind its headroom, in a slot of its own; and a slot that lies outside of the buffer.
abbrev shared_buf : Bytes
shared_buf = replicate 50 0 ++ inner ++ replicate 10 0

abbrev slots : List FrameSlot
slots = record { offset = 0; inner_len = 45 } ∷ record { offset = 80; inner_len = 45 } ∷ []

encap_batch_inplace-loop_example :
    let (s1, buf1, n) = encap_batch_inplace sender shared_buf slots 1000 in
    (record s1 { stats = record s1.stats { drops = 0 } }, buf1, n)
    ≡ inplace_loop sender shared_buf 0 slots 1000
unfolding new
encap_batch_inplace-loop_example =
    encap_batch_inplace-loop sender shared_buf slots 1000 (omega arith) (omega arith)
