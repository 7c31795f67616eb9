-- ===== src/Dataplane/Tests.antt =====
-- Configurations, buffers and rings on which the theorems of the dataplane are applied.
use light_andromeda.Prelude.{refl, arith, true, ◌≡◌, [], some, replicate}
use light_andromeda.Control.Fabric
use light_andromeda.Core.Errors.{ok}
use light_andromeda.Core.Overlay.{encap_in_place}
use light_andromeda.Dataplane.Pipeline.State.{PipelineConfig, Pipeline, new}
use light_andromeda.Dataplane.Pipeline.Stamp.{stamp_outer}
use light_andromeda.Dataplane.Pipeline.Stamp.Equiv.{params_of, stamp_outer-eq}
use light_andromeda.Nat.State.{NatEngine, zero_stats}

abbrev pub config : PipelineConfig
config = record {
  local_node_ip = 3232235777;
  outer_src_mac = record { b0 = 2; b1 = 0; b2 = 0; b3 = 0; b4 = 0; b5 = 1 };
  outer_dst_mac = record { b0 = 2; b1 = 0; b2 = 0; b3 = 0; b4 = 0; b5 = 2 };
  vni = 4660;
  nat_ip = some 3325256711;
  gateway_node_ip = some 3232235780;
  virtual_gateway_mac = record { b0 = 2; b1 = 0; b2 = 0; b3 = 0; b4 = 0; b5 = 254 };
  outer_udp_checksum = true;
  underlay_mtu = 1500;
  virtual_gateway_ip = 167772161;
}

abbrev pub nat : NatEngine
nat = record {
  nat_ip = 3325256711;
  port_min = 40000;
  port_max = 40002;
  next_port = 40000;
  used_ports = [];
  dnat_rules = [];
  snat_fwd = [];
  snat_rev = [];
  dnat_rev = [];
  wheel = record { slots = replicate 4 []; tick = 1000; now = 0 };
  idle_timeout = 120000;
  stats = zero_stats;
}

abbrev pub pipeline : Pipeline
pipeline = new config (Fabric.new 3232235777) nat

stamp_outer-eq_example :
    encap_in_place (replicate 64 255) 11 (params_of config 3232235778 777 9 4660)
    ≡ (stamp_outer pipeline (replicate 64 255) 11 3232235778 777 9 4660, ok 61)
unfolding light_andromeda.Dataplane.Pipeline.State.template new
stamp_outer-eq_example =
    stamp_outer-eq pipeline (replicate 64 255) 11 3232235778 777 9 4660 refl (omega arith)
      (omega arith) (omega arith)
