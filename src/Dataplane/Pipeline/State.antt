-- ===== src/Dataplane/Pipeline/State.antt =====
-- crates/andromeda-dataplane/src/pipeline.rs: the configuration, the state and the decisions of a
-- pipeline. The shared handle of the fabric is the fabric that it holds; a reload is a step of its
-- own between two frames.
use light_andromeda.Core.Ethernet.{MacAddr}
use light_andromeda.Core.Ethernet
use light_andromeda.Core.Ipv4
use light_andromeda.Core.Overlay
use light_andromeda.Control.Fabric.{Fabric}
use light_andromeda.Nat.State.{NatEngine}
use light_andromeda.Nat.TimingWheel.{u64_mod}
use light_andromeda.Nat.Gc
use light_andromeda.Prelude.{
  ℕ, ◌+◌, ◌%◌, Bool, Option, String, Bytes, Ipv4Addr, be16, byte_at, octets, to_be16, replicate,
  set, write_at, update_slice,
}

pub record PipelineConfig : Type 0 where
  pub local_node_ip : Ipv4Addr
  pub outer_src_mac : MacAddr
  pub outer_dst_mac : MacAddr
  pub vni : ℕ
  pub nat_ip : Option Ipv4Addr
  pub gateway_node_ip : Option Ipv4Addr
  pub virtual_gateway_mac : MacAddr
  pub outer_udp_checksum : Bool
  pub underlay_mtu : ℕ
  pub virtual_gateway_ip : Ipv4Addr

-- The reason of a drop is the source's label.
pub data Decision : Type 0 where
  forward : ℕ → Decision
  reply : ℕ → Decision
  dropped : String → Decision
  pass : Decision

pub record PipelineStats : Type 0 where
  pub encapped : ℕ
  pub decapped : ℕ
  pub natted : ℕ
  pub arp_replied : ℕ
  pub pmtud_replied : ℕ
  pub drops : ℕ
  pub passed : ℕ

pub record FrameSlot : Type 0 where
  pub offset : ℕ
  pub inner_len : ℕ

pub record OuterTemplate : Type 0 where
  pub prefix : Bytes
  pub ip_csum_base : ℕ

-- The stores of `OuterTemplate::new` into the 42 zero bytes.
unfoldable pub template_prefix : PipelineConfig → Bytes
template_prefix cfg =
    let p0 = update_slice (replicate 42 0) 0 14 (λ h.
      (Ethernet.write_header h cfg.outer_dst_mac cfg.outer_src_mac Ethernet.ethertype_ipv4).0) in
    let p1 = write_at (set p0 14 0x45) 20 (to_be16 0x4000) in
    let p2 = set (set p1 22 64) 23 Ipv4.proto_udp in
    let p3 = write_at p2 26 (octets cfg.local_node_ip) in
    write_at p3 36 (to_be16 Overlay.andromeda_udp_port)

unfoldable pub template : PipelineConfig → OuterTemplate
unfolding template_prefix
template cfg =
    let p = template_prefix cfg in
    record {
      prefix = p;
      ip_csum_base =
          0x4500
          + 0x4000
          + 0x4011
          + be16 (byte_at p 26) (byte_at p 27)
          + be16 (byte_at p 28) (byte_at p 29);
    }

pub record Pipeline : Type 0 where
  pub cfg : PipelineConfig
  pub fabric : Fabric
  pub nat : NatEngine
  pub tmpl : OuterTemplate
  pub ip_id : ℕ
  pub stats : PipelineStats

abbrev pub no_stats : PipelineStats
no_stats = record {
  encapped = 0;
  decapped = 0;
  natted = 0;
  arp_replied = 0;
  pmtud_replied = 0;
  drops = 0;
  passed = 0;
}

-- `Pipeline::new` and `new_shared`.
unfoldable pub new : PipelineConfig → Fabric → NatEngine → Pipeline
unfolding template
new cfg fabric nat = record {
  cfg = cfg;
  fabric = fabric;
  nat = nat;
  tmpl = template cfg;
  ip_id = 0;
  stats = no_stats;
}

unfoldable pub reload_fabric : Pipeline → Fabric → Pipeline
reload_fabric s fabric = record s { fabric = fabric }

unfoldable pub gc : Pipeline → (now idle_timeout : ℕ) → Pipeline × ℕ
gc s now idle_timeout =
    let (nat, freed) = Gc.gc s.nat now idle_timeout in (record s { nat = nat }, freed)

-- `n += 1` on `u64`.
abbrev pub inc : ℕ → ℕ
inc n = (n + 1) % u64_mod

unfoldable pub next_ip_id : Pipeline → Pipeline × ℕ
next_ip_id s = let id = (s.ip_id + 1) % 65536 in (record s { ip_id = id }, id)

-- `self.drop(why)`
unfoldable pub drop_frame : Pipeline → String → Pipeline × Decision
drop_frame s why = (record s { stats = record s.stats { drops = inc s.stats.drops } }, dropped why)
