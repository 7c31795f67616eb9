-- ===== src/Dataplane/Pipeline/Batch.antt =====
-- crates/andromeda-dataplane/src/pipeline.rs: `encap_batch_inplace`. Its loop carries the locals that
-- the source hoists out of the pipeline, and writes them back at the end.
pub mod Header
pub mod Inplace
use light_andromeda.Core.Ethernet
use light_andromeda.Core.Errors.{ok, err}
use light_andromeda.Core.FiveTuple.{five_tuple_of}
use light_andromeda.Core.Ipv4
use light_andromeda.Core.Overlay.{overlay_overhead}
use light_andromeda.Nat.Apply
use light_andromeda.Nat.Engine
use light_andromeda.Nat.State.{outbound, is_noop}
use light_andromeda.Nat.TimingWheel.{u64_mod}
use light_andromeda.Dataplane.Pipeline.State.{Pipeline, FrameSlot}
use light_andromeda.Dataplane.Pipeline.Stamp.{flow_hash_of, stamp_outer}
use light_andromeda.Dataplane.Pipeline.Tenant.{Route, route, needs_frag, set_inner_mac}
use light_andromeda.Prelude.{
  ℕ, ◌+◌, ◌%◌, not, none, some, List, [], ◌∷◌, ◌++◌, Bytes, slice, length, take, drop, update_slice,
  ltb, ◌==◌, if◌then◌else◌,
}

-- The locals of the loop, with the pipeline and the shared buffer.
pub record BatchState : Type 0 where
  pub pipeline : Pipeline
  pub buf : Bytes
  pub ip_id : ℕ
  pub forwarded : ℕ
  pub natted : ℕ
  pub mtu_dropped : ℕ

-- The translation of `frame[ip_off..]`.
unfoldable pub batch_translate : BatchState → Bytes → (ip_off now : ℕ) → BatchState × Bytes
batch_translate b frame ip_off now = elim (five_tuple_of (drop ip_off frame)) [
  | none ↦ (b, frame)
  | some t ↦
      let (nat, rw') = Engine.process b.pipeline.nat t outbound now in
      let b1 : BatchState = record b { pipeline = record (b.pipeline) { nat = nat } } in
      if is_noop rw' then (b1, frame) else (
        record b1 { natted = (b1.natted + 1) % u64_mod },
        take ip_off frame ++ (Apply.apply (drop ip_off frame) rw').0,
      )
]

unfoldable pub batch_snat : BatchState → Bytes → (flow now : ℕ) → BatchState × Bytes × ℕ
unfolding batch_translate
batch_snat b frame flow now =
    let ip_off = overlay_overhead + Ethernet.eth_hdr_len in
    let (b1, frame1) = batch_translate b frame ip_off now in
    elim (Ipv4.parse (drop ip_off frame1)) [
      | ok ip2 ↦ (b1, frame1, flow_hash_of ip2)
      | err e ↦ (b1, frame1, flow)
    ]

-- A routed frame of the batch: its new bytes, and the state of the loop.
unfoldable pub batch_routed :
    BatchState → Bytes → Route → (inner_len flow now : ℕ) → BatchState × Bytes
unfolding batch_snat
batch_routed b frame r inner_len flow now =
    let frame1 = set_inner_mac frame r.new_dst_mac in
    let (b1, frame2, flow1) =
      if r.do_snat then batch_snat b frame1 flow now else (b, frame1, flow) in
    let ip_id = (b1.ip_id + 1) % 65536 in
    let s = b1.pipeline in
    (
      record b1 { ip_id = ip_id; forwarded = (b1.forwarded + 1) % u64_mod },
      stamp_outer s frame2 inner_len r.dst_node flow1 ip_id s.cfg.vni,
    )

-- A frame whose inner IPv4 header was parsed.
unfoldable pub batch_ip : BatchState → (frame ip : Bytes) → (inner_len now : ℕ) → BatchState × Bytes
unfolding batch_routed
batch_ip b frame ip inner_len now =
    let s = b.pipeline in
    if needs_frag s.cfg ip
    then (record b { mtu_dropped = (b.mtu_dropped + 1) % u64_mod }, frame)
    else (elim (route s s.cfg.vni (Ipv4.dst ip)) [
      | none ↦ (b, frame)
      | some r ↦ batch_routed b frame r inner_len (flow_hash_of ip) now
    ])

-- A frame of the batch, its checks included: `continue` leaves state and frame as they are.
unfoldable pub batch_frame : BatchState → Bytes → (inner_len now : ℕ) → BatchState × Bytes
unfolding batch_ip
batch_frame b frame inner_len now = elim (Ethernet.parse (drop overlay_overhead frame)) [
  | err e ↦ (b, frame)
  | ok eth ↦
      if not (Ethernet.ethertype eth == Ethernet.ethertype_ipv4)
      then (b, frame)
      else (elim (Ipv4.parse (Ethernet.payload eth)) [
        | ok ip ↦ batch_ip b frame ip inner_len now
        | err e ↦ (b, frame)
      ])
]

-- One round of the loop.
unfoldable pub batch_slot : BatchState → FrameSlot → ℕ → BatchState
unfolding batch_frame
batch_slot b s now =
    let end = s.offset + overlay_overhead + s.inner_len in
    let (b1, frame) = batch_frame b (slice b.buf s.offset end) s.inner_len now in
    if ltb (length b.buf) end
    then b
    else record b1 { buf = update_slice b.buf s.offset end (λ _. frame) }

unfoldable pub batch_loop : BatchState → List FrameSlot → ℕ → BatchState
unfolding batch_slot
batch_loop b [] now = b
batch_loop b (s ∷ slots) now = batch_loop (batch_slot b s now) slots now

-- The pipeline and buffer, and how many frames were encapsulated.
unfoldable pub encap_batch_inplace : Pipeline → Bytes → List FrameSlot → ℕ → Pipeline × Bytes × ℕ
unfolding batch_loop
encap_batch_inplace s buf slots now =
    let b0 : BatchState = record {
      pipeline = s;
      buf = buf;
      ip_id = s.ip_id;
      forwarded = 0;
      natted = 0;
      mtu_dropped = 0;
    } in
    let b = batch_loop b0 slots now in
    let s1 = b.pipeline in
    (
      record s1 {
        ip_id = b.ip_id;
        stats = record s1.stats {
          encapped = (s1.stats.encapped + b.forwarded) % u64_mod;
          natted = (s1.stats.natted + b.natted) % u64_mod;
          drops = (s1.stats.drops + b.mtu_dropped) % u64_mod;
        };
      },
      b.buf,
      b.forwarded,
    )
