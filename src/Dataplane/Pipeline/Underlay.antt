-- ===== src/Dataplane/Pipeline/Underlay.antt =====
-- crates/andromeda-dataplane/src/pipeline.rs: `on_underlay_frame`.
use light_andromeda.Prelude.{
  ◌||◌, ℕ, Bool, true, false, ◌&&◌, not, none, some, Bytes, slice, length, write_at, update_slice,
  ltb, ◌==◌, if◌then◌else◌,
}
use light_andromeda.Core.Ethernet
use light_andromeda.Core.Errors.{ok, err, map_or}
use light_andromeda.Core.FiveTuple.{five_tuple_of}
use light_andromeda.Core.Overlay
use light_andromeda.Core.Overlay.{Decapsulated}
use light_andromeda.Control.Fabric
use light_andromeda.Nat.Apply
use light_andromeda.Nat.Engine
use light_andromeda.Nat.State.{inbound, is_noop}
use light_andromeda.Dataplane.Pipeline.State.{Pipeline, forward, pass, inc}
use light_andromeda.Dataplane.Pipeline.Tenant.{Outcome, drop_with, is_some}

-- Whether this switch takes frames of the VNI: its own, or one of the fabric.
unfoldable pub serves : Pipeline → ℕ → Bool
serves s vni =
    vni == s.cfg.vni || (elim (Fabric.vpc_of s.fabric vni) [ some v ↦ true | none ↦ false ])

-- The reverse translation of the delivered packet at `14 .. inner_len`.
unfoldable pub translate_in : Pipeline → Bytes → (inner_len now : ℕ) → Pipeline × Bytes
translate_in s out inner_len now = elim (five_tuple_of (slice out Ethernet.eth_hdr_len inner_len)) [
  | none ↦ (s, out)
  | some t ↦
      let (nat, rw') = Engine.process s.nat t inbound now in
      let s1 : Pipeline = record s { nat = nat } in
      if is_noop rw' then (s1, out) else (
        record s1 { stats = record s1.stats { natted = inc s1.stats.natted } },
        update_slice out Ethernet.eth_hdr_len inner_len (λ p. (Apply.apply p rw').0),
      )
]

abbrev is_ipv4_frame : Bytes → Bool
is_ipv4_frame inner =
    map_or (Ethernet.parse inner) (λ e. Ethernet.ethertype e == Ethernet.ethertype_ipv4) false

-- A frame of this overlay that a VPC of this switch gets.
unfoldable pub deliver : Pipeline → (inner out : Bytes) → ℕ → Outcome
deliver s inner out now =
    let out1 = write_at out 0 inner in
    let natted = is_some s.cfg.nat_ip && is_ipv4_frame inner in
    let (s1, out2) = if natted then translate_in s out1 (length inner) now else (s, out1) in
    (
      record s1 { stats = record s1.stats { decapped = inc s1.stats.decapped } },
      out2,
      forward (length inner),
    )

unfoldable pub on_underlay_frame : Pipeline → (frame out : Bytes) → ℕ → Outcome
on_underlay_frame s frame out now = elim (Overlay.decap frame) [
  | err e ↦ drop_with s out "bad-encap"
  | ok d ↦ elim d [
    | none ↦ (record s { stats = record s.stats { passed = inc s.stats.passed } }, out, pass)
    | some p ↦
        if not (serves s p.header.vni)
        then drop_with s out "wrong-vni"
        else if ltb (length out) (length p.inner)
        then drop_with s out "decap-out-too-small"
        else deliver s p.inner out now
  ]
]
