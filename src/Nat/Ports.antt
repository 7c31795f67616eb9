-- ===== src/Nat/Ports.antt =====
-- crates/andromeda-nat/src/lib.rs: `NatEngine::alloc_port`. A method takes the engine and returns the
-- one that it leaves beside its result.
pub mod Scan
use light_andromeda.Nat.TimingWheel
use light_andromeda.Nat.TimingWheel.{TimingWheel, u64_mod}
use light_andromeda.Core.FiveTuple.{FiveTuple, tuple_eq}
use light_andromeda.Prelude.Map.{Eq, nat_eq, contains, delete, lookup, insert, remove, retain}
use light_andromeda.Prelude.{
  ℕ, zero, suc, ◌+◌, ◌-◌, ◌%◌, ◌≡◌, ◌↔◌, min, max, arith, List, [], ◌∷◌, ◌++◌, Bool, true, false,
  ◌&&◌, ◌||◌, not, Option, none, some, Ipv4Addr, length, ltb, leb, ◌==◌, if◌then◌else◌,
}
use light_andromeda.Nat.State.{
  Direction, outbound, inbound, Rewrite, no_rewrite, is_noop, DnatRule, Binding, NatStats,
  tuple_key, tuple_eq_iff, Conntrack, NatEngine, inc, saturating_add,
}

-- `next_port += 1`, back to `port_min` past `port_max`.
abbrev pub bump_port : NatEngine → ℕ
bump_port nat = if ltb nat.port_max (nat.next_port + 1) then nat.port_min else nat.next_port + 1

-- The loop of `alloc_port` with `span` rounds left.
unfoldable pub scan_ports : ℕ → NatEngine → NatEngine × Option ℕ
scan_ports zero nat = (nat, none)
scan_ports (suc span) nat =
    let p = nat.next_port % 65536 in
    let nat1 = record nat { next_port = bump_port nat } in
    let rest = scan_ports span nat1 in
    if contains nat.used_ports p
    then rest
    else (record nat1 { used_ports = p ∷ nat1.used_ports }, some p)

unfoldable pub alloc_port : NatEngine → ℕ → NatEngine × Option ℕ
unfolding scan_ports
alloc_port nat preferred =
    let span = nat.port_max - nat.port_min + 1 in
    if leb nat.port_min preferred
      && leb preferred nat.port_max
      && not (contains nat.used_ports preferred)
    then (record nat { used_ports = preferred ∷ nat.used_ports }, some preferred)
    else scan_ports span nat
