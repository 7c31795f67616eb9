-- ===== src/Nat/EngineTests.antt =====
-- Engines on which the theorems of `process` and `gc` are applied.
use light_andromeda.Prelude.{refl, replicate, true, ◌≤◌, [], ℕ, ◌∷◌, arith, ◌≡◌, ◌⊎◌}
use light_andromeda.Core.FiveTuple.{FiveTuple}
use light_andromeda.Nat.Engine.{process, reply_of, rewrite_src, rewrite_dst}
use light_andromeda.Nat.Engine.Inv.{IsConsistent, process-IsConsistent}
use light_andromeda.Nat.Engine.RoundTrip.{process-round_trip}
use light_andromeda.Nat.Gc.{gc}
use light_andromeda.Nat.Gc.Live.{IsKept, gc-IsKept}
use light_andromeda.Nat.Gc.Exact.{gc-IsExact}
use light_andromeda.Nat.Engine.Held.Kept.{IsExact, process-IsExact}
use light_andromeda.Nat.State.{
  NatEngine, Binding, zero_stats, no_rewrite, outbound, inbound, tuple_key,
}
use light_andromeda.Prelude.Map.{contains, lookup, nat_eq}

-- Ports 40000 to 40002, of which the first is taken.
abbrev engine : NatEngine
engine = record {
  nat_ip = 3325256711;
  port_min = 40000;
  port_max = 40002;
  next_port = 40000;
  used_ports = 40000 ∷ [];
  dnat_rules = [];
  snat_fwd = [];
  snat_rev = [];
  dnat_rev = [];
  wheel = record { slots = replicate 4 []; tick = 1000; now = 0 };
  idle_timeout = 120000;
  stats = zero_stats;
}

-- 10.0.0.1:40000 to 10.0.0.2:80 over TCP.
abbrev flow : FiveTuple
flow = record {
  src_ip = 167772161;
  dst_ip = 167772162;
  protocol = 6;
  src_port = 40000;
  dst_port = 80;
}

engine-IsConsistent : IsConsistent engine
unfolding lookup
engine-IsConsistent = record {
  range = record { low = omega arith; high = omega arith; word = omega arith };
  tables = record {
    used = λ t b h. absurd (ground (arith, h));
    unique = λ t u b c h k e. absurd (ground (arith, h));
    back = λ t b h. absurd (ground (arith, h));
  };
}

-- The engine after a first packet of the flow.
abbrev engine_bound : NatEngine
engine_bound = (process engine flow outbound 5).0

abbrev binding : Binding
binding = record { ip = 3325256711; port = 40001; last_seen = 5 }

process-IsConsistent_example : IsConsistent (process engine flow outbound 5).0
process-IsConsistent_example = process-IsConsistent engine flow outbound 5 engine-IsConsistent

process-round_trip_example :
    let (nat', rw') = process engine flow outbound 5 in
    ((rw' ≡ no_rewrite) × ((q : ℕ) → 40000 ≤ q → q ≤ 40002 → contains engine.used_ports q ≡ true))
    ⊎ ((p : ℕ) × (rw' ≡ rewrite_src 3325256711 p)
        × ((process nat' (reply_of 3325256711 flow p) inbound 9).1 ≡ rewrite_dst 167772161 40000))
unfolding lookup
process-round_trip_example = process-round_trip engine flow 5 9 engine-IsConsistent refl

-- All ports are free.
abbrev unused : NatEngine
unused = record engine { used_ports = [] }

unused-IsExact : IsExact unused
unfolding lookup contains
unused-IsExact = record {
  consistent = record {
    range = record { low = omega arith; high = omega arith; word = omega arith };
    tables = record {
      used = λ t b h. absurd (ground (arith, h));
      unique = λ t u b c h k e. absurd (ground (arith, h));
      back = λ t b h. absurd (ground (arith, h));
    };
  };
  held = record {
    owned = λ p h. absurd (ground (arith, h));
    replies = λ k r h. absurd (ground (arith, h));
  };
}

process-IsExact_example : IsExact (process unused flow outbound 5).0
process-IsExact_example = process-IsExact unused flow outbound 5 unused-IsExact

-- At 500000 ms the flow is idle.
gc-IsExact_example : IsExact (gc (process unused flow outbound 5).0 500000 120000).0
gc-IsExact_example =
    gc-IsExact (process unused flow outbound 5).0 500000 120000
      (process-IsExact unused flow outbound 5 unused-IsExact)

-- At 1000 ms the flow was seen 995 ms ago.
gc-IsKept_example : IsKept engine_bound (gc engine_bound 1000 120000).0 flow binding
unfolding lookup process light_andromeda.Nat.Ports.alloc_port contains
    light_andromeda.Prelude.Map.insert light_andromeda.Core.FiveTuple.tuple_eq
gc-IsKept_example =
    gc-IsKept engine_bound flow binding 1000 120000
      (process-IsConsistent engine flow outbound 5 engine-IsConsistent) refl (omega arith)
