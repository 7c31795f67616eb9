-- ===== src/Cli/Setup/Started.antt =====
-- What a command starts from is sound.
use light_andromeda.Cli.Args.{Outcome, go, exit, ◌>>=◌}
use light_andromeda.Cli.Setup.{Setup, address_or, setup_of_flags}
use light_andromeda.Nat.Engine.Inv.{IsConsistent}
use light_andromeda.Nat.State
use light_andromeda.Nat.State.{NatEngine, tuple_key}
use light_andromeda.Prelude.Map.{lookup}
use light_andromeda.Prelude.{ℕ, ◌<◌, ◌≡◌, refl, arith, [], some, String, Option, Ipv4Addr}

-- An engine over the node's NAT address, with the invariant of the NAT and no flow yet, is made, and
-- the MTU leaves room for an inner frame.
pub record IsStarted (w : Setup) : Type 0 where
  pub engine :
      (nat : NatEngine) × (w.nat ≡ some nat)
      × IsConsistent nat
      × (nat.nat_ip ≡ address_or w.cfg.nat_ip w.cfg.local_node_ip)
      × (nat.used_ports ≡ [])
  pub mtu : 50 < w.cfg.underlay_mtu

pub engine-IsConsistent :
    (ip : ℕ)
    → (nat : NatEngine) × (State.new ip 20000 60000 ≡ some nat)
      × IsConsistent nat
      × (nat.nat_ip ≡ ip)
      × (nat.used_ports ≡ [])
unfolding State.new lookup light_andromeda.Nat.TimingWheel.new
engine-IsConsistent ip = (
  _,
  refl,
  record {
    range = record { low = omega arith; high = omega arith; word = omega arith };
    tables = record {
      used = λ t b h. absurd (ground (arith, h));
      unique = λ t u b c h k e. absurd (ground (arith, h));
      back = λ t b h. absurd (ground (arith, h));
    };
  },
  refl,
  refl,
)

-- What does not exit satisfies `P`.
abbrev pub Goes {ℓ κ} : {A : Type ℓ} → (A → Type κ) → Outcome A → Type κ
Goes P (go a) = P a
Goes P (exit e) = Unit

pub Goes-bind {ℓ κ μ} :
    {A : Type ℓ} {B : Type κ} (P : B → Type μ) (m : Outcome A) (f : A → Outcome B)
    → ((a : A) → Goes P (f a))
    → Goes P (m >>= f)
Goes-bind P (go a) f h = h a
Goes-bind P (exit e) f h = tt

pub setup_of_flags-IsStarted :
    (name : ℕ → String) (vni local_node peer_node : ℕ) (nat_ip : Option Ipv4Addr)
    → IsStarted (setup_of_flags name vni local_node peer_node nat_ip)
unfolding setup_of_flags
setup_of_flags-IsStarted name vni local_node peer_node nat_ip = record {
  engine = engine-IsConsistent (address_or nat_ip local_node);
  mtu = omega arith;
}
