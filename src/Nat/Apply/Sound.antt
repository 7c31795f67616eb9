-- ===== src/Nat/Apply/Sound.antt =====
-- `apply` as a whole: both checksums stay right, and the rewrite is in place.
use light_andromeda.Core.Checksum.Sum.{words_sum}
use light_andromeda.Core.Checksum.Update.{Verifies}
use light_andromeda.Core.Ipv4
use light_andromeda.Core.Ipv4.{ihl_bytes, src, dst, protocol}
use light_andromeda.Core.Ipv4.Pseudo.{pseudo_sum}
use light_andromeda.Core.Ipv4.Rewrite.{
  IsSound, Keeps, set_src_lem, set_dst_lem, src-eq-words, dst-eq-words,
}
use light_andromeda.Core.Udp
use light_andromeda.Nat.Apply.{rewrite_src_ip, rewrite_dst_ip}
use light_andromeda.Nat.Apply.TcpArm.{or_old, Below}
use light_andromeda.Nat.State.{Rewrite}
use light_andromeda.Prelude.{
  byte_at-lt, none, some, ◌⊎◌, ◌+◌, arith, refl, drop, ℕ, ◌<◌, ◌∙◌, ◌≡◌, length, Option, Bytes,
  IsBytes,
}

-- The fields of a rewrite are a `u32` and a `u16`.
pub record IsRewrite (rw' : Rewrite) : Type 0 where
  pub src_ip : Below 4294967296 rw'.new_src_ip
  pub dst_ip : Below 4294967296 rw'.new_dst_ip
  pub src_port : Below 65536 rw'.new_src_port
  pub dst_port : Below 65536 rw'.new_dst_port

-- The packet behind the header.
abbrev pub l4_of : Bytes → Bytes
l4_of pkt = drop (ihl_bytes pkt) pkt

-- The TCP checksum of a packet verifies under its own addresses.
abbrev pub TcpVerifies : Bytes → Type 0
TcpVerifies pkt =
    Verifies (pseudo_sum (src pkt) (dst pkt) 6 (length (l4_of pkt)) + words_sum (l4_of pkt))

-- The UDP checksum of a packet is disabled, or verifies under its own addresses.
abbrev pub UdpVerifies : Bytes → Type 0
UdpVerifies pkt =
    (Udp.checksum_field (l4_of pkt) ≡ 0)
    ⊎ (0 < Udp.checksum_field (l4_of pkt))
      × Verifies (pseudo_sum (src pkt) (dst pkt) 17 (length (l4_of pkt)) + words_sum (l4_of pkt))

pub src-lt : (pkt : Bytes) → IsBytes pkt → src pkt < 4294967296
src-lt pkt b = omega (
  arith,
  src-eq-words pkt,
  byte_at-lt pkt 12 b,
  byte_at-lt pkt 13 b,
  byte_at-lt pkt 14 b,
  byte_at-lt pkt 15 b,
)

pub dst-lt : (pkt : Bytes) → IsBytes pkt → dst pkt < 4294967296
dst-lt pkt b = omega (
  arith,
  dst-eq-words pkt,
  byte_at-lt pkt 16 b,
  byte_at-lt pkt 17 b,
  byte_at-lt pkt 18 b,
  byte_at-lt pkt 19 b,
)

-- The header after step 1.
pub record Header (pkt pkt' : Bytes) (new_src new_dst : ℕ) : Type 0 where
  pub sound : IsSound pkt'
  pub src_is : src pkt' ≡ new_src
  pub dst_is : dst pkt' ≡ new_dst
  pub keeps : Keeps pkt pkt'

Keeps-refl : (pkt : Bytes) → Keeps pkt pkt
Keeps-refl pkt = record { len = refl; ihl = refl; proto = refl; rest = refl }

Keeps-trans : {a b c : Bytes} → Keeps a b → Keeps b c → Keeps a c
Keeps-trans {a} {b} {c} p q = record {
  len = q.len ∙ p.len;
  ihl = q.ihl ∙ p.ihl;
  proto = q.proto ∙ p.proto;
  rest = (rw p.ihl at q.rest) ∙ p.rest;
}

src_step :
    (pkt : Bytes) (new : Option ℕ)
    → IsSound pkt
    → Below 4294967296 new
    → let (pkt', n) = rewrite_src_ip pkt (src pkt) new in
      Header pkt pkt' n (dst pkt) × (n ≡ or_old new (src pkt))
unfolding rewrite_src_ip Ipv4.set_src
src_step pkt none s h =
    (record { sound = s; src_is = refl; dst_is = refl; keeps = Keeps-refl pkt }, refl)
src_step pkt (some new) s h =
    let r = set_src_lem pkt new s h in
    (record { sound = r.0; src_is = r.1; dst_is = r.2; keeps = r.3 }, refl)

dst_step :
    (pkt : Bytes) (old : ℕ) (new : Option ℕ)
    → IsSound pkt
    → dst pkt ≡ old
    → Below 4294967296 new
    → let (pkt', n) = rewrite_dst_ip pkt old new in
      Header pkt pkt' (src pkt) n × (n ≡ or_old new old)
unfolding rewrite_dst_ip Ipv4.set_dst
dst_step pkt old none s e h =
    (record { sound = s; src_is = refl; dst_is = e; keeps = Keeps-refl pkt }, refl)
dst_step pkt old (some new) s e h =
    let r = set_dst_lem pkt new s h in
    (record { sound = r.0; src_is = r.2; dst_is = r.1; keeps = r.3 }, refl)

-- The header after both rewrites: sound, at the new addresses, the rest of the packet as it was.
pub Header-step :
    (pkt : Bytes) (rw' : Rewrite)
    → IsSound pkt
    → IsRewrite rw'
    → let (p1, ns) = rewrite_src_ip pkt (src pkt) rw'.new_src_ip in
      let (p2, nd) = rewrite_dst_ip p1 (dst pkt) rw'.new_dst_ip in
      Header pkt p2 (or_old rw'.new_src_ip (src pkt)) (or_old rw'.new_dst_ip (dst pkt))
      × (ns ≡ or_old rw'.new_src_ip (src pkt))
      × (nd ≡ or_old rw'.new_dst_ip (dst pkt))
Header-step pkt rw' s r =
    let a = src_step pkt rw'.new_src_ip s r.src_ip in
    let p1 = (rewrite_src_ip pkt (src pkt) rw'.new_src_ip).0 in
    let b = dst_step p1 (dst pkt) rw'.new_dst_ip a.0.sound a.0.dst_is r.dst_ip in
    (
      record {
        sound = b.0.sound;
        src_is = b.0.src_is ∙ a.0.src_is ∙ a.1;
        dst_is = b.0.dst_is ∙ b.1;
        keeps = Keeps-trans a.0.keeps b.0.keeps;
      },
      a.1,
      b.1,
    )
