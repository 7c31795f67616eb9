-- ===== src/Nat/Apply/Checksums.antt =====
-- `apply` as a whole: the rewrite is in place, and the header's and the segment's checksums are right.
use light_andromeda.Core.Checksum.Sum.{words_sum}
use light_andromeda.Core.Ipv4.Pseudo.{pseudo_sum, halves}
use light_andromeda.Core.Checksum.Update.{Verifies}
use light_andromeda.Prelude.{
  slice, ◌⊎◌, none, ◌+◌, inr, inl, Bool-cases, true, false, refl, IsBytes-drop, arith, length, drop,
  ◌≤◌, ◌∙◌, ◌<◌, IsBytes, ℕ, ◌≡◌, Bytes,
}
use light_andromeda.Nat.Apply.UdpArm.{patch_udp-Patch, Follows}
use light_andromeda.Nat.Apply.{
  apply, patch_udp, patch_tcp, rewrite_src_ip, rewrite_dst_ip, patch_l4, apply_parsed,
}
use light_andromeda.Nat.Apply.Sound.{
  UdpVerifies, TcpVerifies, src-lt, dst-lt, IsRewrite, Header-step, l4_of,
}
use light_andromeda.Core.Udp
use light_andromeda.Core.Ipv4.{ihl_bytes, src, dst, protocol}
use light_andromeda.Nat.Apply.TcpArm.{patch_tcp-Patch, or_old-lt, or_old}
use light_andromeda.Core.Tcp
use light_andromeda.Core.Ipv4.Join.{
  drop-join, ihl_bytes-join, protocol-join, dst-join, src-join, IsSound-join, join,
}
use light_andromeda.Core.Errors.{ok}
use light_andromeda.Core.Ipv4.Rewrite.{IsSound}
use light_andromeda.Nat.State.{Rewrite, is_noop}
use light_andromeda.Core.Ipv4.Valid.{parse-eq-ok_iff}

-- The addresses of a packet after a rewrite.
pub record Addressed (pkt pkt' : Bytes) (rw' : Rewrite) : Type 0 where
  pub src_is : src pkt' ≡ or_old rw'.new_src_ip (src pkt)
  pub dst_is : dst pkt' ≡ or_old rw'.new_dst_ip (dst pkt)
  pub proto : protocol pkt' ≡ protocol pkt

-- A TCP packet after a rewrite.
pub record TcpRewritten (pkt pkt' : Bytes) (rw' : Rewrite) : Type 0 where
  pub sound : IsSound pkt'
  pub verifies : TcpVerifies pkt'
  pub addressed : Addressed pkt pkt' rw'
  pub src_port : Tcp.src_port (l4_of pkt') ≡ or_old rw'.new_src_port (Tcp.src_port (l4_of pkt))
  pub dst_port : Tcp.dst_port (l4_of pkt') ≡ or_old rw'.new_dst_port (Tcp.dst_port (l4_of pkt))
  -- The sequence and acknowledgement numbers, the header length, the flags and the window.
  pub fields : slice (l4_of pkt') 4 16 ≡ slice (l4_of pkt) 4 16
  -- All behind the checksum.
  pub rest : drop 18 (l4_of pkt') ≡ drop 18 (l4_of pkt)

-- Two checksum fields that are both disabled or both present.
abbrev pub SameKind : ℕ → ℕ → Type 0
SameKind c c' = (c ≡ 0) × (c' ≡ 0) ⊎ (0 < c) × (0 < c')

-- A UDP packet after a rewrite.
pub record UdpRewritten (pkt pkt' : Bytes) (rw' : Rewrite) : Type 0 where
  pub sound : IsSound pkt'
  pub verifies : UdpVerifies pkt'
  pub addressed : Addressed pkt pkt' rw'
  pub src_port : Udp.src_port (l4_of pkt') ≡ or_old rw'.new_src_port (Udp.src_port (l4_of pkt))
  pub dst_port : Udp.dst_port (l4_of pkt') ≡ or_old rw'.new_dst_port (Udp.dst_port (l4_of pkt))
  -- A checksum that is disabled stays so, and one that is present stays present.
  pub kind : SameKind (Udp.checksum_field (l4_of pkt)) (Udp.checksum_field (l4_of pkt'))
  -- The length field.
  pub size : slice (l4_of pkt') 4 6 ≡ slice (l4_of pkt) 4 6
  pub rest : drop 8 (l4_of pkt') ≡ drop 8 (l4_of pkt)

SameKind-refl : (c : ℕ) → SameKind c c
SameKind-refl c = omega arith

SameKind-Follows :
    (u u' : Bytes) (old new : ℕ)
    → Follows u u' old new
    → SameKind (Udp.checksum_field u) (Udp.checksum_field u')
SameKind-Follows u u' old new (inl off) = inl off
SameKind-Follows u u' old new (inr on) = inr (on.0, on.1)

module _ (pkt : Bytes) (rw' : Rewrite) (s : IsSound pkt) (r : IsRewrite rw') where
  abbrev sent_pkt : Bytes
  sent_pkt =
      let p1 = (rewrite_src_ip pkt (src pkt) rw'.new_src_ip).0 in
      (rewrite_dst_ip p1 (dst pkt) rw'.new_dst_ip).0

  abbrev sent_src : ℕ
  sent_src = or_old rw'.new_src_ip (src pkt)

  abbrev sent_dst : ℕ
  sent_dst = or_old rw'.new_dst_ip (dst pkt)

  -- `apply` on a packet of which step 2 makes `l4` of what lies behind the header.
  apply_parsed-eq :
      {l4 : Bytes}
      → patch_l4 (l4_of pkt) rw' (protocol pkt) (src pkt) sent_src (dst pkt) sent_dst ≡ (l4, ok tt)
      → apply_parsed pkt rw' ≡ (join sent_pkt l4, ok tt)
  unfolding apply_parsed
  apply_parsed-eq e =
      let (h, ns, nd) = Header-step pkt rw' s r in rw (ns, nd, h.keeps.rest, e, h.keeps.ihl)

  -- The facts about the packet that is sent, for any payload of the same length.
  joined :
      (l4 : Bytes)
      → IsBytes l4
      → IsSound (join sent_pkt l4)
        × Addressed pkt (join sent_pkt l4) rw'
        × (l4_of (join sent_pkt l4) ≡ l4)
  joined l4 b =
      let (h, ns, nd) = Header-step pkt rw' s r in
      let p = h.sound.parsed in
      (
        IsSound-join sent_pkt l4 h.sound b,
        record {
          src_is = src-join sent_pkt l4 p ∙ h.src_is;
          dst_is = dst-join sent_pkt l4 p ∙ h.dst_is;
          proto = protocol-join sent_pkt l4 p ∙ h.keeps.proto;
        },
        rw (ihl_bytes-join sent_pkt l4 p) (drop-join sent_pkt l4 p),
      )

  sent_src-lt : sent_src < 4294967296
  sent_src-lt = or_old-lt rw'.new_src_ip (src pkt) r.src_ip (src-lt pkt s.bytes)

  sent_dst-lt : sent_dst < 4294967296
  sent_dst-lt = or_old-lt rw'.new_dst_ip (dst pkt) r.dst_ip (dst-lt pkt s.bytes)

  module _ (is_tcp : protocol pkt ≡ 6) (parsed : Tcp.parse (l4_of pkt) ≡ ok (l4_of pkt)) where
    abbrev sent_tcp : Bytes
    sent_tcp = patch_tcp (l4_of pkt) rw' (src pkt) sent_src (dst pkt) sent_dst

    patch_l4-tcp :
        patch_l4 (l4_of pkt) rw' (protocol pkt) (src pkt) sent_src (dst pkt) sent_dst
        ≡ (sent_tcp, ok tt)
    unfolding patch_l4
    patch_l4-tcp = rw (is_tcp, parsed)

    tcp_len : 20 ≤ length (l4_of pkt)
    unfolding Tcp.parse
    tcp_len = ground arith

    apply_parsed-tcp :
        TcpVerifies pkt
        → let (pkt', result) = apply_parsed pkt rw' in (result ≡ ok tt) × TcpRewritten pkt pkt' rw'
    apply_parsed-tcp v =
        let t = l4_of pkt in
        let q =
          patch_tcp-Patch t rw' (src pkt) sent_src (dst pkt) sent_dst tcp_len
            (IsBytes-drop (ihl_bytes pkt) pkt s.bytes) (src-lt pkt s.bytes) sent_src-lt
            (dst-lt pkt s.bytes) sent_dst-lt r.src_port r.dst_port in
        let (sound, at, l4) = joined sent_tcp q.patched.bytes in
        rw (apply_parsed-eq patch_l4-tcp) (
          refl,
          record {
            sound = sound;
            verifies =
                rw (l4, at.src_is, at.dst_is)
                  (omega arith, omega (arith, q.patched.sum, q.patched.len, v.1));
            addressed = at;
            src_port = rw l4 (q.src_is);
            dst_port = rw l4 (q.dst_is);
            fields = rw l4 (q.patched.fields);
            rest = rw l4 (q.patched.rest);
          },
        )

  module _ (is_udp : protocol pkt ≡ 17) (parsed : Udp.parse (l4_of pkt) ≡ ok (l4_of pkt)) where
    abbrev sent_udp : Bytes
    sent_udp = patch_udp (l4_of pkt) rw' (src pkt) sent_src (dst pkt) sent_dst

    patch_l4-udp :
        patch_l4 (l4_of pkt) rw' (protocol pkt) (src pkt) sent_src (dst pkt) sent_dst
        ≡ (sent_udp, ok tt)
    unfolding patch_l4
    patch_l4-udp = rw (is_udp, parsed)

    udp_len : 8 ≤ length (l4_of pkt)
    unfolding Udp.parse
    udp_len = ground arith

    -- The checksum that follows a verifying one verifies, and a disabled one stays so.
    Verifies-Follows :
        (l4 : Bytes) (old new : ℕ)
        → UdpVerifies pkt
        → length l4 ≡ length (l4_of pkt)
        → Follows
            (l4_of pkt)
            l4
            (halves (src pkt) + halves (dst pkt) + 0 + 0)
            (halves sent_src + halves sent_dst + 0 + 0)
        → (Udp.checksum_field l4 ≡ 0)
          ⊎ (0 < Udp.checksum_field l4)
            × Verifies (pseudo_sum sent_src sent_dst 17 (length l4) + words_sum l4)
    Verifies-Follows l4 old new v e (inl off) = inl off.1
    Verifies-Follows l4 old new (inl off) e (inr on) = absurd (omega (arith, off, on.0))
    Verifies-Follows l4 old new (inr v) e (inr on) =
        inr (on.1, (omega arith, omega (arith, v.1.1, on.2, e)))

    apply_parsed-udp :
        UdpVerifies pkt
        → let (pkt', result) = apply_parsed pkt rw' in (result ≡ ok tt) × UdpRewritten pkt pkt' rw'
    apply_parsed-udp v =
        let u = l4_of pkt in
        let q =
          patch_udp-Patch u rw' (src pkt) sent_src (dst pkt) sent_dst udp_len
            (IsBytes-drop (ihl_bytes pkt) pkt s.bytes) (src-lt pkt s.bytes) sent_src-lt
            (dst-lt pkt s.bytes) sent_dst-lt r.src_port r.dst_port in
        let (sound, at, l4) = joined sent_udp q.bytes in
        rw (apply_parsed-eq patch_l4-udp) (
          refl,
          record {
            sound = sound;
            verifies =
                rw (l4, at.src_is, at.dst_is) (Verifies-Follows sent_udp 0 0 v q.len q.follows);
            addressed = at;
            src_port = rw l4 (q.src_is);
            dst_port = rw l4 (q.dst_is);
            kind = rw l4 (SameKind-Follows (l4_of pkt) sent_udp _ _ q.follows);
            size = rw l4 (q.size);
            rest = rw l4 (q.rest);
          },
        )

apply-parsed :
    (pkt : Bytes) (rw' : Rewrite)
    → IsSound pkt
    → is_noop rw' ≡ false
    → apply pkt rw' ≡ apply_parsed pkt rw'
unfolding apply
apply-parsed pkt rw' s h = rw (h, (parse-eq-ok_iff pkt).1 s.parsed)

pub apply-noop : (pkt : Bytes) (rw' : Rewrite) → is_noop rw' ≡ true → apply pkt rw' ≡ (pkt, ok tt)
unfolding apply
apply-noop pkt rw' h = rw h

or_old-noop :
    (rw' : Rewrite)
    → is_noop rw' ≡ true
    → (rw'.new_src_ip ≡ none)
      × (rw'.new_dst_ip ≡ none)
      × (rw'.new_src_port ≡ none)
      × (rw'.new_dst_port ≡ none)
unfolding is_noop
or_old-noop rw' h = ground arith

-- A sound TCP packet whose checksum verifies is rewritten, with no error, to a sound packet whose
-- checksum verifies, at the addresses and ports of the rewrite, and with all else of the segment as it was.
pub apply-tcp :
    (pkt : Bytes) (rw' : Rewrite)
    → IsSound pkt
    → IsRewrite rw'
    → protocol pkt ≡ 6
    → Tcp.parse (l4_of pkt) ≡ ok (l4_of pkt)
    → TcpVerifies pkt
    → let (pkt', result) = apply pkt rw' in (result ≡ ok tt) × TcpRewritten pkt pkt' rw'
apply-tcp pkt rw' s r is_tcp parsed v = elim (Bool-cases (is_noop rw')) [
  | inl no_op ↦
      let (a, b, c, d) = or_old-noop rw' no_op in
      rw (apply-noop pkt rw' no_op) (
        refl,
        record {
          sound = s;
          verifies = v;
          addressed = record { src_is = rw a; dst_is = rw b; proto = refl };
          src_port = rw c;
          dst_port = rw d;
          fields = refl;
          rest = refl;
        },
      )
  | inr op ↦ rw (apply-parsed pkt rw' s op) (apply_parsed-tcp pkt rw' s r is_tcp parsed v)
]

-- A sound UDP packet whose checksum verifies or is disabled is rewritten, with no error, to a sound
-- packet at the addresses and ports of the rewrite, with all else of the datagram as it was: a checksum that is
-- disabled stays so, and one that is present stays present and verifies.
pub apply-udp :
    (pkt : Bytes) (rw' : Rewrite)
    → IsSound pkt
    → IsRewrite rw'
    → protocol pkt ≡ 17
    → Udp.parse (l4_of pkt) ≡ ok (l4_of pkt)
    → UdpVerifies pkt
    → let (pkt', result) = apply pkt rw' in (result ≡ ok tt) × UdpRewritten pkt pkt' rw'
apply-udp pkt rw' s r is_udp parsed v = elim (Bool-cases (is_noop rw')) [
  | inl no_op ↦
      let (a, b, c, d) = or_old-noop rw' no_op in
      rw (apply-noop pkt rw' no_op) (
        refl,
        record {
          sound = s;
          verifies = v;
          addressed = record { src_is = rw a; dst_is = rw b; proto = refl };
          src_port = rw c;
          dst_port = rw d;
          kind = SameKind-refl (Udp.checksum_field (l4_of pkt));
          size = refl;
          rest = refl;
        },
      )
  | inr op ↦ rw (apply-parsed pkt rw' s op) (apply_parsed-udp pkt rw' s r is_udp parsed v)
]
