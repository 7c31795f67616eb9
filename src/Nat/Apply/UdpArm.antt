-- ===== src/Nat/Apply/UdpArm.antt =====
-- The UDP arm of `apply`: a checksum follows the addresses and the ports, and a disabled one stays so.
use light_andromeda.Prelude.{
  slice, take, none, drop-write_at, be16_at-write_ge, IsBytes-to_be16, IsBytes-write_at,
  length-write_at, refl, ==_iff, be16_at, ◌∙◌, ◌==◌, ◌%◌, to_be16, inl, arith, ◌⊎◌, Option, inr,
  write_at, drop, Bool-cases, zero-or-pos, length, ◌+◌, ◌≡◌, ◌<◌, ℕ, ◌≤◌, Bytes, IsBytes, ap,
}
use light_andromeda.Core.Udp.{
  patch_checksum_word, src_port, dst_port, checksum_field, patch_checksum_dword, set_src_port,
  set_dst_port,
}
use light_andromeda.Nat.Apply.{
  some, Option, drop, ℕ, udp_patch_address, udp_src_port, udp_dst_port, patch_udp,
}
use light_andromeda.Core.Ipv4.Pseudo.{halves}
use light_andromeda.Core.Udp.Patch.{
  Patched, patch_checksum_dword-Patched, ports-patch_dword, patch_checksum_dword_disabled,
  patch_checksum_word_disabled, set_src_port-Patched, set_dst_port-Patched, ports-set_src_port,
  ports-set_dst_port,
}
use light_andromeda.Core.Checksum.Sum.{words_sum}
use light_andromeda.Nat.Apply.TcpArm.{or_old, Below}
use light_andromeda.Nat.State.{Rewrite}

-- The sum follows the change, or there is no checksum before and after.
abbrev pub Follows : Bytes → Bytes → ℕ → ℕ → Type 0
Follows u u' old new =
    (checksum_field u ≡ 0) × (checksum_field u' ≡ 0)
    ⊎ (0 < checksum_field u)
      × (0 < checksum_field u')
      × ((words_sum u' + new) % 65535 ≡ (words_sum u + old) % 65535)

-- What the UDP arm does to a datagram.
pub record Patch (u u' : Bytes) (old new sport dport : ℕ) : Type 0 where
  pub len : length u' ≡ length u
  pub bytes : IsBytes u'
  pub size : slice u' 4 6 ≡ slice u 4 6
  pub rest : drop 8 u' ≡ drop 8 u
  pub follows : Follows u u' old new
  pub src_is : src_port u' ≡ sport
  pub dst_is : dst_port u' ≡ dport

of_Patched :
    (u u' : Bytes) {old new sport dport : ℕ}
    → 0 < checksum_field u
    → Patched u u' old new
    → src_port u' ≡ sport
    → dst_port u' ≡ dport
    → Patch u u' old new sport dport
of_Patched u u' on p s d = record {
  len = p.len;
  bytes = p.bytes;
  size = p.size;
  rest = p.rest;
  follows = inr (on, p.has_checksum, p.sum);
  src_is = s;
  dst_is = d;
}

no_change : (u : Bytes) (v w : ℕ) → IsBytes u → v ≡ w → Patch u u v w (src_port u) (dst_port u)
no_change u v w b e = record {
  len = refl;
  bytes = b;
  size = refl;
  rest = refl;
  follows = elim (zero-or-pos (checksum_field u)) [
    | inl off ↦ inl (off, off)
    | inr on ↦ inr (on, on, omega (arith, e))
  ];
  src_is = refl;
  dst_is = refl;
}

Follows-trans :
    (u u' u'' : Bytes) (a b c d : ℕ)
    → Follows u u' a b
    → Follows u' u'' c d
    → Follows u u'' (a + c) (b + d)
Follows-trans u u' u'' a b c d (inl p) (inl q) = inl (p.0, q.1)
Follows-trans u u' u'' a b c d (inl p) (inr q) = absurd (omega (arith, p.1, q.0))
Follows-trans u u' u'' a b c d (inr p) (inl q) = absurd (omega (arith, p.1, q.0))
Follows-trans u u' u'' a b c d (inr p) (inr q) = inr (p.0, q.1, omega (arith, p.2, q.2))

module _ (u : Bytes) (l : 8 ≤ length u) (b : IsBytes u) where
  Patch-address :
      (old new : ℕ)
      → old < 4294967296
      → new < 4294967296
      → Patch u (udp_patch_address u old new) (halves old) (halves new) (src_port u) (dst_port u)
  unfolding udp_patch_address
  Patch-address old new ho hn = elim (Bool-cases (new == old)) [
    | inl same ↦
        let e = (==_iff new old).0 same in
        rw same (no_change u (halves old) (halves new) b (omega (arith, e)))
    | inr other ↦
        let q = ports-patch_dword u l b old new ho hn in
        rw other (elim (zero-or-pos (checksum_field u)) [
          | inl off ↦ rw (patch_checksum_dword_disabled u l b old new off) (record {
            len = refl;
            bytes = b;
            size = refl;
            rest = refl;
            follows = inl (off, off);
            src_is = refl;
            dst_is = refl;
          })
          | inr on ↦
              of_Patched u (patch_checksum_dword u old new) on
                (patch_checksum_dword-Patched u l b old new ho hn on) q.0 q.1
        ])
  ]

  -- A write of a port at `i`, and the patch of a checksum that is disabled.
  disabled_port :
      (i old port : ℕ)
      → i + 2 ≤ 4
      → checksum_field u ≡ 0
      → let w = write_at u i (to_be16 port) in
        let u' = patch_checksum_word w old port in
        (length u' ≡ length u)
        × IsBytes u'
        × (slice u' 4 6 ≡ slice u 4 6)
        × (drop 8 u' ≡ drop 8 u)
        × (checksum_field u' ≡ 0)
  unfolding checksum_field
  disabled_port i old port h off =
      let w = write_at u i (to_be16 port) in
      let lw = length-write_at u i (to_be16 port) in
      let bw = IsBytes-write_at u i (to_be16 port) (IsBytes-to_be16 port) b in
      let cw = be16_at-write_ge u i (to_be16 port) 6 (omega arith) in
      let off' : be16_at w 6 ≡ 0 = cw ∙ off in
      rw (patch_checksum_word_disabled w (omega arith) bw old port off') (
        lw,
        bw,
        ap (take 2) (drop-write_at u i (to_be16 port) 4 (omega arith)),
        drop-write_at u i (to_be16 port) 8 (omega arith),
        off',
      )

  Patch-src_port :
      (port : Option ℕ)
      → Below 65536 port
      → Patch u (udp_src_port u port) 0 0 (or_old port (src_port u)) (dst_port u)
  unfolding udp_src_port set_src_port patch_checksum_word
  Patch-src_port none h = no_change u 0 0 b refl
  Patch-src_port (some p) h =
      let q = ports-set_src_port u l b p h in
      elim (zero-or-pos (checksum_field u)) [
        | inl off ↦
            let (len, bytes, size, rest, off') =
              disabled_port 0 (be16_at u 0) p (omega arith) off in
            record {
              len = len;
              bytes = bytes;
              size = size;
              rest = rest;
              follows = inl (off, off');
              src_is = q.0;
              dst_is = q.1;
            }
        | inr on ↦ of_Patched u (set_src_port u p) on (set_src_port-Patched u l b p h on) q.0 q.1
      ]

  Patch-dst_port :
      (port : Option ℕ)
      → Below 65536 port
      → Patch u (udp_dst_port u port) 0 0 (src_port u) (or_old port (dst_port u))
  unfolding udp_dst_port set_dst_port patch_checksum_word
  Patch-dst_port none h = no_change u 0 0 b refl
  Patch-dst_port (some p) h =
      let q = ports-set_dst_port u l b p h in
      elim (zero-or-pos (checksum_field u)) [
        | inl off ↦
            let (len, bytes, size, rest, off') =
              disabled_port 2 (be16_at u 2) p (omega arith) off in
            record {
              len = len;
              bytes = bytes;
              size = size;
              rest = rest;
              follows = inl (off, off');
              src_is = q.1;
              dst_is = q.0;
            }
        | inr on ↦ of_Patched u (set_dst_port u p) on (set_dst_port-Patched u l b p h on) q.1 q.0
      ]

-- Ports as rewritten, and a checksum, if there is one, that follows the change of both addresses.
pub patch_udp-Patch :
    (u : Bytes) (rw' : Rewrite) (os ns od nd : ℕ)
    → 8 ≤ length u
    → IsBytes u
    → os < 4294967296
    → ns < 4294967296
    → od < 4294967296
    → nd < 4294967296
    → Below 65536 rw'.new_src_port
    → Below 65536 rw'.new_dst_port
    → Patch u
        (patch_udp u rw' os ns od nd)
        (halves os + halves od + 0 + 0)
        (halves ns + halves nd + 0 + 0)
        (or_old rw'.new_src_port (src_port u))
        (or_old rw'.new_dst_port (dst_port u))
unfolding patch_udp
patch_udp-Patch u rw' os ns od nd l b hos hns hod hnd hsp hdp =
    let a = Patch-address u l b os ns hos hns in
    let u1 = udp_patch_address u os ns in
    let c = Patch-address u1 (omega (arith, a.len)) a.bytes od nd hod hnd in
    let u2 = udp_patch_address u1 od nd in
    let l2 : 8 ≤ length u2 = omega (arith, a.len, c.len) in
    let d = Patch-src_port u2 l2 c.bytes rw'.new_src_port hsp in
    let u3 = udp_src_port u2 rw'.new_src_port in
    let l3 : 8 ≤ length u3 = omega (arith, d.len) in
    let e = Patch-dst_port u3 l3 d.bytes rw'.new_dst_port hdp in
    let u4 = udp_dst_port u3 rw'.new_dst_port in
    record {
      len = e.len ∙ d.len ∙ c.len ∙ a.len;
      bytes = e.bytes;
      size = e.size ∙ d.size ∙ c.size ∙ a.size;
      rest = e.rest ∙ d.rest ∙ c.rest ∙ a.rest;
      follows =
          Follows-trans u u3 u4 _ _ 0 0
            (Follows-trans u u2 u3 _ _ 0 0
              (Follows-trans u u1 u2 (halves os) (halves ns) (halves od) (halves nd) a.follows
                c.follows)
              d.follows)
            e.follows;
      src_is = e.src_is ∙ d.src_is ∙ ap (or_old rw'.new_src_port) (c.src_is ∙ a.src_is);
      dst_is = e.dst_is ∙ ap (or_old rw'.new_dst_port) (d.dst_is ∙ c.dst_is ∙ a.dst_is);
    }
