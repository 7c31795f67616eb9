-- ===== src/Core/Udp/Patch.antt =====
-- The incremental rewrites of a UDP datagram that has a checksum: what they add to the sum of its
-- words, and what they leave alone. A datagram without one keeps the 0 that says so.
use light_andromeda.Prelude.{
  slice, take, ap, part-store, drop-write_at, be16_at-write_ge, be16_at-write16, refl,
  be16_at-write_lt, IsBytes-to_be16, inr, IsBytes-write_at, length-write_at, inl, to_be16, write_at,
  drop, byte_at-lt, arith, zero-or-pos, ◌/◌, ◌%◌, ◌≡◌, ◌∙◌, be16_at, ◌<◌, ◌+◌, length, ◌≤◌, ℕ,
  Bytes, IsBytes,
}
use light_andromeda.Core.Udp.{
  to_be16, drop, write_at, be16_at, length, ℕ, src_port, dst_port, checksum_field,
  patch_checksum_word, patch_checksum_dword, set_src_port, set_dst_port, sent_checksum,
}
use light_andromeda.Core.Checksum.{update_word}
use light_andromeda.Core.Checksum.Sum.{words_sum, words_sum-write16}
use light_andromeda.Core.Checksum.Update.{update_word-mod, update_word-le}
use light_andromeda.Core.Ipv4.Pseudo.{halves}

-- `u'` is `u` with its checksum patched for a change of `old` to `new` elsewhere.
pub record Patched (u u' : Bytes) (old new : ℕ) : Type 0 where
  pub len : length u' ≡ length u
  pub bytes : IsBytes u'
  pub has_checksum : 0 < checksum_field u'
  pub sum : (words_sum u' + new) % 65535 ≡ (words_sum u + old) % 65535
  pub size : slice u' 4 6 ≡ slice u 4 6
  pub rest : drop 8 u' ≡ drop 8 u

pub Patched-trans :
    {u u' u'' : Bytes} {a b c d : ℕ}
    → Patched u u' a b
    → Patched u' u'' c d
    → Patched u u'' (a + c) (b + d)
Patched-trans p q = record {
  len = q.len ∙ p.len;
  bytes = q.bytes;
  has_checksum = q.has_checksum;
  sum = omega (arith, p.sum, q.sum);
  size = q.size ∙ p.size;
  rest = q.rest ∙ p.rest;
}

-- The checksum sent stands for the one computed, and is not 0.
sent_checksum_lem :
    (c : ℕ)
    → c ≤ 65535
    → (0 < sent_checksum c) × (sent_checksum c ≤ 65535) × (sent_checksum c % 65535 ≡ c % 65535)
unfolding sent_checksum
sent_checksum_lem c h = ground arith

module _ (u : Bytes) (l : 8 ≤ length u) (b : IsBytes u) where
  -- A disabled checksum is left alone.
  pub patch_checksum_word_disabled :
      (old new : ℕ) → checksum_field u ≡ 0 → patch_checksum_word u old new ≡ u
  unfolding patch_checksum_word
  patch_checksum_word_disabled old new h = ground arith

  patch_checksum_word_enabled :
      (old new : ℕ)
      → 0 < checksum_field u
      → patch_checksum_word u old new
        ≡ write_at u 6 (to_be16 (sent_checksum (update_word (be16_at u 6) old new)))
  unfolding patch_checksum_word
  patch_checksum_word_enabled old new h = ground arith

  pub patch_checksum_word-Patched :
      (old new : ℕ)
      → old ≤ 65535
      → new ≤ 65535
      → 0 < checksum_field u
      → Patched u (patch_checksum_word u old new) old new
  unfolding checksum_field
  patch_checksum_word-Patched old new ho hn on =
      let c = be16_at u 6 in
      let c' = update_word c old new in
      let sent = sent_checksum c' in
      let b0 = byte_at-lt u 6 b in
      let b1 = byte_at-lt u 7 b in
      let e = sent_checksum_lem c' (update_word-le c old new) in
      rw (patch_checksum_word_enabled old new on) (record {
        len = length-write_at u 6 (to_be16 sent);
        bytes = IsBytes-write_at u 6 (to_be16 sent) (IsBytes-to_be16 sent) b;
        has_checksum = omega (arith, e, be16_at-write16 u 6 sent (omega arith) (omega (arith, e)));
        sum = omega (
          arith,
          words_sum-write16 u 6 sent tt (omega arith) (omega (arith, e)),
          e,
          update_word-mod c old new (omega arith) ho hn,
        );
        size = part-store 4 2 6 u (to_be16 sent) (omega arith);
        rest = drop-write_at u 6 (to_be16 sent) 8 (omega arith);
      })

  ports-patch :
      (old new : ℕ)
      → let u' = patch_checksum_word u old new in
        (src_port u' ≡ src_port u) × (dst_port u' ≡ dst_port u)
  unfolding src_port dst_port checksum_field
  ports-patch old new = elim (zero-or-pos (be16_at u 6)) [
    | inl off ↦ rw (patch_checksum_word_disabled old new off) (refl, refl)
    | inr on ↦
        let sent = sent_checksum (update_word (be16_at u 6) old new) in
        rw (patch_checksum_word_enabled old new on) (
          be16_at-write_lt u 6 (to_be16 sent) 0 (omega arith),
          be16_at-write_lt u 6 (to_be16 sent) 2 (omega arith),
        )
  ]

module _ (u : Bytes) (l : 8 ≤ length u) (b : IsBytes u) where
  pub patch_checksum_dword_disabled :
      (old new : ℕ) → checksum_field u ≡ 0 → patch_checksum_dword u old new ≡ u
  unfolding patch_checksum_dword
  patch_checksum_dword_disabled old new h = rw (
    patch_checksum_word_disabled u l b (old / 65536) (new / 65536) h,
    patch_checksum_word_disabled u l b (old % 65536) (new % 65536) h,
  )

  pub patch_checksum_dword-Patched :
      (old new : ℕ)
      → old < 4294967296
      → new < 4294967296
      → 0 < checksum_field u
      → Patched u (patch_checksum_dword u old new) (halves old) (halves new)
  unfolding patch_checksum_dword
  patch_checksum_dword-Patched old new ho hn on =
      let p =
        patch_checksum_word-Patched u l b (old / 65536) (new / 65536) (omega arith) (omega arith)
          on in
      let u1 = patch_checksum_word u (old / 65536) (new / 65536) in
      Patched-trans p (
        patch_checksum_word-Patched u1 (omega (arith, p.len)) p.bytes (old % 65536) (new % 65536)
          (omega arith) (omega arith) p.has_checksum)

  pub ports-patch_dword :
      (old new : ℕ)
      → old < 4294967296
      → new < 4294967296
      → let u' = patch_checksum_dword u old new in
        (src_port u' ≡ src_port u) × (dst_port u' ≡ dst_port u)
  unfolding patch_checksum_dword
  ports-patch_dword old new ho hn = elim (zero-or-pos (checksum_field u)) [
    | inl off ↦
        rw
          (
            patch_checksum_word_disabled u l b (old / 65536) (new / 65536) off,
            patch_checksum_word_disabled u l b (old % 65536) (new % 65536) off,
          )
          (refl, refl)
    | inr on ↦
        let p =
          patch_checksum_word-Patched u l b (old / 65536) (new / 65536) (omega arith) (omega arith)
            on in
        let u1 = patch_checksum_word u (old / 65536) (new / 65536) in
        let q = ports-patch u l b (old / 65536) (new / 65536) in
        let r = ports-patch u1 (omega (arith, p.len)) p.bytes (old % 65536) (new % 65536) in
        (r.0 ∙ q.0, r.1 ∙ q.1)
  ]

  pub set_src_port-Patched :
      (port : ℕ) → port < 65536 → 0 < checksum_field u → Patched u (set_src_port u port) 0 0
  unfolding set_src_port checksum_field
  set_src_port-Patched port hp on =
      let old = be16_at u 0 in
      let w = write_at u 0 (to_be16 port) in
      let lw = length-write_at u 0 (to_be16 port) in
      let bw = IsBytes-write_at u 0 (to_be16 port) (IsBytes-to_be16 port) b in
      let b0 = byte_at-lt u 0 b in
      let b1 = byte_at-lt u 1 b in
      let cw = be16_at-write_ge u 0 (to_be16 port) 6 (omega arith) in
      let p =
        patch_checksum_word-Patched w (omega arith) bw old port (omega arith) (omega arith)
          (omega (arith, cw)) in
      record {
        len = p.len ∙ lw;
        bytes = p.bytes;
        has_checksum = p.has_checksum;
        sum = omega (arith, p.sum, words_sum-write16 u 0 port tt (omega arith) hp);
        size = p.size ∙ ap (take 2) (drop-write_at u 0 (to_be16 port) 4 (omega arith));
        rest = p.rest ∙ drop-write_at u 0 (to_be16 port) 8 (omega arith);
      }

  pub set_dst_port-Patched :
      (port : ℕ) → port < 65536 → 0 < checksum_field u → Patched u (set_dst_port u port) 0 0
  unfolding set_dst_port checksum_field
  set_dst_port-Patched port hp on =
      let old = be16_at u 2 in
      let w = write_at u 2 (to_be16 port) in
      let lw = length-write_at u 2 (to_be16 port) in
      let bw = IsBytes-write_at u 2 (to_be16 port) (IsBytes-to_be16 port) b in
      let b0 = byte_at-lt u 2 b in
      let b1 = byte_at-lt u 3 b in
      let cw = be16_at-write_ge u 2 (to_be16 port) 6 (omega arith) in
      let p =
        patch_checksum_word-Patched w (omega arith) bw old port (omega arith) (omega arith)
          (omega (arith, cw)) in
      record {
        len = p.len ∙ lw;
        bytes = p.bytes;
        has_checksum = p.has_checksum;
        sum = omega (arith, p.sum, words_sum-write16 u 2 port tt (omega arith) hp);
        size = p.size ∙ ap (take 2) (drop-write_at u 2 (to_be16 port) 4 (omega arith));
        rest = p.rest ∙ drop-write_at u 2 (to_be16 port) 8 (omega arith);
      }

  -- The source port is written and the destination port is not, with or without a checksum.
  pub ports-set_src_port :
      (port : ℕ)
      → port < 65536
      → let u' = set_src_port u port in (src_port u' ≡ port) × (dst_port u' ≡ dst_port u)
  unfolding set_src_port src_port dst_port
  ports-set_src_port port hp =
      let w = write_at u 0 (to_be16 port) in
      let lw = length-write_at u 0 (to_be16 port) in
      let bw = IsBytes-write_at u 0 (to_be16 port) (IsBytes-to_be16 port) b in
      let q = ports-patch w (omega arith) bw (be16_at u 0) port in
      (
        q.0 ∙ be16_at-write16 u 0 port (omega arith) hp,
        q.1 ∙ be16_at-write_ge u 0 (to_be16 port) 2 (omega arith),
      )

  pub ports-set_dst_port :
      (port : ℕ)
      → port < 65536
      → let u' = set_dst_port u port in (dst_port u' ≡ port) × (src_port u' ≡ src_port u)
  unfolding set_dst_port src_port dst_port
  ports-set_dst_port port hp =
      let w = write_at u 2 (to_be16 port) in
      let lw = length-write_at u 2 (to_be16 port) in
      let bw = IsBytes-write_at u 2 (to_be16 port) (IsBytes-to_be16 port) b in
      let q = ports-patch w (omega arith) bw (be16_at u 2) port in
      (
        q.1 ∙ be16_at-write16 u 2 port (omega arith) hp,
        q.0 ∙ be16_at-write_lt u 2 (to_be16 port) 0 (omega arith),
      )
