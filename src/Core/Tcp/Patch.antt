-- ===== src/Core/Tcp/Patch.antt =====
-- The incremental rewrites of a TCP segment: what they add to the sum of its words, and what they
-- leave alone.
use light_andromeda.Prelude.{
  slice, take, ap, part-store, be16_at-write_ge, refl, be16_at-write16, drop-write_at,
  IsBytes-to_be16, IsBytes-write_at, to_be16, drop, length-write_at, write_at, ◌/◌, arith, ◌%◌,
  be16_at-write_lt, byte_at-lt, ◌≡◌, ◌∙◌, be16_at, ◌<◌, ◌+◌, length, ◌≤◌, ℕ, Bytes, IsBytes,
}
use light_andromeda.Core.Tcp.{
  to_be16, drop, write_at, be16_at, length, ℕ, src_port, dst_port, patch_checksum_word,
  patch_checksum_dword, set_src_port, set_dst_port,
}
use light_andromeda.Core.Checksum.{update_word}
use light_andromeda.Core.Checksum.Sum.{words_sum, words_sum-write16}
use light_andromeda.Core.Checksum.Update.{update_word-mod, update_word-le}
use light_andromeda.Core.Ipv4.Pseudo.{halves}

-- `t'` is `t` with its checksum patched for a change of `old` to `new` elsewhere.
pub record Patched (t t' : Bytes) (old new : ℕ) : Type 0 where
  pub len : length t' ≡ length t
  pub bytes : IsBytes t'
  pub sum : (words_sum t' + new) % 65535 ≡ (words_sum t + old) % 65535
  -- The sequence and acknowledgement numbers, the header length, the flags and the window.
  pub fields : slice t' 4 16 ≡ slice t 4 16
  pub rest : drop 18 t' ≡ drop 18 t

pub Patched-refl : (t : Bytes) → IsBytes t → Patched t t 0 0
Patched-refl t b = record { len = refl; bytes = b; sum = refl; fields = refl; rest = refl }

pub Patched-trans :
    {t t' t'' : Bytes} {a b c d : ℕ}
    → Patched t t' a b
    → Patched t' t'' c d
    → Patched t t'' (a + c) (b + d)
Patched-trans p q = record {
  len = q.len ∙ p.len;
  bytes = q.bytes;
  sum = omega (arith, p.sum, q.sum);
  fields = q.fields ∙ p.fields;
  rest = q.rest ∙ p.rest;
}

module _ (t : Bytes) (l : 20 ≤ length t) (b : IsBytes t) where
  pub patch_checksum_word-Patched :
      (old new : ℕ) → old ≤ 65535 → new ≤ 65535 → Patched t (patch_checksum_word t old new) old new
  unfolding patch_checksum_word
  patch_checksum_word-Patched old new ho hn =
      let c = be16_at t 16 in
      let c' = update_word c old new in
      let b0 = byte_at-lt t 16 b in
      let b1 = byte_at-lt t 17 b in
      record {
        len = length-write_at t 16 (to_be16 c');
        bytes = IsBytes-write_at t 16 (to_be16 c') (IsBytes-to_be16 c') b;
        sum = omega (
          arith,
          words_sum-write16 t 16 c' tt (omega arith) (omega (arith, update_word-le c old new)),
          update_word-mod c old new (omega arith) ho hn,
        );
        fields = part-store 4 12 16 t (to_be16 c') (omega arith);
        rest = drop-write_at t 16 (to_be16 c') 18 (omega arith);
      }

  ports-patch :
      (old new : ℕ)
      → let t' = patch_checksum_word t old new in
        (src_port t' ≡ src_port t) × (dst_port t' ≡ dst_port t)
  unfolding patch_checksum_word src_port dst_port
  ports-patch old new =
      let c' = update_word (be16_at t 16) old new in
      (
        be16_at-write_lt t 16 (to_be16 c') 0 (omega arith),
        be16_at-write_lt t 16 (to_be16 c') 2 (omega arith),
      )

module _ (t : Bytes) (l : 20 ≤ length t) (b : IsBytes t) where
  pub patch_checksum_dword-Patched :
      (old new : ℕ)
      → old < 4294967296
      → new < 4294967296
      → Patched t (patch_checksum_dword t old new) (halves old) (halves new)
  unfolding patch_checksum_dword
  patch_checksum_dword-Patched old new ho hn =
      let p =
        patch_checksum_word-Patched t l b (old / 65536) (new / 65536) (omega arith) (omega arith) in
      let t1 = patch_checksum_word t (old / 65536) (new / 65536) in
      Patched-trans p (
        patch_checksum_word-Patched t1 (omega (arith, p.len)) p.bytes (old % 65536) (new % 65536)
          (omega arith) (omega arith))

  pub ports-patch_dword :
      (old new : ℕ)
      → old < 4294967296
      → new < 4294967296
      → let t' = patch_checksum_dword t old new in
        (src_port t' ≡ src_port t) × (dst_port t' ≡ dst_port t)
  unfolding patch_checksum_dword
  ports-patch_dword old new ho hn =
      let p =
        patch_checksum_word-Patched t l b (old / 65536) (new / 65536) (omega arith) (omega arith) in
      let t1 = patch_checksum_word t (old / 65536) (new / 65536) in
      let q = ports-patch t l b (old / 65536) (new / 65536) in
      let r = ports-patch t1 (omega (arith, p.len)) p.bytes (old % 65536) (new % 65536) in
      (r.0 ∙ q.0, r.1 ∙ q.1)

  -- The port is written, the other one is not, and the sum of the segment is what it was.
  pub set_src_port-Patched :
      (port : ℕ)
      → port < 65536
      → let t' = set_src_port t port in
        Patched t t' 0 0 × (src_port t' ≡ port) × (dst_port t' ≡ dst_port t)
  unfolding set_src_port dst_port
  set_src_port-Patched port hp =
      let old = be16_at t 0 in
      let w = write_at t 0 (to_be16 port) in
      let lw = length-write_at t 0 (to_be16 port) in
      let bw = IsBytes-write_at t 0 (to_be16 port) (IsBytes-to_be16 port) b in
      let b0 = byte_at-lt t 0 b in
      let b1 = byte_at-lt t 1 b in
      let p = patch_checksum_word-Patched w (omega arith) bw old port (omega arith) (omega arith) in
      let q = ports-patch w (omega arith) bw old port in
      (
        record {
          len = p.len ∙ lw;
          bytes = p.bytes;
          sum = omega (arith, p.sum, words_sum-write16 t 0 port tt (omega arith) hp);
          fields = p.fields ∙ ap (take 12) (drop-write_at t 0 (to_be16 port) 4 (omega arith));
          rest = p.rest ∙ drop-write_at t 0 (to_be16 port) 18 (omega arith);
        },
        q.0 ∙ be16_at-write16 t 0 port (omega arith) hp,
        q.1 ∙ be16_at-write_ge t 0 (to_be16 port) 2 (omega arith),
      )

  pub set_dst_port-Patched :
      (port : ℕ)
      → port < 65536
      → let t' = set_dst_port t port in
        Patched t t' 0 0 × (dst_port t' ≡ port) × (src_port t' ≡ src_port t)
  unfolding set_dst_port src_port
  set_dst_port-Patched port hp =
      let old = be16_at t 2 in
      let w = write_at t 2 (to_be16 port) in
      let lw = length-write_at t 2 (to_be16 port) in
      let bw = IsBytes-write_at t 2 (to_be16 port) (IsBytes-to_be16 port) b in
      let b0 = byte_at-lt t 2 b in
      let b1 = byte_at-lt t 3 b in
      let p = patch_checksum_word-Patched w (omega arith) bw old port (omega arith) (omega arith) in
      let q = ports-patch w (omega arith) bw old port in
      (
        record {
          len = p.len ∙ lw;
          bytes = p.bytes;
          sum = omega (arith, p.sum, words_sum-write16 t 2 port tt (omega arith) hp);
          fields = p.fields ∙ ap (take 12) (drop-write_at t 2 (to_be16 port) 4 (omega arith));
          rest = p.rest ∙ drop-write_at t 2 (to_be16 port) 18 (omega arith);
        },
        q.1 ∙ be16_at-write16 t 2 port (omega arith) hp,
        q.0 ∙ be16_at-write_lt t 2 (to_be16 port) 0 (omega arith),
      )
