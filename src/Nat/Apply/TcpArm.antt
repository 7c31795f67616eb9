-- ===== src/Nat/Apply/TcpArm.antt =====
-- The TCP arm of `apply`: the checksum follows the addresses and the ports.
use light_andromeda.Prelude.{
  none, refl, inr, ==_iff, inl, ◌∙◌, arith, ◌==◌, ◌+◌, Bool-cases, ◌<◌, length, ◌≡◌, Option, ℕ, ◌≤◌,
  Bytes, IsBytes, ap,
}
use light_andromeda.Nat.Apply.{
  some, Option, ℕ, tcp_patch_address, tcp_src_port, tcp_dst_port, patch_tcp,
}
use light_andromeda.Core.Ipv4.Pseudo.{halves}
use light_andromeda.Core.Tcp.{src_port, dst_port}
use light_andromeda.Core.Tcp.Patch.{
  Patched, Patched-refl, Patched-trans, patch_checksum_dword-Patched, ports-patch_dword,
  set_src_port-Patched, set_dst_port-Patched,
}
use light_andromeda.Nat.State.{Rewrite}

-- A value in place of an old one, if there is a new one.
abbrev pub or_old : Option ℕ → ℕ → ℕ
or_old none old = old
or_old (some new) old = new

-- An optional value below a bound.
abbrev pub Below : ℕ → Option ℕ → Type 0
Below n none = Unit
Below n (some v) = v < n

pub or_old-lt : {n : ℕ} (new : Option ℕ) (old : ℕ) → Below n new → old < n → or_old new old < n
or_old-lt none old h k = k
or_old-lt (some new) old h k = h

-- What the TCP arm does to a segment.
pub record Patch (t t' : Bytes) (old new sport dport : ℕ) : Type 0 where
  pub patched : Patched t t' old new
  pub src_is : src_port t' ≡ sport
  pub dst_is : dst_port t' ≡ dport

module _ (t : Bytes) (l : 20 ≤ length t) (b : IsBytes t) where
  Patch-address :
      (old new : ℕ)
      → old < 4294967296
      → new < 4294967296
      → Patch t (tcp_patch_address t old new) (halves old) (halves new) (src_port t) (dst_port t)
  unfolding tcp_patch_address
  Patch-address old new ho hn = elim (Bool-cases (new == old)) [
    | inl same ↦
        let e = (==_iff new old).0 same in
        rw same (record {
          patched = record {
            len = refl;
            bytes = b;
            sum = omega (arith, e);
            fields = refl;
            rest = refl;
          };
          src_is = refl;
          dst_is = refl;
        })
    | inr other ↦
        let q = ports-patch_dword t l b old new ho hn in
        rw other (record {
          patched = patch_checksum_dword-Patched t l b old new ho hn;
          src_is = q.0;
          dst_is = q.1;
        })
  ]

  Patch-src_port :
      (port : Option ℕ)
      → Below 65536 port
      → Patch t (tcp_src_port t port) 0 0 (or_old port (src_port t)) (dst_port t)
  unfolding tcp_src_port
  Patch-src_port none h = record { patched = Patched-refl t b; src_is = refl; dst_is = refl }
  Patch-src_port (some p) h =
      let q = set_src_port-Patched t l b p h in record { patched = q.0; src_is = q.1; dst_is = q.2 }

  Patch-dst_port :
      (port : Option ℕ)
      → Below 65536 port
      → Patch t (tcp_dst_port t port) 0 0 (src_port t) (or_old port (dst_port t))
  unfolding tcp_dst_port
  Patch-dst_port none h = record { patched = Patched-refl t b; src_is = refl; dst_is = refl }
  Patch-dst_port (some p) h =
      let q = set_dst_port-Patched t l b p h in record { patched = q.0; src_is = q.2; dst_is = q.1 }

-- Ports as rewritten, and a checksum that follows the change of both addresses.
pub patch_tcp-Patch :
    (t : Bytes) (rw' : Rewrite) (os ns od nd : ℕ)
    → 20 ≤ length t
    → IsBytes t
    → os < 4294967296
    → ns < 4294967296
    → od < 4294967296
    → nd < 4294967296
    → Below 65536 rw'.new_src_port
    → Below 65536 rw'.new_dst_port
    → Patch t
        (patch_tcp t rw' os ns od nd)
        (halves os + halves od + 0 + 0)
        (halves ns + halves nd + 0 + 0)
        (or_old rw'.new_src_port (src_port t))
        (or_old rw'.new_dst_port (dst_port t))
unfolding patch_tcp
patch_tcp-Patch t rw' os ns od nd l b hos hns hod hnd hsp hdp =
    let a = Patch-address t l b os ns hos hns in
    let t1 = tcp_patch_address t os ns in
    let l1 : 20 ≤ length t1 = omega (arith, a.patched.len) in
    let c = Patch-address t1 l1 a.patched.bytes od nd hod hnd in
    let t2 = tcp_patch_address t1 od nd in
    let l2 : 20 ≤ length t2 = omega (arith, c.patched.len) in
    let d = Patch-src_port t2 l2 c.patched.bytes rw'.new_src_port hsp in
    let t3 = tcp_src_port t2 rw'.new_src_port in
    let l3 : 20 ≤ length t3 = omega (arith, d.patched.len) in
    let e = Patch-dst_port t3 l3 d.patched.bytes rw'.new_dst_port hdp in
    record {
      patched =
          Patched-trans (Patched-trans (Patched-trans a.patched c.patched) d.patched) e.patched;
      src_is = e.src_is ∙ d.src_is ∙ ap (or_old rw'.new_src_port) (c.src_is ∙ a.src_is);
      dst_is = e.dst_is ∙ ap (or_old rw'.new_dst_port) (d.dst_is ∙ c.dst_is ∙ a.dst_is);
    }
