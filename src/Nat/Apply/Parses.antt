-- ===== src/Nat/Apply/Parses.antt =====
-- `apply` leaves alone the fields of the header that `Ipv4View::parse` looks at.
use light_andromeda.Prelude.{
  inr, inl, ◌<◌, Bool-cases, Bytes, ℕ, ◌≡◌, take, length, ap, sym, ◌∙◌, byte_at, byte_at-take,
  take-store, take-join, refl, arith, Option, some, none, Ipv4Addr,
}
use light_andromeda.Nat.Apply.{is_noop, apply, apply_parsed, rewrite_src_ip, rewrite_dst_ip}
use light_andromeda.Nat.Apply.Shape.{rewrite_src_ip-Stored, rewrite_dst_ip-Stored, apply-Stored}
use light_andromeda.Core.Ipv4
use light_andromeda.Core.Errors.{ok}
use light_andromeda.Core.Ipv4.Valid.{IsParsed, parse-eq-ok_iff}
use light_andromeda.Nat.State.{Rewrite}

-- The first 10 bytes, up to the checksum.
abbrev SameHead : Bytes → Bytes → Type 0
SameHead pkt pkt' = take 10 pkt' ≡ take 10 pkt

byte_at-SameHead :
    (pkt pkt' : Bytes) (j : ℕ) → SameHead pkt pkt' → j < 10 → byte_at pkt' j ≡ byte_at pkt j
byte_at-SameHead pkt pkt' j e h =
    sym (byte_at-take j 10 pkt' h) ∙ ap (λ b. byte_at b j) e ∙ byte_at-take j 10 pkt h

IsParsed-SameHead :
    (pkt pkt' : Bytes) → SameHead pkt pkt' → length pkt' ≡ length pkt → IsParsed pkt → IsParsed pkt'
unfolding Ipv4.ihl_bytes Ipv4.total_length
IsParsed-SameHead pkt pkt' e l p =
    let at : (j : ℕ) → j < 10 → byte_at pkt' j ≡ byte_at pkt j =
      λ j. byte_at-SameHead pkt pkt' j e in
    record {
      min_len = rw l p.min_len;
      version = rw (at 0 (omega arith)) p.version;
      ihl_ge = rw (at 0 (omega arith)) p.ihl_ge;
      ihl_le = rw (l, at 0 (omega arith)) p.ihl_le;
      total_ge = rw (at 0 (omega arith), at 2 (omega arith), at 3 (omega arith)) p.total_ge;
    }

src-SameHead :
    (pkt : Bytes) (old : ℕ) (ip : Option Ipv4Addr) → SameHead pkt (rewrite_src_ip pkt old ip).0
unfolding rewrite_src_ip Ipv4.set_src Ipv4.set_header_checksum
src-SameHead pkt old none = refl
src-SameHead pkt old (some s) =
    take-store 10 10 _ _ (omega arith) ∙ take-store 10 12 pkt _ (omega arith)

dst-SameHead :
    (pkt : Bytes) (old : ℕ) (ip : Option Ipv4Addr) → SameHead pkt (rewrite_dst_ip pkt old ip).0
unfolding rewrite_dst_ip Ipv4.set_dst Ipv4.set_header_checksum
dst-SameHead pkt old none = refl
dst-SameHead pkt old (some s) =
    take-store 10 10 _ _ (omega arith) ∙ take-store 10 16 pkt _ (omega arith)

apply_parsed-SameHead :
    (pkt : Bytes) (rw' : Rewrite) → IsParsed pkt → SameHead pkt (apply_parsed pkt rw').0
unfolding apply_parsed
apply_parsed-SameHead pkt rw' p =
    let p1 = (rewrite_src_ip pkt (Ipv4.src pkt) rw'.new_src_ip).0 in
    let p2 = (rewrite_dst_ip p1 (Ipv4.dst pkt) rw'.new_dst_ip).0 in
    let len : length p2 ≡ length pkt =
      (rewrite_dst_ip-Stored p1 (Ipv4.dst pkt) rw'.new_dst_ip).len
      ∙ (rewrite_src_ip-Stored pkt (Ipv4.src pkt) rw'.new_src_ip).len in
    take-join 10 (Ipv4.ihl_bytes pkt) p2 _ (omega (arith, p.ihl_ge)) (omega (arith, p.ihl_le, len))
    ∙ dst-SameHead p1 (Ipv4.dst pkt) rw'.new_dst_ip
    ∙ src-SameHead pkt (Ipv4.src pkt) rw'.new_src_ip

-- A packet that parses does so after every rewrite.
pub apply-parses :
    (pkt : Bytes) (rw' : Rewrite)
    → Ipv4.parse pkt ≡ ok pkt
    → let pkt' = (apply pkt rw').0 in Ipv4.parse pkt' ≡ ok pkt'
unfolding apply
apply-parses pkt rw' e =
    let p = (parse-eq-ok_iff pkt).0 e in
    elim (Bool-cases (is_noop rw')) [
      | inl n ↦ rw (n, apply) e
      | inr n ↦
          let head : SameHead pkt (apply pkt rw').0 =
            rw (n, e, apply) (apply_parsed-SameHead pkt rw' p) in
          (parse-eq-ok_iff (apply pkt rw').0).1
            (IsParsed-SameHead pkt (apply pkt rw').0 head (apply-Stored pkt rw').len p)
    ]
