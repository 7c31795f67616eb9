-- ===== src/Cli/Inspect/Fuel.antt =====
-- `decode_frame` stops: fuel above the length of the bytes is enough.
use light_andromeda.Prelude.{
  ◌+◌, ◌==◌, Bool-cases, length-drop, zero, refl, drop, suc, arith, inl, inr, ◌≡◌, ◌≤◌, ◌<◌, length,
  ℕ, Bytes,
}
use light_andromeda.Core.Errors.{ok, Result-cases}
use light_andromeda.Cli.Inspect.{
  AndromedaHdr, Inner, andromeda_lines, udp_lines, ipv4_lines, frame_lines, decode_frame,
}
use light_andromeda.Core.Ethernet
use light_andromeda.Core.Ipv4
use light_andromeda.Core.Ipv4.Valid.{IsParsed-parse}
use light_andromeda.Core.Overlay
use light_andromeda.Core.Overlay.{Decapsulated, decap}
use light_andromeda.Core.Udp

-- Two ways to show an inner frame agree on all that is shorter than `n`.
abbrev Agree : ℕ → Inner → Inner → Type 0
Agree n f g = (bytes : Bytes) (depth : ℕ) → length bytes < n → f bytes depth ≡ g bytes depth

decode-length : (after : Bytes) {h : AndromedaHdr} → Overlay.decode after ≡ ok h → 8 ≤ length after
unfolding Overlay.decode
decode-length after e = ground arith

pub ethernet-parsed :
    (bytes eth : Bytes) → Ethernet.parse bytes ≡ ok eth → (14 ≤ length bytes) × (eth ≡ bytes)
unfolding Ethernet.parse
ethernet-parsed bytes eth e = ground arith

ipv4-payload-length : (ip : Bytes) → length (Ipv4.payload ip) ≤ length ip
unfolding Ipv4.payload
ipv4-payload-length ip = omega (arith, length-drop (Ipv4.ihl_bytes ip) ip)

ethernet-payload-length : (eth : Bytes) → length (Ethernet.payload eth) ≤ length eth
unfolding Ethernet.payload
ethernet-payload-length eth = omega (arith, length-drop 14 eth)

module _ (f g : Inner) where
  andromeda_lines-Agree :
      (after : Bytes) (depth n : ℕ)
      → Agree n f g
      → length after ≤ n
      → andromeda_lines f after depth ≡ andromeda_lines g after depth
  unfolding andromeda_lines
  andromeda_lines-Agree after depth n a l = elim (Result-cases (Overlay.decode after)) [
    | inl (h, e) ↦
        let shorter =
          a (drop 8 after) (depth + 4)
            (omega (arith, length-drop 8 after, decode-length after e)) in
        rw (e, andromeda_lines, shorter) refl
    | inr (x, e) ↦ rw (e, andromeda_lines) refl
  ]

  udp_lines-Agree :
      (l4 : Bytes) (depth n : ℕ)
      → Agree n f g
      → length l4 ≤ n
      → udp_lines f l4 depth ≡ udp_lines g l4 depth
  unfolding udp_lines
  udp_lines-Agree l4 depth n a l = elim (Result-cases (Udp.parse l4)) [
    | inr (x, e) ↦ rw (e, udp_lines) refl
    | inl (u, e) ↦
        let same = andromeda_lines-Agree (drop 8 l4) depth n a (omega (arith, length-drop 8 l4)) in
        elim (Bool-cases (Udp.dst_port u == Overlay.andromeda_udp_port)) [
          | inl p ↦ rw (e, udp_lines, p, same) refl
          | inr p ↦ rw (e, udp_lines, p) refl
        ]
  ]

  ipv4_lines-Agree :
      (payload : Bytes) (depth n : ℕ)
      → Agree n f g
      → length payload ≤ n
      → ipv4_lines f payload depth ≡ ipv4_lines g payload depth
  unfolding ipv4_lines
  ipv4_lines-Agree payload depth n a l = elim (Result-cases (Ipv4.parse payload)) [
    | inr (x, e) ↦ rw (e, ipv4_lines) refl
    | inl (ip, e) ↦
        let (_, self) = IsParsed-parse e in
        let len : length ip ≤ n = rw self l in
        let same =
          udp_lines-Agree (Ipv4.payload ip) depth n a
            (omega (arith, ipv4-payload-length ip, len)) in
        rw (e, ipv4_lines, same) refl
  ]

  frame_lines-Agree :
      (bytes : Bytes) (depth n : ℕ)
      → Agree n f g
      → length bytes ≤ n
      → frame_lines f bytes depth ≡ frame_lines g bytes depth
  unfolding frame_lines
  frame_lines-Agree bytes depth n a l = elim (Result-cases (Ethernet.parse bytes)) [
    | inr (x, e) ↦ rw (e, frame_lines) refl
    | inl (eth, e) ↦
        let (_, self) = ethernet-parsed bytes eth e in
        let len : length eth ≤ n = rw self l in
        let same =
          ipv4_lines-Agree (Ethernet.payload eth) depth n a
            (omega (arith, ethernet-payload-length eth, len)) in
        rw (e, frame_lines, same) refl
  ]

-- More fuel than there are bytes is enough: the lines are the same with any such fuel.
pub decode_frame-enough :
    (fuel fuel' : ℕ) (bytes : Bytes) (depth : ℕ)
    → length bytes < fuel
    → length bytes < fuel'
    → decode_frame fuel bytes depth ≡ decode_frame fuel' bytes depth
unfolding decode_frame
decode_frame-enough zero fuel' bytes depth h k = absurd (omega arith)
decode_frame-enough (suc fuel) zero bytes depth h k = absurd (omega arith)
decode_frame-enough (suc fuel) (suc fuel') bytes depth h k =
    frame_lines-Agree (decode_frame fuel) (decode_frame fuel') bytes depth (length bytes)
      (λ b d l. decode_frame-enough fuel fuel' b d (omega arith) (omega arith)) (omega arith)
