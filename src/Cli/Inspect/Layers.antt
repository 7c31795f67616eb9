-- ===== src/Cli/Inspect/Layers.antt =====
-- `decode_frame` looks into what `decap` takes out.
use light_andromeda.Prelude.{
  ◌∙◌, none, ap, ◌++◌, false, Option, ◌⊎◌, [], List, ◌∷◌, some, ◌+◌, ◌==◌, Bool-cases, refl, drop,
  suc, arith, inl, inr, ◌≡◌, ℕ, Bytes,
}
use light_andromeda.Core.Errors.{ParseError, Result, ok, err, Result-cases}
use light_andromeda.Cli.Inspect.{
  ethernet_line, udp_line, ipv4_line_of, inner_frame, andromeda_line, Line, Inner, andromeda_lines,
  udp_lines, ipv4_lines, frame_lines, decode_frame,
}
use mathlib.Core.Path.{subst}
use light_andromeda.Core.Ethernet
use light_andromeda.Core.Ipv4
use light_andromeda.Core.Ipv4.Valid.{IsParsed-parse}
use light_andromeda.Core.Overlay
use light_andromeda.Core.Overlay.{Decapsulated, decap}
use light_andromeda.Core.Udp
use light_andromeda.Cli.Inspect.Fuel.{ethernet-parsed}

udp-parsed : (l4 u : Bytes) → Udp.parse l4 ≡ ok u → u ≡ l4
unfolding Udp.parse
udp-parsed l4 u e = ground arith

-- A view is the buffer itself.
parsed_self :
    (parse : Bytes → Result Bytes) (buf : Bytes)
    → ((v : Bytes) → parse buf ≡ ok v → v ≡ buf)
    → (parse buf ≡ ok buf) ⊎ ((x : ParseError) × (parse buf ≡ err x))
parsed_self parse buf self = elim (Result-cases (parse buf)) [
  | inl (v, e) ↦ inl (e ∙ ap ok (self v e))
  | inr (x, e) ↦ inr (x, e)
]

-- If something was taken out, the lines are these, then those of the header and of the inner frame.
abbrev Shown : Inner → (lines before : List Line) → ℕ → Result (Option Decapsulated) → Type 0
Shown inner lines before depth (ok (some d)) =
    lines
    ≡ before ++ (andromeda_line d.header depth ∷ inner_frame depth ∷ inner d.inner (depth + 4))
Shown inner lines before depth (ok none) = Unit
Shown inner lines before depth (err e) = Unit

module _ (inner : Inner) (depth : ℕ) where
  decap_udp-Shown :
      (ip after : Bytes)
      → Shown inner (andromeda_lines inner after depth) [] depth (Overlay.decap_udp ip after)
  unfolding Overlay.decap_udp andromeda_lines
  decap_udp-Shown ip after = elim (Result-cases (Overlay.decode after)) [
    | inl (hdr, e) ↦ rw (e, andromeda_lines, Overlay.decap_udp) refl
    | inr (x, e) ↦ rw (e, andromeda_lines, Overlay.decap_udp) tt
  ]

  Shown-cons :
      (l : Line) (lines before : List Line) (r : Result (Option Decapsulated))
      → Shown inner lines before depth r
      → Shown inner (l ∷ lines) (l ∷ before) depth r
  Shown-cons l lines before (ok (some d)) h = ap (◌∷◌ l) h
  Shown-cons l lines before (ok none) h = tt
  Shown-cons l lines before (err e) h = tt

  decap_l4-Shown :
      (ip l4 : Bytes)
      → Shown inner
          (udp_lines inner l4 depth)
          (udp_line l4 depth ∷ [])
          depth
          (Overlay.decap_l4 ip l4)
  unfolding Overlay.decap_l4 udp_lines
  decap_l4-Shown ip l4 = elim (parsed_self Udp.parse l4 (udp-parsed l4)) [
    | inr (x, e) ↦ rw (e, udp_lines, Overlay.decap_l4) tt
    | inl e ↦ elim (Bool-cases (Udp.dst_port l4 == Overlay.andromeda_udp_port)) [
      | inr p ↦ rw (e, udp_lines, Overlay.decap_l4, p) tt
      | inl p ↦
          rw (e, udp_lines, Overlay.decap_l4, p)
            (Shown-cons (udp_line l4 depth) _ [] _ (decap_udp-Shown ip (drop 8 l4)))
    ]
  ]

  decap_ip-Shown :
      (packet : Bytes)
      → Shown inner
          (ipv4_lines inner packet depth)
          (ipv4_line_of packet depth ∷ udp_line (Ipv4.payload packet) depth ∷ [])
          depth
          (Overlay.decap_ip packet)
  unfolding Overlay.decap_ip ipv4_lines
  decap_ip-Shown packet = elim (parsed_self Ipv4.parse packet (λ v e. (IsParsed-parse e).1)) [
    | inr (x, e) ↦ rw (e, ipv4_lines, Overlay.decap_ip) tt
    | inl e ↦ elim (Bool-cases (Ipv4.protocol packet == Ipv4.proto_udp)) [
      | inr p ↦ rw (e, ipv4_lines, Overlay.decap_ip, p) tt
      | inl p ↦
          rw (e, ipv4_lines, Overlay.decap_ip, p)
            (Shown-cons (ipv4_line_of packet depth) _ (udp_line (Ipv4.payload packet) depth ∷ []) _
              (decap_l4-Shown packet (Ipv4.payload packet)))
    ]
  ]

  decap-Shown :
      (frame : Bytes)
      → let packet = Ethernet.payload frame in
        Shown inner
          (frame_lines inner frame depth)
          (ethernet_line frame depth
            ∷ ipv4_line_of packet depth
            ∷ udp_line (Ipv4.payload packet) depth
            ∷ [])
          depth
          (decap frame)
  unfolding decap frame_lines
  decap-Shown frame =
      elim (parsed_self Ethernet.parse frame (λ v e. (ethernet-parsed frame v e).1)) [
        | inr (x, e) ↦ rw (e, frame_lines, decap) tt
        | inl e ↦ elim (Bool-cases (Ethernet.ethertype frame == Ethernet.ethertype_ipv4)) [
          | inr p ↦ rw (e, frame_lines, decap, p) tt
          | inl p ↦
              let no_arp : (Ethernet.ethertype frame == Ethernet.ethertype_arp) ≡ false =
                ground (arith, p) in
              rw (e, frame_lines, decap, p, no_arp)
                (Shown-cons (ethernet_line frame depth) _
                  (ipv4_line_of (Ethernet.payload frame) depth
                    ∷ udp_line (Ipv4.payload (Ethernet.payload frame)) depth
                    ∷ [])
                  _ (decap_ip-Shown (Ethernet.payload frame)))
        ]
      ]

-- Where decapsulation takes out a frame, the decoder shows the outer headers, then the Andromeda header
-- that was taken off, then, deeper by four, the inner frame.
pub decode_frame-decap :
    (fuel : ℕ) (frame : Bytes) (depth : ℕ) (d : Decapsulated)
    → decap frame ≡ ok (some d)
    → let packet = Ethernet.payload frame in
      decode_frame (suc fuel) frame depth
      ≡ ethernet_line frame depth
        ∷ ipv4_line_of packet depth
        ∷ udp_line (Ipv4.payload packet) depth
        ∷ andromeda_line d.header depth
        ∷ inner_frame depth
        ∷ decode_frame fuel d.inner (depth + 4)
unfolding decode_frame
decode_frame-decap fuel frame depth d h =
    let packet = Ethernet.payload frame in
    let before =
      ethernet_line frame depth
      ∷ ipv4_line_of packet depth
      ∷ udp_line (Ipv4.payload packet) depth
      ∷ [] in
    let inner = decode_frame fuel in
    subst (Shown inner (frame_lines inner frame depth) before depth) h
      (decap-Shown inner depth frame)
