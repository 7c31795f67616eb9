-- ===== src/Core/Overlay/RoundTrip.antt =====
-- `decap` undoes `encap`.
use light_andromeda.Prelude.{
  inr, inl, Bool-cases, le→ltb_false, length-write_at, to_be16, length-drop, if◌then◌else◌,
  copy_over_lem, slice, drop-write_at_self, drop-drop, take-append, write_at, take, drop,
  ipv4-octets, ◌^◌, ℕ, ◌+◌, ◌≤◌, ◌<◌, ◌≡◌, ◌∙◌, ap, refl, arith, Bytes, ◌++◌, length, some,
}
use light_andromeda.Core.Overlay.Encap.{
  write_headers-eq, ip_total, outer_ip, andromeda, outer_udp, outer_headers,
}
use light_andromeda.Core.Errors.{Result, ok}
use light_andromeda.Core.Overlay.{
  encap_in_place, write_headers, encap, AndromedaHdr, Decapsulated, EncapParams, decap, decap_ip,
  decap_l4, decap_udp, new,
}
use light_andromeda.Core.Overlay.Header.{
  new-IsHeader, IsHeader, andromeda_header, decode-andromeda_header,
}
use light_andromeda.Core.Ipv4.Header.{header_checksum_of, ipv4_header}
use light_andromeda.Core.Ethernet.{MacAddr}
use light_andromeda.Core.Ethernet.Header.{eth_header, parse-write_header}
use light_andromeda.Core.Ipv4
use light_andromeda.Core.Ipv4.Valid.{IsParsed, parse-eq-ok_iff}
use light_andromeda.Core.Udp
use light_andromeda.Core.Udp.Header.{udp_header}

decap-eth : (d s : MacAddr) (rest : Bytes) → decap (eth_header d s 0x0800 ++ rest) ≡ decap_ip rest
unfolding decap
decap-eth d s rest =
    let (parsed, d', s', ty, rest') = parse-write_header d s 0x0800 rest (omega arith) in
    rw parsed (rw ty (rw rest' refl))

ipv4_header-IsParsed :
    (s d : ℕ) (ttl id flags total c : ℕ) (rest : Bytes)
    → total ≡ 20 + length rest
    → total < 65536
    → IsParsed (ipv4_header s d 17 ttl id flags total c ++ rest)
unfolding Ipv4.ihl_bytes Ipv4.total_length
ipv4_header-IsParsed s d ttl id flags total c rest e l = record {
  min_len = omega arith;
  version = omega arith;
  ihl_ge = omega arith;
  ihl_le = omega arith;
  total_ge = omega arith;
}

decap_ip-header :
    (s d : ℕ) (ttl id flags total c : ℕ) (rest : Bytes)
    → total ≡ 20 + length rest
    → total < 65536
    → let pkt = ipv4_header s d 17 ttl id flags total c ++ rest in decap_ip pkt ≡ decap_l4 pkt rest
unfolding decap_ip Ipv4.protocol Ipv4.payload Ipv4.ihl_bytes
decap_ip-header s d ttl id flags total c rest e l =
    let parsed =
      (parse-eq-ok_iff (ipv4_header s d 17 ttl id flags total c ++ rest)).1
        (ipv4_header-IsParsed s d ttl id flags total c rest e l) in
    rw parsed refl

decap_l4-header :
    (pkt : Bytes) (sport len c : ℕ) (rest : Bytes)
    → decap_l4 pkt (udp_header sport 43481 len c ++ rest) ≡ decap_udp pkt rest
unfolding decap_l4 Udp.parse Udp.dst_port
decap_l4-header pkt sport len c rest = ground arith

decap_udp-header :
    (pkt : Bytes) (h : AndromedaHdr) (inner : Bytes)
    → IsHeader h
    → decap_udp pkt (andromeda_header h ++ inner)
      ≡ ok (
          some (record {
            header = h;
            inner = inner;
            outer_src_ip = Ipv4.src pkt;
            outer_dst_ip = Ipv4.dst pkt;
          }))
unfolding decap_udp
decap_udp-header pkt h inner v = rw (decode-andromeda_header h inner v) refl

ipv4_header-src :
    (s d : ℕ) (ttl id flags total c : ℕ) (rest : Bytes)
    → s < 2 ^ 32
    → d < 2 ^ 32
    → let pkt = ipv4_header s d 17 ttl id flags total c ++ rest in
      (Ipv4.src pkt ≡ s) × (Ipv4.dst pkt ≡ d)
unfolding Ipv4.src Ipv4.dst
ipv4_header-src s d ttl id flags total c rest h k = (ipv4-octets s h, ipv4-octets d k)

-- The addresses and the flow hash fit their types.
pub record IsParams (p : EncapParams) : Type 0 where
  pub src : p.outer_src_ip < 2 ^ 32
  pub dst : p.outer_dst_ip < 2 ^ 32
  pub flow_hash : p.flow_hash < 65536

-- What `decap` gives for a frame that these parameters encapsulate.
abbrev pub decapsulated : EncapParams → Bytes → Decapsulated
decapsulated p inner = record {
  header = new p.vni p.flow_hash;
  inner = inner;
  outer_src_ip = p.outer_src_ip;
  outer_dst_ip = p.outer_dst_ip;
}

-- The headers, with any UDP checksum, are read back.
pub decap-outer_headers :
    (p : EncapParams) (c : ℕ) (inner : Bytes)
    → IsParams p
    → length inner ≤ 65499
    → decap (outer_headers p (length inner) c ++ inner) ≡ ok (some (decapsulated p inner))
decap-outer_headers p c inner v l =
    let n = length inner in
    let l4 = outer_udp p n c ++ (andromeda p n ++ inner) in
    let pkt = outer_ip p n ++ l4 in
    let addr =
      ipv4_header-src p.outer_src_ip p.outer_dst_ip 64 p.ip_id 0x4000 (ip_total n)
        (header_checksum_of p.outer_src_ip p.outer_dst_ip 17 64 p.ip_id 0x4000 (ip_total n)) l4
        v.src v.dst in
    let e1 : decap (outer_headers p n c ++ inner) ≡ decap_ip pkt =
      decap-eth p.outer_dst_mac p.outer_src_mac pkt in
    let e2 : decap_ip pkt ≡ decap_l4 pkt l4 =
      decap_ip-header p.outer_src_ip p.outer_dst_ip 64 p.ip_id 0x4000 (ip_total n)
        (header_checksum_of p.outer_src_ip p.outer_dst_ip 17 64 p.ip_id 0x4000 (ip_total n)) l4
        (omega arith) (omega arith) in
    let e3 : decap_l4 pkt l4 ≡ decap_udp pkt (andromeda p n ++ inner) =
      decap_l4-header pkt _ _ c (andromeda p n ++ inner) in
    let e4 =
      decap_udp-header pkt (new p.vni p.flow_hash) inner
        (new-IsHeader p.vni p.flow_hash v.flow_hash) in
    let e5 =
      ap
        (λ a. ok (
          some (record {
            header = new p.vni p.flow_hash;
            inner = inner;
            outer_src_ip = a;
            outer_dst_ip = Ipv4.dst pkt;
          })))
        addr.0 in
    let e6 =
      ap
        (λ a. ok (
          some (record {
            header = new p.vni p.flow_hash;
            inner = inner;
            outer_src_ip = p.outer_src_ip;
            outer_dst_ip = a;
          })))
        addr.1 in
    e1 ∙ e2 ∙ e3 ∙ e4 ∙ e5 ∙ e6

drop-at :
    (xs ys : Bytes) (n : ℕ)
    → 50 + n ≤ length xs
    → length ys ≡ n
    → drop 8 (drop 8 (drop 20 (drop 14 (write_at xs 50 ys)))) ≡ ys ++ drop (50 + n) xs
drop-at xs ys n l e =
    let w = write_at xs 50 ys in
    let d1 : drop 20 (drop 14 w) ≡ drop 34 w = drop-drop w 20 14 in
    let d2 : drop 8 (drop 34 w) ≡ drop 42 w = drop-drop w 8 34 in
    let d3 : drop 8 (drop 42 w) ≡ drop 50 w = drop-drop w 8 42 in
    let d4 = drop-write_at_self xs 50 ys (omega arith) in
    let d5 = copy_over_lem ys (drop 50 xs) (omega (arith, length-drop 50 xs)) in
    let d6 : drop (length ys) (drop 50 xs) ≡ drop (50 + n) xs =
      drop-drop xs (length ys) 50 ∙ ap (λ m. drop (50 + m) xs) e in
    ap (λ x. drop 8 (drop 8 x)) d1 ∙ ap (drop 8) d2 ∙ d3 ∙ d4 ∙ d5 ∙ ap (λ x. ys ++ x) d6

-- `encap` past its checks.
encap-stores :
    (out inner : Bytes) (p : EncapParams)
    → 50 + length inner ≤ length out
    → length inner ≤ 65499
    → let n = length inner in
      let stored = write_headers (write_at out 50 inner) n p in
      let c = Udp.compute_checksum p.outer_src_ip p.outer_dst_ip (slice stored 34 (50 + n)) in
      encap out inner p ≡ (
        if p.outer_udp_checksum
        then (write_at stored 40 (to_be16 c), ok (50 + n))
        else (stored, ok (50 + n)))
unfolding encap encap_in_place
encap-stores out inner p l n =
    let w = length-write_at out 50 inner in
    let fits = le→ltb_false (length out) (50 + length inner) l in
    rw fits (rw w (rw fits (rw (le→ltb_false 65499 (length inner) n) refl)))

-- What `encap` leaves in a buffer that is long enough.
encap-eq :
    (out inner : Bytes) (p : EncapParams)
    → 50 + length inner ≤ length out
    → length inner ≤ 65499
    → (c : ℕ) × (encap out inner p ≡ (
      outer_headers p (length inner) c ++ (inner ++ drop (50 + length inner) out),
      ok (50 + length inner),
    ))
encap-eq out inner p l n =
    let w = write_at out 50 inner in
    let stored = write_headers w (length inner) p in
    let c =
      Udp.compute_checksum p.outer_src_ip p.outer_dst_ip (slice stored 34 (50 + length inner)) in
    let run = encap-stores out inner p l n in
    let rest = inner ++ drop (50 + length inner) out in
    let total : Result ℕ = ok (50 + length inner) in
    let e : stored ≡ outer_headers p (length inner) 0 ++ rest =
      write_headers-eq p (length inner) w (omega (arith, length-write_at out 50 inner))
      ∙ ap (λ x. outer_headers p (length inner) 0 ++ x) (drop-at out inner (length inner) l refl) in
    elim (Bool-cases p.outer_udp_checksum) [
      | inl h ↦ (
        c,
        run
            ∙ ap (λ b. if b then (write_at stored 40 (to_be16 c), total) else (stored, total)) h
            ∙ ap (λ x. (write_at x 40 (to_be16 c), total)) e,
      )
      | inr h ↦ (
        0,
        run
            ∙ ap (λ b. if b then (write_at stored 40 (to_be16 c), total) else (stored, total)) h
            ∙ ap (λ x. (x, total)) e,
      )
    ]

-- `encap` writes `50 + inner.len()` bytes into every buffer that holds them, for an inner frame that
-- fits the length fields, with the outer UDP checksum or without; `decap` gives back of these bytes
-- the VNI and flow hash, the inner frame and the outer addresses.
pub decap-encap :
    (out inner : Bytes) (p : EncapParams)
    → IsParams p
    → 50 + length inner ≤ length out
    → length inner ≤ 65499
    → let (out', written) = encap out inner p in
      (written ≡ ok (50 + length inner))
      × (decap (take (50 + length inner) out') ≡ ok (some (decapsulated p inner)))
decap-encap out inner p v l n =
    let (c, e) = encap-eq out inner p l n in
    let t : take (50 + length inner)
          (outer_headers p (length inner) c ++ inner ++ drop (50 + length inner) out)
        ≡ outer_headers p (length inner) c ++ inner =
      take-append (outer_headers p (length inner) c ++ inner) (drop (50 + length inner) out)
        (50 + length inner) (omega arith) in
    rw e (refl, ap decap t ∙ decap-outer_headers p c inner v n)
