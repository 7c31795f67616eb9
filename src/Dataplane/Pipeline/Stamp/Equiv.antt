-- ===== src/Dataplane/Pipeline/Stamp/Equiv.antt =====
-- `stamp_outer` against `encap_in_place`: the precomputed header with its variable fields patched is
-- the header written from nothing.
use light_andromeda.Prelude.{
  false, true, le→ltb_false, slice, if◌then◌else◌, Bool, refl, update_slice, to_be16, drop-drop,
  length-drop, sym, ◌%◌, fill, ◌∙◌, copy_over_lem, ◌-◌, write_at, byte_at, bit_or, ap, IsBytes,
  be16, ◌+◌, ◌++◌, octets, drop, arith, length, ◌≡◌, ◌<◌, ◌≤◌, Ipv4Addr, Bytes, ℕ,
}
use light_andromeda.Core.Errors.{ok, Result}
use light_andromeda.Core.Udp
use light_andromeda.Core.Overlay.{
  encap_in_place, andromeda_hdr_len, new, encode, EncapParams, write_headers,
}
use light_andromeda.Dataplane.Pipeline.State.{Pipeline, PipelineConfig, template, template_prefix}
use light_andromeda.Dataplane.Pipeline.Stamp.{
  stamp_outer, OuterTemplate, stamp_headers, stamped_checksum, outer_total_len,
}
use light_andromeda.Core.Overlay.Encap.{
  udp_payload_len, andromeda, outer_headers, write_headers-eq, ip_total,
}
use light_andromeda.Core.Udp.Header.{udp_len, udp_header}
use light_andromeda.Core.Overlay.Header.{encode-eq}
use light_andromeda.Core.Checksum.{fold, checksum}
use light_andromeda.Core.Ipv4.Header.{ipv4_header, header_checksum_of}
use light_andromeda.Core.Ethernet.Header.{eth_header}
use light_andromeda.Core.Checksum.Sum.{words_sum, sum_be16-eq-words_sum}

-- The parameters of the encapsulation that the stamp stands for.
abbrev pub params_of : PipelineConfig → Ipv4Addr → (flow ip_id vni : ℕ) → EncapParams
params_of cfg dst_ip flow ip_id vni = record {
  outer_src_mac = cfg.outer_src_mac;
  outer_dst_mac = cfg.outer_dst_mac;
  outer_src_ip = cfg.local_node_ip;
  outer_dst_ip = dst_ip;
  vni = vni;
  flow_hash = flow;
  ip_id = ip_id;
  outer_udp_checksum = cfg.outer_udp_checksum;
}

total_len-eq : (n : ℕ) → n ≤ 65499 → ip_total n ≡ outer_total_len n
total_len-eq n h = omega arith

abbrev stamped_sum : OuterTemplate → ℕ → Ipv4Addr → ℕ → ℕ
stamped_sum tmpl total_len dst_ip ip_id =
    let d = octets dst_ip in
    tmpl.ip_csum_base
    + total_len
    + ip_id
    + be16 (byte_at d 0) (byte_at d 1)
    + be16 (byte_at d 2) (byte_at d 3)

stamped_checksum-eq :
    (cfg : PipelineConfig) (dst_ip ip_id total : ℕ)
    → ip_id < 65536
    → total < 65536
    → stamped_checksum (template cfg) total dst_ip ip_id
      ≡ header_checksum_of cfg.local_node_ip dst_ip 17 64 ip_id 0x4000 total
unfolding template template_prefix checksum words_sum light_andromeda.Core.Ethernet.write_header
stamped_checksum-eq cfg dst_ip ip_id total h l =
    let src = cfg.local_node_ip in
    let hdr = ipv4_header src dst_ip 17 64 ip_id 0x4000 total 0 in
    let bytes : IsBytes hdr = omega arith in
    let words : stamped_sum (template cfg) total dst_ip ip_id ≡ words_sum hdr = omega arith in
    ap (λ x. 65535 - fold x) (words ∙ sym (sum_be16-eq-words_sum hdr bytes (omega arith)))

-- The stores behind the copy of the prefix.
abbrev patches : PipelineConfig → ℕ → Ipv4Addr → (flow ip_id : ℕ) → Bytes → Bytes
patches cfg n dst_ip flow ip_id out1 =
    let total_len = outer_total_len n in
    let out2 = write_at out1 16 (to_be16 total_len) in
    let out3 = write_at out2 18 (to_be16 ip_id) in
    let out4 = write_at out3 30 (octets dst_ip) in
    let out5 =
      write_at out4 24 (to_be16 (stamped_checksum (template cfg) total_len dst_ip ip_id)) in
    let out6 = write_at out5 34 (to_be16 (bit_or flow 0xc000)) in
    write_at out6 38 (to_be16 ((8 + andromeda_hdr_len + n) % 65536))

drop-headers : (out : Bytes) → drop 8 (drop 42 out) ≡ drop 8 (drop 8 (drop 20 (drop 14 out)))
drop-headers out =
    let d1 : drop 20 (drop 14 out) ≡ drop 34 out = drop-drop out 20 14 in
    let d2 : drop 8 (drop 34 out) ≡ drop 42 out = drop-drop out 8 34 in
    ap (drop 8) (sym d2) ∙ ap (λ x. drop 8 (drop 8 x)) (sym d1)

pub stamp_headers-eq :
    (cfg : PipelineConfig) (out : Bytes) (n : ℕ) (dst_ip : Ipv4Addr) (flow ip_id vni : ℕ)
    → 50 ≤ length out
    → n ≤ 65499
    → ip_id < 65536
    → stamp_headers (template cfg) out n dst_ip flow ip_id vni
      ≡ write_headers out n (params_of cfg dst_ip flow ip_id vni)
unfolding template_prefix light_andromeda.Core.Ethernet.write_header stamp_headers template
stamp_headers-eq cfg out n dst_ip flow ip_id vni l k h =
    let src = cfg.local_node_ip in
    let p = params_of cfg dst_ip flow ip_id vni in
    let total = outer_total_len n in
    let c = stamped_checksum (template cfg) total dst_ip ip_id in
    let rest = drop 42 out in
    let hdr : ℕ → ℕ → ℕ → Bytes = λ t u x.
      eth_header cfg.outer_dst_mac cfg.outer_src_mac 0x0800
      ++ ipv4_header src dst_ip 17 64 ip_id 0x4000 t x
      ++ udp_header (bit_or flow 0xc000) 43481 u 0 in
    let e1 : write_at out 0 (template_prefix cfg) ≡ template_prefix cfg ++ rest =
      copy_over_lem (template_prefix cfg) out (omega arith) in
    let e2 =
      fill (hdr total ((8 + 8 + n) % 65536) c) rest 42 8 (encode (new vni flow)) (andromeda p n)
        refl (omega (arith, length-drop 42 out)) (λ x e. encode-eq x (new vni flow) e) in
    let u : ((8 + andromeda_hdr_len + n) % 65536) ≡ udp_len (udp_payload_len n) = omega arith in
    let t : total ≡ ip_total n = sym (total_len-eq n k) in
    let e3 = stamped_checksum-eq cfg dst_ip ip_id total h (omega arith) in
    let e4 =
      ap
        (λ t.
          hdr t ((8 + andromeda_hdr_len + n) % 65536)
            (header_checksum_of src dst_ip 17 64 ip_id 0x4000 t))
        t
      ∙ ap (λ u. hdr (ip_total n) u (header_checksum_of src dst_ip 17 64 ip_id 0x4000 (ip_total n)))
          u in
    ap (λ o. update_slice (patches cfg n dst_ip flow ip_id o) 42 50 (encode (new vni flow))) e1
    ∙ e2
    ∙ ap (λ x. hdr total ((8 + andromeda_hdr_len + n) % 65536) x ++ andromeda p n ++ drop 8 rest) e3
    ∙ ap (λ x. x ++ andromeda p n ++ drop 8 rest) e4
    ∙ ap (λ x. outer_headers p n 0 ++ x) (drop-headers out)
    ∙ sym (write_headers-eq p n out l)

pair_if :
    (b : Bool) (x y : Bytes) (t : Result ℕ)
    → let both : Bytes × Result ℕ = (if b then x else y, t) in (if b then (x, t) else (y, t)) ≡ both
pair_if true x y t = refl
pair_if false x y t = refl

-- For an inner frame that fits, the stamp of a pipeline whose template is that of its configuration
-- leaves the very bytes that `encap_in_place` writes, the outer UDP checksum included.
pub stamp_outer-eq :
    (s : Pipeline) (out : Bytes) (n : ℕ) (dst_ip : Ipv4Addr) (flow ip_id vni : ℕ)
    → s.tmpl ≡ template s.cfg
    → 50 + n ≤ length out
    → n ≤ 65499
    → ip_id < 65536
    → encap_in_place out n (params_of s.cfg dst_ip flow ip_id vni)
      ≡ (stamp_outer s out n dst_ip flow ip_id vni, ok (50 + n))
unfolding encap_in_place stamp_outer
stamp_outer-eq s out n dst_ip flow ip_id vni e l k h =
    let p = params_of s.cfg dst_ip flow ip_id vni in
    let total : Result ℕ = ok (50 + n) in
    let finish : Bytes → Bytes = λ o.
      if s.cfg.outer_udp_checksum
      then write_at o 40
          (to_be16 (Udp.compute_checksum s.cfg.local_node_ip dst_ip (slice o 34 (50 + n))))
      else o in
    let same : write_headers out n p ≡ stamp_headers s.tmpl out n dst_ip flow ip_id vni =
      sym (stamp_headers-eq s.cfg out n dst_ip flow ip_id vni (omega arith) k h)
      ∙ ap (λ t. stamp_headers t out n dst_ip flow ip_id vni) (sym e) in
    let o = write_headers out n p in
    rw (le→ltb_false (length out) (50 + n) l) (
      rw (le→ltb_false 65499 n k) (
        pair_if s.cfg.outer_udp_checksum
          (write_at o 40
            (to_be16 (Udp.compute_checksum s.cfg.local_node_ip dst_ip (slice o 34 (50 + n)))))
          o total
        ∙ ap (λ x. (finish x, total)) same))
