-- ===== src/Core/Icmp/Message.antt =====
-- The header and the message of the "Fragmentation Needed" reply, and that their checksums verify.
use light_andromeda.Prelude.{
  [], true, ◌∙◌, ◌++◌, ap, arith, to_be16, ◌-◌, ◌∷◌, ◌%◌, ◌<◌, copy_over, ◌≤◌, ◌+◌, length, ℕ, ◌≡◌,
  refl, Bytes, IsBytes,
}
use light_andromeda.Core.Errors.{ok}
use light_andromeda.Core.Icmp.{write_message}
use light_andromeda.Core.Checksum
use light_andromeda.Core.Checksum.Complete.{checksum-Verifies, checksum-words_sum, finalize-eq}
use light_andromeda.Core.Checksum.Sum.{words_sum}
use light_andromeda.Core.Checksum.Update.{finalize-eq-zero_iff}
use light_andromeda.Core.Ipv4
use light_andromeda.Core.Ipv4.Written.{header_for-IsWritten}
use light_andromeda.Core.Ipv4.Header
use light_andromeda.Core.Ipv4.Header.{ipv4_header, header_checksum_of}

-- The message with a given checksum.
abbrev pub icmp_message : (mtu c : ℕ) → Bytes → Bytes
icmp_message mtu c quote = 3 ∷ 4 ∷ to_be16 c ++ 0 ∷ 0 ∷ to_be16 mtu ++ quote

copy_over-all : (xs ys : Bytes) → length xs ≡ length ys → copy_over xs ys ≡ xs
copy_over-all [] [] e = refl
copy_over-all [] (y ∷ ys) e = absurd (omega (arith, e))
copy_over-all (x ∷ xs) [] e = absurd (omega (arith, e))
copy_over-all (x ∷ xs) (y ∷ ys) e = ap (λ zs. x ∷ zs) (copy_over-all xs ys (omega (arith, e)))

pub write_message-eq :
    (mtu : ℕ) (quote h : Bytes)
    → length h ≡ 8 + length quote
    → write_message mtu quote h ≡ icmp_message mtu 0 quote
unfolding write_message
write_message-eq mtu quote (x0 ∷ x1 ∷ x2 ∷ x3 ∷ x4 ∷ x5 ∷ x6 ∷ x7 ∷ rest) e =
    ap (λ q. 3 ∷ 4 ∷ 0 ∷ 0 ∷ 0 ∷ 0 ∷ to_be16 mtu ++ q) (copy_over-all quote rest (omega (arith, e)))
write_message-eq mtu quote h e = absurd (omega (arith, e))

pub icmp_message-IsBytes :
    (mtu c : ℕ) (quote : Bytes) → IsBytes quote → IsBytes (icmp_message mtu c quote)
icmp_message-IsBytes mtu c quote b = (
  omega arith,
  (
    omega arith,
    (omega arith, (omega arith, (omega arith, (omega arith, (omega arith, (omega arith, b)))))),
  ),
)

words_sum-icmp_message :
    (mtu c : ℕ) (quote : Bytes)
    → c < 65536
    → words_sum (icmp_message mtu c quote) ≡ words_sum (icmp_message mtu 0 quote) + c
unfolding words_sum
words_sum-icmp_message mtu c quote h = omega (arith, h)

words_sum_pos : (mtu : ℕ) (quote : Bytes) → 0 < words_sum (icmp_message mtu 0 quote)
unfolding words_sum
words_sum_pos mtu quote = omega arith

pub icmp_message-checksum :
    (mtu : ℕ) (quote : Bytes)
    → IsBytes quote
    → length quote ≤ 100
    → Checksum.checksum (icmp_message mtu (Checksum.checksum (icmp_message mtu 0 quote)) quote) ≡ 0
icmp_message-checksum mtu quote b l =
    let plain = icmp_message mtu 0 quote in
    let c = Checksum.checksum plain in
    let value : c ≡ 65535 - Checksum.fold (words_sum plain) =
      checksum-words_sum plain (icmp_message-IsBytes mtu 0 quote b) (omega (arith, l))
      ∙ finalize-eq (words_sum plain) in
    let total : words_sum (icmp_message mtu c quote)
        ≡ words_sum plain + (65535 - Checksum.fold (words_sum plain)) =
      omega (arith, value, words_sum-icmp_message mtu c quote (omega (arith, value))) in
    checksum-words_sum (icmp_message mtu c quote) (icmp_message-IsBytes mtu c quote b)
      (omega (arith, l))
    ∙ (finalize-eq-zero_iff (words_sum (icmp_message mtu c quote))).1
        (checksum-Verifies (words_sum plain) _ (words_sum_pos mtu quote) total)

-- The header of the reply.
abbrev pub reply_ip : (gateway_ip dst len : ℕ) → Bytes
reply_ip gateway_ip dst len =
    let total = Header.total_of (len % 65536) in
    ipv4_header gateway_ip dst 1 64 0 0 total (header_checksum_of gateway_ip dst 1 64 0 0 total)

-- Its checksum verifies, and it is read back.
pub reply_ip_lem :
    (s d q : ℕ) (icmp : Bytes)
    → s < 4294967296
    → d < 4294967296
    → length icmp ≡ 8 + q
    → q ≤ 100
    → IsBytes icmp
    → let pkt = reply_ip s d (8 + q) ++ icmp in
      (Ipv4.parse pkt ≡ ok pkt)
      × (Ipv4.checksum_valid pkt ≡ true)
      × (Ipv4.protocol pkt ≡ 1)
      × (Ipv4.src pkt ≡ s)
      × (Ipv4.dst pkt ≡ d)
      × (Ipv4.payload pkt ≡ icmp)
reply_ip_lem s d q icmp hs hd l k b =
    let w =
      header_for-IsWritten s d 1 64 0 0 icmp hs hd (omega arith) (omega arith) (omega arith) b in
    let total : Header.total_of ((8 + q) % 65536) ≡ 20 + length icmp = omega arith in
    rw total (w.parsed, w.valid, w.proto_is, w.src_is, w.dst_is, w.payload_is)
