-- ===== src/Core/ArpTests.antt =====
-- A request on which the theorem of the ARP proxy is applied.
use light_andromeda.Core.Arp.{
  parse, write_reply, oper, oper_reply, sender_mac, sender_ip, target_ip,
}
use light_andromeda.Core.Arp.Reply.{write_reply-answers}
use light_andromeda.Core.Errors.{ok}
use light_andromeda.Core.Ethernet
use light_andromeda.Core.Ethernet.{MacAddr}
use light_andromeda.Prelude.{Bytes, ◌∷◌, [], ◌≡◌, refl, arith, replicate}

-- 10.0.0.1 asks for 10.0.0.2.
abbrev request : Bytes
request =
    0 ∷ 1 ∷ 8 ∷ 0 ∷ 6 ∷ 4 ∷ 0 ∷ 1 ∷ 2 ∷ 0 ∷ 0 ∷ 0 ∷ 0 ∷ 9 ∷ 10 ∷ 0 ∷ 0 ∷ 1 ∷ 0 ∷ 0 ∷ 0 ∷ 0 ∷ 0 ∷ 0
    ∷ 10 ∷ 0 ∷ 0 ∷ 2 ∷ []

abbrev gateway : MacAddr
gateway = record { b0 = 2; b1 = 0; b2 = 0; b3 = 0; b4 = 0; b5 = 254 }

write_reply-answers_example :
    let (out', n) = write_reply (replicate 60 255) request gateway in
    let p = Ethernet.payload out' in
    (n ≡ ok 42)
    × (Ethernet.dst out' ≡ sender_mac request)
    × (Ethernet.src out' ≡ gateway)
    × (Ethernet.ethertype out' ≡ Ethernet.ethertype_arp)
    × (parse p ≡ ok p)
    × (oper p ≡ oper_reply)
    × (sender_mac p ≡ gateway)
    × (sender_ip p ≡ target_ip request)
    × (target_ip p ≡ sender_ip request)
unfolding parse
write_reply-answers_example =
    write_reply-answers (replicate 60 255) request gateway (omega arith) (omega arith) refl
