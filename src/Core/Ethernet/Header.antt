-- ===== src/Core/Ethernet/Header.antt =====
-- The 14 bytes that `write_header` writes, and what the view reads of them.
use light_andromeda.Prelude.{◌∷◌, [], refl, arith, ◌≡◌, to_be16, length, ◌<◌, ◌++◌, ℕ, Bytes}
use light_andromeda.Core.Ethernet.{
  MacAddr, mac_bytes, write_header, parse, dst, src, ethertype, payload,
}
use light_andromeda.Core.Errors.{ok}

abbrev pub eth_header : MacAddr → MacAddr → ℕ → Bytes
eth_header dst src ty = mac_bytes dst ++ mac_bytes src ++ to_be16 ty

-- All 14 bytes are written, whatever the buffer held.
pub write_header-eq :
    (h : Bytes) (d s : MacAddr) (ty : ℕ)
    → length h ≡ 14
    → write_header h d s ty ≡ (eth_header d s ty, 14)
unfolding write_header
write_header-eq (x0 ∷ x1 ∷ x2 ∷ x3 ∷ x4 ∷ x5 ∷ x6 ∷ x7 ∷ x8 ∷ x9 ∷ x10 ∷ x11 ∷ x12 ∷ x13 ∷ []) d s
      ty e =
    refl
write_header-eq h d s ty e = absurd (omega arith)

-- What was written is read back, and the payload is what follows.
pub parse-write_header :
    (d s : MacAddr) (ty : ℕ) (rest : Bytes)
    → ty < 65536
    → let frame = eth_header d s ty ++ rest in
      (parse frame ≡ ok frame)
      × (dst frame ≡ d)
      × (src frame ≡ s)
      × (ethertype frame ≡ ty)
      × (payload frame ≡ rest)
unfolding parse dst src ethertype payload
parse-write_header d s ty rest h = (ground arith, refl, refl, omega arith, refl)
