-- ===== src/Core/Ipv4/Header.antt =====
-- The 20 bytes that `write_header` writes: a sound packet begins with them.
use light_andromeda.Prelude.{
  ◌∷◌, [], octets, refl, ◌++◌, arith, ◌%◌, ◌≡◌, to_be16, length, if◌then◌else◌, ◌+◌, Bool, Ipv4Addr,
  ℕ, Bytes,
}
use light_andromeda.Core.Checksum.{checksum}
use light_andromeda.Core.Ipv4.{write_fields, write_header, src, dst}

-- The header with a given checksum.
abbrev pub ipv4_header : Ipv4Addr → Ipv4Addr → (proto ttl id flags total c : ℕ) → Bytes
ipv4_header src dst proto ttl id flags total c =
    0x45 ∷ 0x00 ∷ to_be16 total
    ++ to_be16 id
    ++ to_be16 flags
    ++ ttl ∷ proto ∷ to_be16 c
    ++ octets src
    ++ octets dst

abbrev pub flags_of : Bool → ℕ
flags_of dont_fragment = if dont_fragment then 0x4000 else 0

abbrev pub total_of : ℕ → ℕ
total_of payload_len = (20 + payload_len) % 65536

write_fields-eq :
    (h : Bytes) (s d : Ipv4Addr) (proto ttl id : ℕ) (df : Bool) (len : ℕ)
    → length h ≡ 20
    → write_fields h s d proto ttl id df len
      ≡ ipv4_header s d proto ttl id (flags_of df) (total_of len) 0
unfolding write_fields
write_fields-eq
      (x0 ∷ x1 ∷ x2 ∷ x3 ∷ x4 ∷ x5 ∷ x6 ∷ x7 ∷ x8 ∷ x9 ∷ x10 ∷ x11 ∷ x12 ∷ x13 ∷ x14 ∷ x15 ∷ x16
        ∷ x17 ∷ x18 ∷ x19 ∷ [])
      s d proto ttl id df len e =
    refl
write_fields-eq h s d proto ttl id df len e = absurd (omega arith)

-- The checksum that `write_header` computes over the header with none.
abbrev pub header_checksum_of : Ipv4Addr → Ipv4Addr → (proto ttl id flags total : ℕ) → ℕ
header_checksum_of s d proto ttl id flags total =
    checksum (ipv4_header s d proto ttl id flags total 0)

-- All 20 bytes are written, whatever the buffer held.
pub write_header-eq :
    (h : Bytes) (s d : Ipv4Addr) (proto ttl id : ℕ) (df : Bool) (len : ℕ)
    → length h ≡ 20
    → write_header h s d proto ttl id df len ≡ (
      ipv4_header s d proto ttl id
          (flags_of df)
          (total_of len)
          (header_checksum_of s d proto ttl id (flags_of df) (total_of len)),
      20,
    )
unfolding write_header
write_header-eq h s d proto ttl id df len e = rw (write_fields-eq h s d proto ttl id df len e) refl
