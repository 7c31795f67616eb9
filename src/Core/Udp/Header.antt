-- ===== src/Core/Udp/Header.antt =====
-- The 8 bytes that `write_header` writes.
use light_andromeda.Prelude.{refl, arith, ◌%◌, ◌≡◌, ◌++◌, to_be16, length, ◌+◌, ℕ, Bytes, [], ◌∷◌}
use light_andromeda.Core.Udp.{write_header}

-- The header with a given length and checksum.
abbrev pub udp_header : (sport dport len c : ℕ) → Bytes
udp_header sport dport len c = to_be16 sport ++ to_be16 dport ++ to_be16 len ++ to_be16 c

abbrev pub udp_len : ℕ → ℕ
udp_len payload_len = (8 + payload_len) % 65536

-- All 8 bytes are written, whatever the buffer held; the checksum is 0.
pub write_header-eq :
    (h : Bytes) (sport dport len : ℕ)
    → length h ≡ 8
    → write_header h sport dport len ≡ (udp_header sport dport (udp_len len) 0, 8)
unfolding write_header
write_header-eq (x0 ∷ x1 ∷ x2 ∷ x3 ∷ x4 ∷ x5 ∷ x6 ∷ x7 ∷ []) sport dport len e = refl
write_header-eq h sport dport len e = absurd (omega arith)
