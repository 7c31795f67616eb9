-- ===== src/Prelude/Words.antt =====
-- Bytes and big-endian words: `u16::from_be_bytes`, `u16::to_be_bytes` and their 32-bit kin.
use Prim.Native.Nat.{ℕ, zero, suc, ◌+◌, ◌-◌, ◌*◌, ◌/◌, ◌%◌, ◌<◌}
use mathlib.Core.Path.{◌≡◌}
use mathlib.Core.List.{List, [], ◌∷◌, ◌++◌}
use native.Mathlib.Omega.{arith}
use light_andromeda.Prelude.Lists.{All, get_or, take, drop}

abbrev pub Bytes : Type 0
Bytes = List ℕ

-- Every element is a `u8`.
abbrev pub IsBytes : Bytes → Type 0
IsBytes = All (λ b. b < 256)

-- `buf[i]`. The source panics past the end; the lengths that `parse` checks rule that out.
abbrev pub byte_at : Bytes → ℕ → ℕ
byte_at buf i = get_or buf i 0

-- `&buf[a..b]`.
abbrev pub slice : Bytes → ℕ → ℕ → Bytes
slice buf a b = take (b - a) (drop a buf)

-- `u16::from_be_bytes([hi, lo])`.
abbrev pub be16 : ℕ → ℕ → ℕ
be16 hi lo = hi * 256 + lo

-- `w.to_be_bytes()` for a `u16`.
abbrev pub to_be16 : ℕ → Bytes
to_be16 w = w / 256 % 256 ∷ w % 256 ∷ []

-- `u16::from_be_bytes([buf[i], buf[i + 1]])`.
abbrev pub be16_at : Bytes → ℕ → ℕ
be16_at buf i = be16 (byte_at buf i) (byte_at buf (suc i))

-- An `Ipv4Addr` is its `u32`; `Ipv4Addr::new(a, b, c, d)` and `octets()`.
abbrev pub Ipv4Addr : Type 0
Ipv4Addr = ℕ

abbrev pub ipv4 : ℕ → ℕ → ℕ → ℕ → Ipv4Addr
ipv4 a b c d = a * 16777216 + b * 65536 + c * 256 + d

abbrev pub octets : Ipv4Addr → Bytes
octets ip = ip / 16777216 % 256 ∷ ip / 65536 % 256 ∷ ip / 256 % 256 ∷ ip % 256 ∷ []

pub byte_at-lt : (buf : Bytes) (i : ℕ) → IsBytes buf → byte_at buf i < 256
byte_at-lt [] i h = omega arith
byte_at-lt (b ∷ bs) zero h = h.0
byte_at-lt (b ∷ bs) (suc i) h = byte_at-lt bs i h.1

pub IsBytes-append : (xs ys : Bytes) → IsBytes xs → IsBytes ys → IsBytes (xs ++ ys)
IsBytes-append [] ys h k = k
IsBytes-append (x ∷ xs) ys h k = (h.0, IsBytes-append xs ys h.1 k)

pub IsBytes-drop : (n : ℕ) (xs : Bytes) → IsBytes xs → IsBytes (drop n xs)
IsBytes-drop zero xs h = h
IsBytes-drop (suc n) [] h = tt
IsBytes-drop (suc n) (x ∷ xs) h = IsBytes-drop n xs h.1

pub IsBytes-take : (n : ℕ) (xs : Bytes) → IsBytes xs → IsBytes (take n xs)
IsBytes-take zero xs h = tt
IsBytes-take (suc n) [] h = tt
IsBytes-take (suc n) (x ∷ xs) h = (h.0, IsBytes-take n xs h.1)

-- An address is given back by its octets.
pub ipv4-octets :
    (ip : Ipv4Addr)
    → ip < 4294967296
    → ipv4 (ip / 16777216 % 256) (ip / 65536 % 256) (ip / 256 % 256) (ip % 256) ≡ ip
ipv4-octets ip h = omega arith

-- Even offsets, by which 16-bit words are aligned.
abbrev pub IsEven : ℕ → Type 0
IsEven zero = Unit
IsEven (suc zero) = ⊥
IsEven (suc (suc n)) = IsEven n

-- `f(&mut buf[a..b])`: what `f` makes of the sub-slice, in its place.
abbrev pub update_slice : Bytes → ℕ → ℕ → (Bytes → Bytes) → Bytes
update_slice buf a b f = take a buf ++ f (slice buf a b) ++ drop b buf
