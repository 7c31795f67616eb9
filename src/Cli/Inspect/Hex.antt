-- ===== src/Cli/Inspect/Hex.antt =====
-- `parse_hex` reads back what was spelled, whatever stands between the digits.
use light_andromeda.Prelude.{
  ap, arith, refl, ◌==◌, ◌∙◌, ◌/◌, false, ◌%◌, some, [], true, All, ◌∷◌, length, ◌≡◌, ◌<◌, IsBytes,
  List, ◌++◌, ℕ, Bytes,
}
use light_andromeda.Core.Ethernet.Mac.{hex_digit, u8-hex_byte}
use light_andromeda.Core.Text.{Text}
use light_andromeda.Cli.Inspect.{is_hexdigit, hexdigits, read_pairs, parse_hex}

-- Characters that are no digits.
abbrev pub IsJunk : Text → Type 0
IsJunk = All (λ c. is_hexdigit c ≡ false)

-- Each byte as its two digits, behind some junk, and in between them.
abbrev pub spelled : List (Text × Text × ℕ) → Text
spelled [] = []
spelled ((before, between, b) ∷ rest) =
    before ++ (hex_digit (b / 16) ∷ (between ++ (hex_digit (b % 16) ∷ spelled rest)))

abbrev pub spelled_bytes : List (Text × Text × ℕ) → Bytes
spelled_bytes [] = []
spelled_bytes ((before, between, b) ∷ rest) = b ∷ spelled_bytes rest

abbrev pub IsSpelling : List (Text × Text × ℕ) → Type 0
IsSpelling = All (λ p. IsJunk p.0 × IsJunk p.1 × (p.2 < 256))

hexdigits-junk : (junk rest : Text) → IsJunk junk → hexdigits (junk ++ rest) ≡ hexdigits rest
hexdigits-junk [] rest j = refl
hexdigits-junk (c ∷ cs) rest (h, j) = rw h (hexdigits-junk cs rest j)

hex_digit-is : (d : ℕ) → d < 16 → is_hexdigit (hex_digit d) ≡ true
unfolding hex_digit is_hexdigit
hex_digit-is d h = ground arith

hexdigits-digit :
    (d : ℕ) (rest : Text) → d < 16 → hexdigits (hex_digit d ∷ rest) ≡ hex_digit d ∷ hexdigits rest
hexdigits-digit d rest h = rw (hex_digit-is d h) refl

-- The digits alone.
abbrev digits : Bytes → Text
digits [] = []
digits (b ∷ bs) = hex_digit (b / 16) ∷ hex_digit (b % 16) ∷ digits bs

hexdigits-spelled :
    (ps : List (Text × Text × ℕ))
    → IsSpelling ps
    → hexdigits (spelled ps) ≡ digits (spelled_bytes ps)
hexdigits-spelled [] h = refl
hexdigits-spelled ((before, between, b) ∷ rest) ((jb, jm, lt), h) =
    let hi = hex_digit (b / 16) in
    let lo = hex_digit (b % 16) in
    let tail = hi ∷ (between ++ (lo ∷ spelled rest)) in
    hexdigits-junk before tail jb
    ∙ hexdigits-digit (b / 16) (between ++ (lo ∷ spelled rest)) (omega arith)
    ∙ ap (λ t. hi ∷ t)
        (hexdigits-junk between (lo ∷ spelled rest) jm
          ∙ hexdigits-digit (b % 16) (spelled rest) (omega arith))
    ∙ ap (λ t. hi ∷ lo ∷ t) (hexdigits-spelled rest h)

read_pairs-digits : (bs : Bytes) → IsBytes bs → read_pairs (digits bs) ≡ some bs
unfolding read_pairs
read_pairs-digits [] h = refl
read_pairs-digits (b ∷ bs) (lt, h) = rw (read_pairs, u8-hex_byte b lt, read_pairs-digits bs h) refl

length-digits : (bs : Bytes) → length (digits bs) % 2 ≡ 0
length-digits [] = refl
length-digits (b ∷ bs) = omega (arith, length-digits bs)

IsBytes-spelled : (ps : List (Text × Text × ℕ)) → IsSpelling ps → IsBytes (spelled_bytes ps)
IsBytes-spelled [] h = tt
IsBytes-spelled (p ∷ rest) ((jb, jm, lt), h) = (lt, IsBytes-spelled rest h)

-- A text that spells at least one byte, each as its two hexadecimal digits, is read as these bytes, whatever other
-- characters stand before the digits and between them.
pub parse_hex-spelled :
    (p : Text × Text × ℕ) (ps : List (Text × Text × ℕ))
    → IsSpelling (p ∷ ps)
    → parse_hex (spelled (p ∷ ps)) ≡ some (spelled_bytes (p ∷ ps))
unfolding parse_hex
parse_hex-spelled p ps h =
    let bs = spelled_bytes (p ∷ ps) in
    let same = hexdigits-spelled (p ∷ ps) h in
    let even : (length (digits bs) % 2 == 0) ≡ true = ground (arith, length-digits bs) in
    rw (parse_hex, same, even) (read_pairs-digits bs (IsBytes-spelled (p ∷ ps) h))
