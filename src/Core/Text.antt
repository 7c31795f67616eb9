-- ===== src/Core/Text.antt =====
-- Text as its code points, and what the crates use of `str`: splitting, trimming and the reading of
-- numbers and addresses, as the standard library documents them.
use light_andromeda.Prelude.{
  byte_at, ltb, not, ipv4, ◌+◌, ◌-◌, ◌||◌, ◌*◌, ◌&&◌, false, length, ◌==◌, Bytes, Ipv4Addr, none,
  true, leb, some, if◌then◌else◌, List, Bool, [], Option, ℕ, ◌∷◌,
}
use Prim.Native.Char.{code}
use Prim.Native.String.{String}

-- A `&str`.
abbrev pub Text : Type 0
Text = List ℕ

-- A literal.
abbrev pub text : String → Text
text (String.◌∷◌ first rest) = code first ∷ text rest
text String.[] = []

abbrev pub is_empty : Text → Bool
is_empty [] = true
is_empty (c ∷ cs) = false

-- The first piece goes on to the left.
abbrev pub push_front : ℕ → List Text → List Text
push_front c [] = (c ∷ []) ∷ []
push_front c (p ∷ ps) = (c ∷ p) ∷ ps

-- `str::split` by a test on characters.
unfoldable pub split : (ℕ → Bool) → Text → List Text
split sep [] = [] ∷ []
split sep (c ∷ cs) = let rest = split sep cs in if sep c then [] ∷ rest else push_front c rest

abbrev pub cons_left : ℕ → Option (Text × Text) → Option (Text × Text)
cons_left c none = none
cons_left c (some (l, r)) = some (c ∷ l, r)

-- `str::split_once` by a test on characters.
unfoldable pub split_once : (ℕ → Bool) → Text → Option (Text × Text)
split_once sep [] = none
split_once sep (c ∷ cs) =
    let rest = split_once sep cs in if sep c then some ([], cs) else cons_left c rest

-- `char::is_whitespace`: the property White_Space of Unicode.
unfoldable pub is_whitespace : ℕ → Bool
is_whitespace c =
    leb 9 c && leb c 13
    || c == 0x20
    || c == 0x85
    || c == 0xa0
    || c == 0x1680
    || leb 0x2000 c && leb c 0x200a
    || c == 0x2028
    || c == 0x2029
    || c == 0x202f
    || c == 0x205f
    || c == 0x3000

unfoldable pub trim_start : Text → Text
trim_start [] = []
trim_start (c ∷ cs) = let rest = trim_start cs in if is_whitespace c then rest else c ∷ cs

unfoldable pub trim_end : Text → Text
trim_end [] = []
trim_end (c ∷ cs) =
    let rest = trim_end cs in if is_whitespace c && is_empty rest then [] else c ∷ rest

unfoldable pub trim : Text → Text
trim s = trim_end (trim_start s)

-- `char::to_digit`
unfoldable pub to_digit : (radix c : ℕ) → Option ℕ
to_digit radix c =
    let d =
      if leb b'0' c && leb c b'9'
      then c - b'0'
      else if leb b'a' c && leb c b'z'
      then c - b'a' + 10
      else if leb b'A' c && leb c b'Z'
      then c - b'A' + 10
      else radix in
    if ltb d radix then some d else none

-- The digits onto `acc`, as a `u8`: the step that overflows fails.
unfoldable pub read_digits : (radix acc : ℕ) → Text → Option ℕ
read_digits radix acc [] = some acc
read_digits radix acc (c ∷ cs) = elim (to_digit radix c) [
  | none ↦ none
  | some d ↦
      let rest = read_digits radix (acc * radix + d) cs in
      if leb 256 (acc * radix + d) then none else rest
]

-- `u8::from_str_radix`: a sign `+` may precede the digits, of which there is one at least.
unfoldable pub u8_from_str_radix : Text → (radix : ℕ) → Option ℕ
u8_from_str_radix [] radix = none
u8_from_str_radix (c ∷ cs) radix =
    if c == b'+'
    then if is_empty cs then none else read_digits radix 0 cs
    else read_digits radix 0 (c ∷ cs)

-- An octet of `Ipv4Addr::from_str`: up to three decimal digits without a leading zero.
unfoldable pub read_octet : Text → Option ℕ
read_octet [] = none
read_octet (c ∷ cs) =
    if leb 3 (length cs) || c == b'0' && not (is_empty cs) then none else read_digits 10 0 (c ∷ cs)

unfoldable pub read_octets : List Text → Option Bytes
read_octets [] = some []
read_octets (p ∷ ps) = elim (read_octet p) [
  | none ↦ none
  | some b ↦ elim (read_octets ps) [ none ↦ none | some bs ↦ some (b ∷ bs) ]
]

-- `Ipv4Addr::from_str`: four octets with dots between them.
unfoldable pub ipv4_from_str : Text → Option Ipv4Addr
ipv4_from_str s =
    let parts = split (λ c. c == b'.') s in
    elim (read_octets parts) [
      | none ↦ none
      | some bs ↦
          if length parts == 4
          then some (ipv4 (byte_at bs 0) (byte_at bs 1) (byte_at bs 2) (byte_at bs 3))
          else none
    ]

-- The decimal digits onto `acc`, as an unsigned integer below `limit`.
unfoldable pub read_decimal : (limit acc : ℕ) → Text → Option ℕ
read_decimal limit acc [] = some acc
read_decimal limit acc (c ∷ cs) = elim (to_digit 10 c) [
  | none ↦ none
  | some d ↦
      let rest = read_decimal limit (acc * 10 + d) cs in
      if leb limit (acc * 10 + d) then none else rest
]

-- `u32::from_str` and `u64::from_str`.
unfoldable pub uint_from_str : (limit : ℕ) → Text → Option ℕ
uint_from_str limit [] = none
uint_from_str limit (c ∷ cs) =
    if c == b'+'
    then if is_empty cs then none else read_decimal limit 0 cs
    else read_decimal limit 0 (c ∷ cs)

-- `==` on `str`.
abbrev pub text_eq : Text → Text → Bool
text_eq [] [] = true
text_eq [] (c ∷ cs) = false
text_eq (c ∷ cs) [] = false
text_eq (c ∷ cs) (d ∷ ds) = c == d && text_eq cs ds

-- `s.starts_with(prefix)`
abbrev pub starts_with : (prefix s : Text) → Bool
starts_with [] s = true
starts_with (c ∷ cs) [] = false
starts_with (c ∷ cs) (d ∷ ds) = c == d && starts_with cs ds
