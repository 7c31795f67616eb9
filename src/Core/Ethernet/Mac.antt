-- ===== src/Core/Ethernet/Mac.antt =====
-- crates/andromeda-core/src/ethernet.rs: the text of a MAC address, `FromStr` and `Display`.
use light_andromeda.Prelude.{
  append_assoc, length-append, append-nil, sym, ◌≤◌, ap, leb, ◌∙◌, ◌*◌, ◌-◌, none, ◌+◌, ◌||◌, arith,
  ◌%◌, false, ltb, length, ◌++◌, some, ◌==◌, [], Bool, ◌<◌, ◌∷◌, ◌/◌, if◌then◌else◌, Bytes, ℕ, List,
  Option, IsBytes, ◌≡◌, refl,
}
use light_andromeda.Core.Text.{Text, split, u8_from_str_radix, read_digits, to_digit}
use light_andromeda.Core.Ethernet.{MacAddr, mac_bytes, mac_at}

-- A colon or a dash.
abbrev pub is_separator : ℕ → Bool
is_separator c = c == b':' || c == b'-'

-- The loop of `from_str`: `octets[..n]` is what is read so far.
unfoldable pub read_parts : List Text → Bytes → Option Bytes
read_parts [] octets = if length octets == 6 then some octets else none
read_parts (part ∷ parts) octets = elim (u8_from_str_radix part 16) [
  | none ↦ none
  | some b ↦
      let rest = read_parts parts (octets ++ b ∷ []) in if length octets == 6 then none else rest
]

unfoldable pub from_str : Text → Option MacAddr
from_str s = elim (read_parts (split is_separator s) []) [
  | none ↦ none
  | some octets ↦ some (mac_at octets 0)
]

-- A digit of `{:x}`.
unfoldable pub hex_digit : ℕ → ℕ
hex_digit d = if ltb d 10 then b'0' + d else b'a' + (d - 10)

-- `{:02x}` of a byte.
abbrev pub hex_byte : ℕ → Text
hex_byte b = hex_digit (b / 16) ∷ hex_digit (b % 16) ∷ []

-- `{:02x}:{:02x}:...`
abbrev pub join : Bytes → Text
join [] = []
join (b ∷ []) = hex_byte b
join (b ∷ c ∷ bs) = hex_byte b ++ b':' ∷ join (c ∷ bs)

unfoldable pub fmt : MacAddr → Text
fmt m = join (mac_bytes m)

hex_digit-to_digit : (d : ℕ) → d < 16 → to_digit 16 (hex_digit d) ≡ some d
unfolding hex_digit to_digit
hex_digit-to_digit d h = ground arith

hex_digit-plain : (d : ℕ) → d < 16 → is_separator (hex_digit d) ≡ false
unfolding hex_digit
hex_digit-plain d h = ground arith

hex_digit-unsigned : (d : ℕ) → d < 16 → (hex_digit d == b'+') ≡ false
unfolding hex_digit
hex_digit-unsigned d h = ground arith

read_digits-step :
    (acc c d : ℕ) (cs : Text)
    → to_digit 16 c ≡ some d
    → acc * 16 + d < 256
    → read_digits 16 acc (c ∷ cs) ≡ read_digits 16 (acc * 16 + d) cs
unfolding read_digits
read_digits-step acc c d cs e h =
    let fits : leb 256 (acc * 16 + d) ≡ false = ground arith in rw (e, read_digits, fits) refl

read_digits-end : (b : ℕ) → read_digits 16 ((0 * 16 + b / 16) * 16 + b % 16) [] ≡ some b
unfolding read_digits
read_digits-end b = ap some (omega arith)

-- A byte is read back.
pub u8-hex_byte : (b : ℕ) → b < 256 → u8_from_str_radix (hex_byte b) 16 ≡ some b
unfolding u8_from_str_radix
u8-hex_byte b h =
    let hi : b / 16 < 16 = omega arith in
    let lo : b % 16 < 16 = omega arith in
    let low = hex_digit (b % 16) ∷ [] in
    rw (hex_digit-unsigned (b / 16) hi) (
      read_digits-step 0 (hex_digit (b / 16)) (b / 16) low (hex_digit-to_digit _ hi) (omega arith)
      ∙ read_digits-step (0 * 16 + b / 16) (hex_digit (b % 16)) (b % 16) []
          (hex_digit-to_digit _ lo) (omega arith)
      ∙ read_digits-end b)

read_parts-step :
    (b : ℕ) (parts : List Text) (octets : Bytes)
    → b < 256
    → length octets < 6
    → read_parts (hex_byte b ∷ parts) octets ≡ read_parts parts (octets ++ b ∷ [])
unfolding read_parts
read_parts-step b parts octets h l =
    let room : (length octets == 6) ≡ false = ground arith in
    rw (u8-hex_byte b h, read_parts, room) refl

split-last : (b : ℕ) → b < 256 → split is_separator (hex_byte b) ≡ hex_byte b ∷ []
unfolding split
split-last b h =
    rw (hex_digit-plain (b / 16) (omega arith), hex_digit-plain (b % 16) (omega arith)) refl

split-more :
    (b : ℕ) (rest : Text)
    → b < 256
    → split is_separator (hex_byte b ++ b':' ∷ rest) ≡ hex_byte b ∷ split is_separator rest
unfolding split
split-more b rest h =
    rw (hex_digit-plain (b / 16) (omega arith), hex_digit-plain (b % 16) (omega arith)) refl

abbrev hex_bytes : Bytes → List Text
hex_bytes [] = []
hex_bytes (b ∷ bs) = hex_byte b ∷ hex_bytes bs

split-join :
    (b : ℕ) (bs : Bytes)
    → IsBytes (b ∷ bs)
    → split is_separator (join (b ∷ bs)) ≡ hex_bytes (b ∷ bs)
split-join b [] (h, u) = split-last b h
split-join b (c ∷ bs) (h, hs) =
    split-more b (join (c ∷ bs)) h ∙ ap (λ ps. hex_byte b ∷ ps) (split-join c bs hs)

read_parts-hex_bytes :
    (bs octets : Bytes)
    → IsBytes bs
    → length octets + length bs ≤ 6
    → read_parts (hex_bytes bs) octets ≡ read_parts [] (octets ++ bs)
read_parts-hex_bytes [] octets h l = ap (read_parts []) (sym (append-nil octets))
read_parts-hex_bytes (b ∷ bs) octets (h, hs) l =
    let shorter : length (octets ++ b ∷ []) + length bs ≤ 6 =
      omega (arith, length-append octets (b ∷ []), l) in
    read_parts-step b (hex_bytes bs) octets h (omega (arith, l))
    ∙ read_parts-hex_bytes bs (octets ++ b ∷ []) hs shorter
    ∙ ap (read_parts []) (append_assoc octets (b ∷ []) bs)

-- The text of a MAC address, as `Display` prints it, is read back as that address.
pub from_str-fmt : (m : MacAddr) → IsBytes (mac_bytes m) → from_str (fmt m) ≡ some m
unfolding from_str fmt read_parts mac_at
from_str-fmt m h =
    let cut : split is_separator (fmt m) ≡ hex_bytes (mac_bytes m) =
      split-join m.b0 (m.b1 ∷ m.b2 ∷ m.b3 ∷ m.b4 ∷ m.b5 ∷ []) h in
    let read : read_parts (split is_separator (fmt m)) [] ≡ some (mac_bytes m) =
      ap (λ ps. read_parts ps []) cut ∙ read_parts-hex_bytes (mac_bytes m) [] h (omega arith) in
    rw (read, from_str) refl
