-- ===== src/Prelude/Shape.antt =====
-- Stores into a buffer: the length stays, and bytes stay bytes.
use Prim.Native.Nat.{ℕ, ◌-◌, ◌≤◌}
use mathlib.Core.Path.{◌≡◌, refl, ap, ◌∙◌}
use mathlib.Core.List.{◌++◌, append-nil}
use native.Mathlib.Omega.{arith}
use light_andromeda.Prelude.Lists.{
  length, take, drop, write_at, length-write_at, length-append, take-append-drop, take-over,
  drop-over, length-drop, length-take,
}
use light_andromeda.Prelude.Words.{
  Bytes, IsBytes, IsBytes-append, IsBytes-take, IsBytes-drop, to_be16, octets, slice, update_slice,
}
use light_andromeda.Prelude.Writes.{IsBytes-write_at, IsBytes-to_be16, IsBytes-octets}

-- `ys` is what some stores of bytes make of `xs`.
pub record Stored (xs ys : Bytes) : Type 0 where
  pub len : length ys ≡ length xs
  pub bytes : IsBytes xs → IsBytes ys

pub Stored-refl : (xs : Bytes) → Stored xs xs
Stored-refl xs = record { len = refl; bytes = λ h. h }

pub Stored-trans : (xs ys zs : Bytes) → Stored xs ys → Stored ys zs → Stored xs zs
Stored-trans xs ys zs p q = record { len = q.len ∙ p.len; bytes = λ h. q.bytes (p.bytes h) }

pub Stored-write_at :
    (xs : Bytes) (i : ℕ) (src : Bytes) → IsBytes src → Stored xs (write_at xs i src)
Stored-write_at xs i src h = record {
  len = length-write_at xs i src;
  bytes = λ b. IsBytes-write_at xs i src h b;
}

pub Stored-to_be16 : (xs : Bytes) (i w : ℕ) → Stored xs (write_at xs i (to_be16 w))
Stored-to_be16 xs i w = Stored-write_at xs i (to_be16 w) (IsBytes-to_be16 w)

pub Stored-octets : (xs : Bytes) (i ip : ℕ) → Stored xs (write_at xs i (octets ip))
Stored-octets xs i ip = Stored-write_at xs i (octets ip) (IsBytes-octets ip)

-- Stores into what lies behind a place.
pub Stored-behind : (n : ℕ) (xs ys : Bytes) → Stored (drop n xs) ys → Stored xs (take n xs ++ ys)
Stored-behind n xs ys p = record {
  len = omega (
    arith,
    length-append (take n xs) ys,
    length-append (take n xs) (drop n xs),
    ap length (take-append-drop n xs),
    p.len,
  );
  bytes = λ h. IsBytes-append (take n xs) ys (IsBytes-take n xs h) (p.bytes (IsBytes-drop n xs h));
}

pub slice-end : (xs : Bytes) (a b : ℕ) → length xs ≡ b → slice xs a b ≡ drop a xs
slice-end xs a b h = take-over (b - a) (drop a xs) (omega (arith, length-drop a xs))

pub update_slice-end :
    (xs : Bytes) (a b : ℕ) (f : Bytes → Bytes)
    → length xs ≡ b
    → update_slice xs a b f ≡ take a xs ++ f (drop a xs)
update_slice-end xs a b f h =
    rw (slice-end xs a b h, drop-over b xs (omega arith)) (append-nil (take a xs ++ f (drop a xs)))

pub length-slice : (xs : Bytes) (a b : ℕ) → a ≤ b → b ≤ length xs → length (slice xs a b) ≡ b - a
length-slice xs a b h k = length-take (b - a) (drop a xs) (omega (arith, length-drop a xs))
