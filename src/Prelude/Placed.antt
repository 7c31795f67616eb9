-- ===== src/Prelude/Placed.antt =====
-- A part of a buffer that was written whole.
use Prim.Native.Nat.{ℕ, zero, suc, ◌+◌, ◌-◌, ◌≤◌, ◌<◌}
use mathlib.Core.Path.{◌≡◌, refl, ap, ◌∙◌}
use mathlib.Core.List.{[], ◌∷◌, ◌++◌, append_assoc}
use native.Mathlib.Omega.{arith}
use light_andromeda.Prelude.Lists.{
  length, take, drop, write_at, length-append, length-take, length-drop, drop-write_at,
  copy_over_lem,
}
use light_andromeda.Prelude.Words.{Bytes, byte_at, slice, update_slice}
use light_andromeda.Prelude.Writes.{take-append, drop-add}

-- What stands around it stays.
pub write_at-parts :
    (xs : Bytes) (i : ℕ) (src : Bytes)
    → i + length src ≤ length xs
    → write_at xs i src ≡ take i xs ++ (src ++ drop (i + length src) xs)
write_at-parts xs zero src h =
    let e : zero + length src ≡ length src = omega arith in
    rw e (copy_over_lem src xs (omega arith))
write_at-parts [] (suc i) src h = absurd (omega arith)
write_at-parts (x ∷ xs) (suc i) src h =
    let e : suc i + length src ≡ suc (i + length src) = omega arith in
    rw e (ap (◌∷◌ x) (write_at-parts xs i src (omega arith)))

take-append_lt : (xs ys : Bytes) (n : ℕ) → n ≤ length xs → take n (xs ++ ys) ≡ take n xs
take-append_lt xs ys zero h = refl
take-append_lt [] ys (suc n) h = absurd (omega arith)
take-append_lt (x ∷ xs) ys (suc n) h = ap (◌∷◌ x) (take-append_lt xs ys n (omega arith))

drop-append_lt : (xs ys : Bytes) (n : ℕ) → n ≤ length xs → drop n (xs ++ ys) ≡ drop n xs ++ ys
drop-append_lt xs ys zero h = refl
drop-append_lt [] ys (suc n) h = absurd (omega arith)
drop-append_lt (x ∷ xs) ys (suc n) h = drop-append_lt xs ys n (omega arith)

take-add : (xs ys : Bytes) (n k : ℕ) → length xs ≡ n → take (n + k) (xs ++ ys) ≡ xs ++ take k ys
take-add [] ys n k h = let e : n + k ≡ k = omega arith in rw e refl
take-add (x ∷ xs) ys zero k h = absurd (omega arith)
take-add (x ∷ xs) ys (suc n) k h =
    let e : suc n + k ≡ suc (n + k) = omega arith in
    rw e (ap (◌∷◌ x) (take-add xs ys n k (omega arith)))

-- A store behind the first `k` bytes.
pub take-store : (k i : ℕ) (xs src : Bytes) → k ≤ i → take k (write_at xs i src) ≡ take k xs
take-store zero i xs src h = refl
take-store (suc k) zero xs src h = absurd (omega (arith, h))
take-store (suc k) (suc i) [] src h = refl
take-store (suc k) (suc i) (x ∷ xs) src h = ap (◌∷◌ x) (take-store k i xs src (omega (arith, h)))

pub take-join :
    (k n : ℕ) (xs ys : Bytes) → k ≤ n → n ≤ length xs → take k (take n xs ++ ys) ≡ take k xs
take-join zero n xs ys h l = refl
take-join (suc k) zero xs ys h l = absurd (omega (arith, h))
take-join (suc k) (suc n) [] ys h l = absurd (omega (arith, l))
take-join (suc k) (suc n) (x ∷ xs) ys h l =
    ap (◌∷◌ x) (take-join k n xs ys (omega (arith, h)) (omega (arith, l)))

pub byte_at-take : (j k : ℕ) (xs : Bytes) → j < k → byte_at (take k xs) j ≡ byte_at xs j
byte_at-take j zero xs h = absurd (omega (arith, h))
byte_at-take j (suc k) [] h = refl
byte_at-take zero (suc k) (x ∷ xs) h = refl
byte_at-take (suc j) (suc k) (x ∷ xs) h = byte_at-take j k xs (omega (arith, h))

-- A part of a buffer in front of a store.
pub part-store :
    (a k i : ℕ) (xs src : Bytes)
    → a + k ≤ i
    → take k (drop a (write_at xs i src)) ≡ take k (drop a xs)
part-store zero k i xs src h = take-store k i xs src (omega (arith, h))
part-store (suc a) k zero xs src h = absurd (omega (arith, h))
part-store (suc a) k (suc i) [] src h = refl
part-store (suc a) k (suc i) (x ∷ xs) src h = part-store a k i xs src (omega (arith, h))

module _ (out : Bytes) (i k : ℕ) (src : Bytes) (room : i + length src ≤ length out)
    (h : k ≤ length src) where
  abbrev pre : Bytes
  pre = take i out

  abbrev post : Bytes
  post = drop (i + length src) out

  length-pre : length pre ≡ i
  length-pre = length-take i out (omega arith)

  drop-placed : drop (i + k) (write_at out i src) ≡ drop k src ++ post
  drop-placed =
      ap (drop (i + k)) (write_at-parts out i src room)
      ∙ drop-add pre (src ++ post) i k length-pre
      ∙ drop-append_lt src post k h

  pub slice-write_at : slice (write_at out i src) (i + k) (i + length src) ≡ drop k src
  slice-write_at =
      let n = i + length src - (i + k) in
      ap (take n) drop-placed ∙ take-append (drop k src) post n (omega (arith, length-drop k src))

  take-placed : take (i + k) (write_at out i src) ≡ pre ++ take k src
  take-placed =
      ap (take (i + k)) (write_at-parts out i src room)
      ∙ take-add pre (src ++ post) i k length-pre
      ∙ ap (λ zs. pre ++ zs) (take-append_lt src post k h)

  pub update_slice-write_at :
      (f : Bytes → Bytes)
      → length (f (drop k src)) ≡ length (drop k src)
      → update_slice (write_at out i src) (i + k) (i + length src) f
        ≡ write_at out i (take k src ++ f (drop k src))
  update_slice-write_at f same =
      let part = f (drop k src) in
      let whole = take k src ++ part in
      let len : length whole ≡ length src =
        omega
          (arith, length-append (take k src) part, same, length-drop k src, length-take k src h) in
      let tail : drop (i + length src) (write_at out i src) ≡ post =
        drop-write_at out i src (i + length src) (omega arith) in
      let made : write_at out i whole ≡ pre ++ (whole ++ drop (i + length whole) out) =
        write_at-parts out i whole (omega (arith, len)) in
      rw (slice-write_at, take-placed, tail, made, len) (simp append_assoc)
