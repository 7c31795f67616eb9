-- ===== src/Prelude/Lists.antt =====
-- Slices of the source as lists with native indices: reads, sub-slices, and writes in place.
use Prim.Native.Nat.{ℕ, zero, suc, ◌+◌, ◌-◌, ◌≤◌, ◌<◌}
use mathlib.Core.Path.{◌≡◌, refl, ap}
use mathlib.Core.Logic.{◌≢◌}
use mathlib.Core.List.{List, [], ◌∷◌, ◌++◌}
use native.Mathlib.Omega.{arith}

-- A predicate on every element.
abbrev pub All {ℓ κ} : {A : Type ℓ} → (A → Type κ) → List A → Type κ
All P [] = Unit
All P (x ∷ xs) = P x × All P xs

module _ {ℓ} {A : Type ℓ} where
  abbrev pub length : List A → ℕ
  length [] = 0
  length (x ∷ xs) = suc (length xs)

  abbrev pub get_or : List A → ℕ → A → A
  get_or [] i d = d
  get_or (x ∷ xs) zero d = x
  get_or (x ∷ xs) (suc i) d = get_or xs i d

  abbrev pub set : List A → ℕ → A → List A
  set [] i v = []
  set (x ∷ xs) zero v = v ∷ xs
  set (x ∷ xs) (suc i) v = x ∷ set xs i v

  abbrev pub take : ℕ → List A → List A
  take zero xs = []
  take (suc n) [] = []
  take (suc n) (x ∷ xs) = x ∷ take n xs

  abbrev pub drop : ℕ → List A → List A
  drop zero xs = xs
  drop (suc n) [] = []
  drop (suc n) (x ∷ xs) = drop n xs

  -- `replicate n x` is `vec![x; n]`.
  abbrev pub replicate : ℕ → A → List A
  replicate zero x = []
  replicate (suc n) x = x ∷ replicate n x

  -- `dst.copy_from_slice(src)` for a `src` that is no longer than `dst`: the rest of `dst` stays.
  abbrev pub copy_over : List A → List A → List A
  copy_over [] ys = ys
  copy_over (b ∷ bs) [] = []
  copy_over (b ∷ bs) (y ∷ ys) = b ∷ copy_over bs ys

  -- `buf[off..off + src.len()].copy_from_slice(src)`.
  abbrev pub write_at : List A → ℕ → List A → List A
  write_at buf zero src = copy_over src buf
  write_at [] (suc i) src = []
  write_at (x ∷ xs) (suc i) src = x ∷ write_at xs i src

  pub length-append : (xs ys : List A) → length (xs ++ ys) ≡ length xs + length ys
  length-append [] ys = omega arith
  length-append (x ∷ xs) ys = omega (arith, length-append xs ys)

  pub length-set : (xs : List A) (i : ℕ) (v : A) → length (set xs i v) ≡ length xs
  length-set [] i v = refl
  length-set (x ∷ xs) zero v = refl
  length-set (x ∷ xs) (suc i) v = ap suc (length-set xs i v)

  pub get_or-set_self :
      (xs : List A) (i : ℕ) (v d : A) → i < length xs → get_or (set xs i v) i d ≡ v
  get_or-set_self [] i v d h = absurd (omega arith)
  get_or-set_self (x ∷ xs) zero v d h = refl
  get_or-set_self (x ∷ xs) (suc i) v d h = get_or-set_self xs i v d (omega arith)

  pub get_or-set_ne :
      (xs : List A) (i j : ℕ) (v d : A) → i ≢ j → get_or (set xs i v) j d ≡ get_or xs j d
  get_or-set_ne [] i j v d h = refl
  get_or-set_ne (x ∷ xs) zero zero v d h = absurd (h refl)
  get_or-set_ne (x ∷ xs) zero (suc j) v d h = refl
  get_or-set_ne (x ∷ xs) (suc i) zero v d h = refl
  get_or-set_ne (x ∷ xs) (suc i) (suc j) v d h = get_or-set_ne xs i j v d (λ e. h (ap suc e))

  pub length-take : (n : ℕ) (xs : List A) → n ≤ length xs → length (take n xs) ≡ n
  length-take zero xs h = refl
  length-take (suc n) [] h = absurd (omega arith)
  length-take (suc n) (x ∷ xs) h = ap suc (length-take n xs (omega arith))

  pub length-drop : (n : ℕ) (xs : List A) → length (drop n xs) ≡ length xs - n
  length-drop zero xs = omega arith
  length-drop (suc n) [] = omega arith
  length-drop (suc n) (x ∷ xs) = omega (arith, length-drop n xs)

  pub take-append-drop : (n : ℕ) (xs : List A) → take n xs ++ drop n xs ≡ xs
  take-append-drop zero xs = refl
  take-append-drop (suc n) [] = refl
  take-append-drop (suc n) (x ∷ xs) = ap (◌∷◌ x) (take-append-drop n xs)

  pub length-copy_over : (src xs : List A) → length (copy_over src xs) ≡ length xs
  length-copy_over [] xs = refl
  length-copy_over (b ∷ bs) [] = refl
  length-copy_over (b ∷ bs) (x ∷ xs) = ap suc (length-copy_over bs xs)

  pub length-write_at :
      (xs : List A) (i : ℕ) (src : List A) → length (write_at xs i src) ≡ length xs
  length-write_at xs zero src = length-copy_over src xs
  length-write_at [] (suc i) src = refl
  length-write_at (x ∷ xs) (suc i) src = ap suc (length-write_at xs i src)

  pub copy_over_lem :
      (src xs : List A) → length src ≤ length xs → copy_over src xs ≡ src ++ drop (length src) xs
  copy_over_lem [] xs h = refl
  copy_over_lem (b ∷ bs) [] h = absurd (omega arith)
  copy_over_lem (b ∷ bs) (x ∷ xs) h = ap (◌∷◌ b) (copy_over_lem bs xs (omega arith))

  -- A write at `i` does not touch what lies at or behind its end.
  pub drop-write_at :
      (xs : List A) (i : ℕ) (src : List A) (n : ℕ)
      → i + length src ≤ n
      → drop n (write_at xs i src) ≡ drop n xs
  drop-write_at xs zero [] n h = refl
  drop-write_at [] zero (b ∷ bs) n h = refl
  drop-write_at (x ∷ xs) zero (b ∷ bs) zero h = absurd (omega arith)
  drop-write_at (x ∷ xs) zero (b ∷ bs) (suc n) h = drop-write_at xs zero bs n (omega arith)
  drop-write_at [] (suc i) src n h = refl
  drop-write_at (x ∷ xs) (suc i) src zero h = absurd (omega arith)
  drop-write_at (x ∷ xs) (suc i) src (suc n) h = drop-write_at xs i src n (omega arith)

  -- A write that ends by `n` is a write into the first `n` elements.
  pub take-write_at :
      (xs : List A) (i : ℕ) (src : List A) (n : ℕ)
      → i + length src ≤ n
      → take n (write_at xs i src) ≡ write_at (take n xs) i src
  take-write_at xs zero [] n h = refl
  take-write_at [] zero (b ∷ bs) zero h = absurd (omega arith)
  take-write_at [] zero (b ∷ bs) (suc n) h = refl
  take-write_at (x ∷ xs) zero (b ∷ bs) zero h = absurd (omega arith)
  take-write_at (x ∷ xs) zero (b ∷ bs) (suc n) h =
      ap (◌∷◌ x') (take-write_at xs zero bs n (omega arith))
    where
      x' : A
      x' = b
  take-write_at [] (suc i) src zero h = refl
  take-write_at [] (suc i) src (suc n) h = refl
  take-write_at (x ∷ xs) (suc i) src zero h = absurd (omega arith)
  take-write_at (x ∷ xs) (suc i) src (suc n) h = ap (◌∷◌ x) (take-write_at xs i src n (omega arith))

  pub drop-over : (n : ℕ) (xs : List A) → length xs ≤ n → drop n xs ≡ []
  drop-over zero [] h = refl
  drop-over zero (x ∷ xs) h = absurd (omega arith)
  drop-over (suc n) [] h = refl
  drop-over (suc n) (x ∷ xs) h = drop-over n xs (omega arith)

  pub take-over : (n : ℕ) (xs : List A) → length xs ≤ n → take n xs ≡ xs
  take-over zero [] h = refl
  take-over zero (x ∷ xs) h = absurd (omega arith)
  take-over (suc n) [] h = refl
  take-over (suc n) (x ∷ xs) h = ap (◌∷◌ x) (take-over n xs (omega arith))
