-- ===== src/Prelude/Writes.antt =====
-- What a read sees of a write in place.
use Prim.Native.Nat.{◌%◌, ◌/◌, ℕ, zero, suc, ◌+◌, ◌-◌, ◌≤◌, ◌<◌}
use mathlib.Core.Path.{◌≡◌, refl, ap, sym, ◌∙◌}
use mathlib.Core.List.{List, [], ◌∷◌, ◌++◌}
use native.Mathlib.Omega.{arith}
use light_andromeda.Prelude.Lists.{length, length-take, get_or, take, drop, copy_over, write_at}
use light_andromeda.Prelude.Words.{Bytes, IsBytes, update_slice, be16_at, to_be16, octets}

module _ {ℓ} {A : Type ℓ} where
  -- A read before the written part.
  pub get_or-write_at_lt :
      (xs : List A) (i : ℕ) (src : List A) (j : ℕ) (d : A)
      → j < i
      → get_or (write_at xs i src) j d ≡ get_or xs j d
  get_or-write_at_lt xs zero src j d h = absurd (omega arith)
  get_or-write_at_lt [] (suc i) src j d h = refl
  get_or-write_at_lt (x ∷ xs) (suc i) src zero d h = refl
  get_or-write_at_lt (x ∷ xs) (suc i) src (suc j) d h =
      get_or-write_at_lt xs i src j d (omega arith)

  -- A read behind the written part.
  pub get_or-write_at_ge :
      (xs : List A) (i : ℕ) (src : List A) (j : ℕ) (d : A)
      → i + length src ≤ j
      → get_or (write_at xs i src) j d ≡ get_or xs j d
  get_or-write_at_ge xs zero [] j d h = refl
  get_or-write_at_ge [] zero (b ∷ bs) j d h = refl
  get_or-write_at_ge (x ∷ xs) zero (b ∷ bs) zero d h = absurd (omega arith)
  get_or-write_at_ge (x ∷ xs) zero (b ∷ bs) (suc j) d h =
      get_or-write_at_ge xs zero bs j d (omega arith)
  get_or-write_at_ge [] (suc i) src j d h = refl
  get_or-write_at_ge (x ∷ xs) (suc i) src zero d h = absurd (omega arith)
  get_or-write_at_ge (x ∷ xs) (suc i) src (suc j) d h =
      get_or-write_at_ge xs i src j d (omega arith)

  pub get_or-take :
      (n : ℕ) (xs : List A) (i : ℕ) (d : A) → i < n → get_or (take n xs) i d ≡ get_or xs i d
  get_or-take zero xs i d h = absurd (omega arith)
  get_or-take (suc n) [] i d h = refl
  get_or-take (suc n) (x ∷ xs) zero d h = refl
  get_or-take (suc n) (x ∷ xs) (suc i) d h = get_or-take n xs i d (omega arith)

  pub get_or-append_lt :
      (xs ys : List A) (i : ℕ) (d : A) → i < length xs → get_or (xs ++ ys) i d ≡ get_or xs i d
  get_or-append_lt [] ys i d h = absurd (omega arith)
  get_or-append_lt (x ∷ xs) ys zero d h = refl
  get_or-append_lt (x ∷ xs) ys (suc i) d h = get_or-append_lt xs ys i d (omega arith)

  pub take-append : (xs ys : List A) (n : ℕ) → length xs ≡ n → take n (xs ++ ys) ≡ xs
  take-append [] ys zero h = refl
  take-append [] ys (suc n) h = absurd (omega arith)
  take-append (x ∷ xs) ys zero h = absurd (omega arith)
  take-append (x ∷ xs) ys (suc n) h = ap (◌∷◌ x) (take-append xs ys n (omega arith))

  pub drop-append : (xs ys : List A) (n : ℕ) → length xs ≡ n → drop n (xs ++ ys) ≡ ys
  drop-append [] ys zero h = refl
  drop-append [] ys (suc n) h = absurd (omega arith)
  drop-append (x ∷ xs) ys zero h = absurd (omega arith)
  drop-append (x ∷ xs) ys (suc n) h = drop-append xs ys n (omega arith)

  drop-nil : (n : ℕ) → drop {A = A} n [] ≡ []
  drop-nil zero = refl
  drop-nil (suc n) = refl

  pub drop-drop : (xs : List A) (a b : ℕ) → drop a (drop b xs) ≡ drop (b + a) xs
  drop-drop xs a zero = ap (λ n. drop n xs) z
    where
      z : a ≡ zero + a
      z = omega arith
  drop-drop [] a (suc b) = drop-nil a ∙ sym (drop-nil (suc b + a))
  drop-drop (x ∷ xs) a (suc b) = drop-drop xs a b ∙ ap (λ n. drop n (x ∷ xs)) s
    where
      s : suc (b + a) ≡ suc b + a
      s = omega arith

  pub drop-write_at_self :
      (xs : List A) (i : ℕ) (src : List A)
      → i ≤ length xs
      → drop i (write_at xs i src) ≡ copy_over src (drop i xs)
  drop-write_at_self xs zero src h = refl
  drop-write_at_self [] (suc i) src h = absurd (omega arith)
  drop-write_at_self (x ∷ xs) (suc i) src h = drop-write_at_self xs i src (omega arith)

  pub drop-add : (xs ys : List A) (n k : ℕ) → length xs ≡ n → drop (n + k) (xs ++ ys) ≡ drop k ys
  drop-add [] ys n k h = ap (λ m. drop m ys) (omega arith)
  drop-add (x ∷ xs) ys zero k h = absurd (omega arith)
  drop-add (x ∷ xs) ys (suc n) k h =
      let e : suc n + k ≡ suc (n + k) = omega arith in rw e (drop-add xs ys n k (omega arith))

IsBytes-copy_over : (src xs : Bytes) → IsBytes src → IsBytes xs → IsBytes (copy_over src xs)
IsBytes-copy_over [] xs h k = k
IsBytes-copy_over (b ∷ bs) [] h k = tt
IsBytes-copy_over (b ∷ bs) (x ∷ xs) h k = (h.0, IsBytes-copy_over bs xs h.1 k.1)

pub IsBytes-write_at :
    (xs : Bytes) (i : ℕ) (src : Bytes) → IsBytes src → IsBytes xs → IsBytes (write_at xs i src)
IsBytes-write_at xs zero src h k = IsBytes-copy_over src xs h k
IsBytes-write_at [] (suc i) src h k = tt
IsBytes-write_at (x ∷ xs) (suc i) src h k = (k.0, IsBytes-write_at xs i src h k.1)

pub IsBytes-to_be16 : (w : ℕ) → IsBytes (to_be16 w)
IsBytes-to_be16 w = omega arith

pub IsBytes-octets : (ip : ℕ) → IsBytes (octets ip)
IsBytes-octets ip = omega arith

-- A word that is written is read back.
pub be16_at-write16 :
    (xs : Bytes) (i w : ℕ)
    → suc i < length xs
    → w < 65536
    → be16_at (write_at xs i (to_be16 w)) i ≡ w
be16_at-write16 [] i w l h = absurd (omega arith)
be16_at-write16 (x ∷ []) zero w l h = absurd (omega arith)
be16_at-write16 (x ∷ y ∷ xs) zero w l h = omega arith
be16_at-write16 (x ∷ xs) (suc i) w l h = be16_at-write16 xs i w (omega arith) h

-- Another word is left as it was.
pub be16_at-write_lt :
    (xs : Bytes) (i : ℕ) (src : Bytes) (j : ℕ)
    → suc j < i
    → be16_at (write_at xs i src) j ≡ be16_at xs j
be16_at-write_lt xs i src j h =
    omega (
      arith,
      get_or-write_at_lt xs i src j 0 (omega arith),
      get_or-write_at_lt xs i src (suc j) 0 h,
    )

pub be16_at-write_ge :
    (xs : Bytes) (i : ℕ) (src : Bytes) (j : ℕ)
    → i + length src ≤ j
    → be16_at (write_at xs i src) j ≡ be16_at xs j
be16_at-write_ge xs i src j h =
    omega (
      arith,
      get_or-write_at_ge xs i src j 0 h,
      get_or-write_at_ge xs i src (suc j) 0 (omega arith),
    )

pub be16_at-take : (n : ℕ) (xs : Bytes) (i : ℕ) → suc i < n → be16_at (take n xs) i ≡ be16_at xs i
be16_at-take n xs i h =
    omega (arith, get_or-take n xs i 0 (omega arith), get_or-take n xs (suc i) 0 h)

-- An address that is written is read back, as its two halves.
pub be16_at-write32 :
    (xs : Bytes) (i ip : ℕ)
    → i + 3 < length xs
    → ip < 4294967296
    → (be16_at (write_at xs i (octets ip)) i ≡ ip / 65536)
      × (be16_at (write_at xs i (octets ip)) (suc (suc i)) ≡ ip % 65536)
be16_at-write32 [] i ip l h = absurd (omega arith)
be16_at-write32 (a ∷ []) zero ip l h = absurd (omega arith)
be16_at-write32 (a ∷ b ∷ []) zero ip l h = absurd (omega arith)
be16_at-write32 (a ∷ b ∷ c ∷ []) zero ip l h = absurd (omega arith)
be16_at-write32 (a ∷ b ∷ c ∷ d ∷ xs) zero ip l h = (omega arith, omega arith)
be16_at-write32 (x ∷ xs) (suc i) ip l h = be16_at-write32 xs i ip (omega arith) h

-- A sub-slice behind a known prefix.
pub update_slice-append :
    (pre post : Bytes) (a b : ℕ) (f : Bytes → Bytes)
    → length pre ≡ a
    → update_slice (pre ++ post) a (a + b) f ≡ pre ++ f (take b post) ++ drop b post
update_slice-append pre post a b f e =
    rw (take-append pre post a e, drop-append pre post a e, sub_left, drop-add pre post a b e) refl
  where
    sub_left : a + b - a ≡ b
    sub_left = omega arith

-- A sub-slice that is filled whole, whatever it held.
pub fill :
    (pre post : Bytes) (a b : ℕ) (f : Bytes → Bytes) (hdr : Bytes)
    → length pre ≡ a
    → b ≤ length post
    → ((h : Bytes) → length h ≡ b → f h ≡ hdr)
    → update_slice (pre ++ post) a (a + b) f ≡ pre ++ hdr ++ drop b post
fill pre post a b f hdr e l all =
    update_slice-append pre post a b f e
    ∙ ap (λ h. pre ++ h ++ drop b post) (all (take b post) (length-take b post l))
