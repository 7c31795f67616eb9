-- ===== src/Core/Errors.antt =====
-- `ParseError` of crates/andromeda-core/src/lib.rs, and `Result<_, ParseError>` with its `?`.
use light_andromeda.Prelude.{refl, inr, inl, ◌⊎◌, ◌≡◌, ℕ, Option, none, some, String}

-- The errors of parsing and building.
pub data ParseError : Type 0 where
  too_short : (what : String) (need got : ℕ) → ParseError
  bad_version : (what : String) (version : ℕ) → ParseError
  bad_header_len : (what : String) (len : ℕ) → ParseError
  buffer_too_small : (need got : ℕ) → ParseError

pub data Result {ℓ} (A : Type ℓ) : Type ℓ where
  ok : A → Result A
  err : ParseError → Result A

-- `?` on a result.
infixl 5 ◌>>=◌
abbrev pub ◌>>=◌ {ℓ κ} : {A : Type ℓ} {B : Type κ} → Result A → (A → Result B) → Result B
ok a >>= f = f a
err e >>= f = err e

-- `.ok()`.
abbrev pub to_option {ℓ} : {A : Type ℓ} → Result A → Option A
to_option (ok a) = some a
to_option (err e) = none

-- `.unwrap_or(d)` after `.map(f)`.
abbrev pub map_or {ℓ κ} : {A : Type ℓ} {B : Type κ} → Result A → (A → B) → B → B
map_or (ok a) f d = f a
map_or (err e) f d = d

pub Result-cases {ℓ} :
    {A : Type ℓ} (r : Result A) → ((a : A) × (r ≡ ok a)) ⊎ ((e : ParseError) × (r ≡ err e))
Result-cases (ok a) = inl (a, refl)
Result-cases (err e) = inr (e, refl)
