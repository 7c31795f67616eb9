-- ===== src/Prelude/Map.antt =====
-- The source's hash maps and sets as association lists: only look-up, insertion, removal, `retain`
-- and the number of entries are used of them, so the order of the list is never seen.
use Prim.Native.Nat.{ℕ, ◌+◌, ◌≤◌}
use mathlib.Core.Path.{◌≡◌, refl}
use mathlib.Core.Logic.{◌↔◌, ◌≢◌, ◌⊎◌, inl, inr}
use mathlib.Core.Bool.{Bool, true, false, ◌||◌}
use mathlib.Core.Option.{Option, none, some}
use mathlib.Core.List.{List, [], ◌∷◌}
use native.Mathlib.Omega.{arith}
use light_andromeda.Prelude.Tests.{Bool-cases, ◌==◌ as nat_beq, ==_iff, if◌then◌else◌}
use light_andromeda.Prelude.Lists.{length}

-- `K: Eq`, with the law that the derived instances of the source have.
pub record Eq {ℓ} (K : Type ℓ) : Type ℓ where
  pub beq : K → K → Bool
  pub beq_iff : (a b : K) → (beq a b ≡ true) ↔ (a ≡ b)

instance abbrev pub nat_eq : Eq ℕ
nat_eq = record { beq = nat_beq; beq_iff = ==_iff }

module _ {ℓ} {K : Type ℓ} ⦃e : Eq K⦄ where
  -- `HashSet::contains`
  unfoldable pub contains : List K → K → Bool
  contains [] k = false
  contains (x ∷ xs) k = e.beq x k || contains xs k

  -- `HashSet::remove`
  unfoldable pub delete : List K → K → List K
  delete [] k = []
  delete (x ∷ xs) k = if e.beq x k then delete xs k else x ∷ delete xs k

  pub contains-delete :
      (xs : List K) (k j : K)
      → contains (delete xs k) j ≡ (if e.beq k j then false else contains xs j)
  unfolding contains delete
  contains-delete [] k j = ground arith
  contains-delete (x ∷ xs) k j =
      ground (arith, contains-delete xs k j, e.beq_iff x k, e.beq_iff x j, e.beq_iff k j)

module _ {ℓ} {K : Type ℓ} ⦃e : Eq K⦄ where
  pub beq_self : (k : K) → e.beq k k ≡ true
  beq_self k = (e.beq_iff k k).1 refl

  pub beq_ne : (k j : K) → k ≢ j → e.beq k j ≡ false
  beq_ne k j h = elim (Bool-cases (e.beq k j)) [
    | inl t ↦ absurd (h ((e.beq_iff k j).0 t))
    | inr f ↦ f
  ]

  pub key-eq_or_ne : (k j : K) → (k ≡ j) ⊎ (k ≢ j)
  key-eq_or_ne k j = elim (Bool-cases (e.beq k j)) [
    | inl t ↦ inl ((e.beq_iff k j).0 t)
    | inr f ↦ inr (λ h. absurd (ground (arith, (e.beq_iff k j).1 h, f)))
  ]

  pub contains-delete_ne :
      (xs : List K) (k j : K) → k ≢ j → contains (delete xs k) j ≡ contains xs j
  contains-delete_ne xs k j h = rw (contains-delete xs k j) (rw (beq_ne k j h) refl)

module _ {ℓ κ} {K : Type ℓ} {V : Type κ} ⦃e : Eq K⦄ where
  -- `HashMap::get`
  unfoldable pub lookup : K → List (K × V) → Option V
  lookup k [] = none
  lookup k ((j, v) ∷ m) = if e.beq j k then some v else lookup k m

  -- `HashMap::insert`: the value of a key that is there is replaced.
  unfoldable pub insert : K → V → List (K × V) → List (K × V)
  insert k v [] = (k, v) ∷ []
  insert k v ((j, w) ∷ m) = if e.beq j k then (k, v) ∷ m else (j, w) ∷ insert k v m

  -- `HashMap::remove`
  unfoldable pub remove : K → List (K × V) → List (K × V)
  remove k [] = []
  remove k ((j, v) ∷ m) = if e.beq j k then remove k m else (j, v) ∷ remove k m

  -- `HashMap::retain`, by the value.
  unfoldable pub retain : (V → Bool) → List (K × V) → List (K × V)
  retain p [] = []
  retain p ((j, v) ∷ m) = if p v then (j, v) ∷ retain p m else retain p m

  pub lookup-insert :
      (k j : K) (v : V) (m : List (K × V))
      → lookup j (insert k v m) ≡ (if e.beq k j then some v else lookup j m)
  unfolding lookup insert
  lookup-insert k j v [] = refl
  lookup-insert k j v ((i, w) ∷ m) =
      ground (arith, e.beq_iff k j, e.beq_iff i k, e.beq_iff i j, lookup-insert k j v m)

  pub lookup-remove :
      (k j : K) (m : List (K × V))
      → lookup j (remove k m) ≡ (if e.beq k j then none else lookup j m)
  unfolding lookup remove
  lookup-remove k j [] = ground arith
  lookup-remove k j ((i, w) ∷ m) =
      ground (arith, e.beq_iff k j, e.beq_iff i k, e.beq_iff i j, lookup-remove k j m)

  pub lookup-insert_self : (k : K) (v : V) (m : List (K × V)) → lookup k (insert k v m) ≡ some v
  lookup-insert_self k v m = rw (lookup-insert k k v m) (rw (beq_self k) refl)

  pub lookup-insert_ne :
      (k j : K) (v : V) (m : List (K × V)) → k ≢ j → lookup j (insert k v m) ≡ lookup j m
  lookup-insert_ne k j v m h = rw (lookup-insert k j v m) (rw (beq_ne k j h) refl)

  pub lookup-remove_self : (k : K) (m : List (K × V)) → lookup k (remove k m) ≡ none
  lookup-remove_self k m = rw (lookup-remove k k m) (rw (beq_self k) refl)

  pub lookup-remove_ne : (k j : K) (m : List (K × V)) → k ≢ j → lookup j (remove k m) ≡ lookup j m
  lookup-remove_ne k j m h = rw (lookup-remove k j m) (rw (beq_ne k j h) refl)

  -- An insertion adds one entry at most, and none if the key is there.
  pub length-insert-le : (k : K) (v : V) (m : List (K × V)) → length (insert k v m) ≤ length m + 1
  unfolding insert
  length-insert-le k v [] = omega arith
  length-insert-le k v ((i, w) ∷ m) = ground (arith, length-insert-le k v m)

  pub length-retain-le : (p : V → Bool) (m : List (K × V)) → length (retain p m) ≤ length m
  unfolding retain
  length-retain-le p [] = omega arith
  length-retain-le p ((i, w) ∷ m) = ground (arith, length-retain-le p m)
