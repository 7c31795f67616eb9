-- ===== src/Dataplane/Spsc/Schedule.antt =====
-- Every sequence of sends and receives on a ring against a bounded queue.
use light_andromeda.Prelude.{
  sym, arith, false, ◌^◌, ◌∙◌, ◌≤◌, ◌%◌, [], ◌∷◌, length-set, zero, none, inr, ◌+◌, if◌then◌else◌,
  ap, inl, some, true, Bool-cases, suc, ◌++◌, length, ◌==◌, List, Option, ℕ, ◌≡◌, refl,
}
use light_andromeda.Dataplane.Spsc.{Ring, push, pop, channel, wrapping_sub}
use light_andromeda.Dataplane.Spsc.Fifo.{IsRing, queue, entries, push-queue, pop-queue}
use light_andromeda.Dataplane.Spsc.Channel.{channel-IsRing}

-- A step of the producer or of the consumer, and what it returns: the value that was refused, or the one
-- taken.
pub data Step {ℓ} (T : Type ℓ) : Type ℓ where
  send : T → Step T
  receive : Step T

pub data Returned {ℓ} (T : Type ℓ) : Type ℓ where
  refused : Option T → Returned T
  taken : Option T → Returned T

module _ {ℓ} {T : Type ℓ} (default : T) where
  unfoldable pub run_ring : Ring T → List (Step T) → List (Returned T)
  run_ring r [] = []
  run_ring r (send v ∷ steps) = let (r1, o) = push default r v in refused o ∷ run_ring r1 steps
  run_ring r (receive ∷ steps) = let (r1, o) = pop default r in taken o ∷ run_ring r1 steps

-- The queue of at most `cap` values.
unfoldable pub run_queue {ℓ} : {T : Type ℓ} → ℕ → List T → List (Step T) → List (Returned T)
run_queue cap q [] = []
run_queue cap q (send v ∷ steps) =
    let room = run_queue cap (q ++ v ∷ []) steps in
    let full = run_queue cap q steps in
    if length q == cap then refused (some v) ∷ full else refused none ∷ room
run_queue cap [] (receive ∷ steps) = taken none ∷ run_queue cap [] steps
run_queue cap (x ∷ q) (receive ∷ steps) = taken (some x) ∷ run_queue cap q steps

module _ {ℓ} {T : Type ℓ} (default : T) where
  length-entries : (buf : List T) (cap i n : ℕ) → length (entries default buf cap i n) ≡ n
  length-entries buf cap i zero = refl
  length-entries buf cap i (suc n) = ap suc (length-entries buf cap (i + 1) n)

  push-full :
      (r : Ring T) (v : T)
      → (wrapping_sub default r.tail r.head == length r.buf) ≡ true
      → push default r v ≡ (r, some v)
  unfolding push
  push-full r v h = rw h refl

  length-push : (r : Ring T) (v : T) → length (push default r v).0.buf ≡ length r.buf
  unfolding push
  length-push r v = elim (Bool-cases (wrapping_sub default r.tail r.head == length r.buf)) [
    | inl h ↦ rw h refl
    | inr h ↦ rw h (length-set r.buf (r.tail % (r.mask + 1)) v)
  ]

  length-pop : (r : Ring T) → length (pop default r).0.buf ≡ length r.buf
  unfolding pop
  length-pop r = elim (Bool-cases (r.head == r.tail)) [ inl h ↦ rw h refl | inr h ↦ rw h refl ]

  run_queue-empty :
      (cap : ℕ) (q : List T) (steps : List (Step T))
      → q ≡ []
      → run_queue cap q (receive ∷ steps) ≡ taken none ∷ run_queue cap q steps
  unfolding run_queue
  run_queue-empty cap q steps e = rw e refl

  run_queue-front :
      (cap : ℕ) (q : List T) (x : T) (rest : List T) (steps : List (Step T))
      → q ≡ x ∷ rest
      → run_queue cap q (receive ∷ steps) ≡ taken (some x) ∷ run_queue cap rest steps
  unfolding run_queue
  run_queue-front cap q x rest steps e = rw e refl

  -- Whatever the steps of the producer and the consumer and their order are, a well-formed ring returns
  -- to each what a bounded queue of its values and its number of slots does.
  pub run_ring-run_queue :
      (steps : List (Step T)) (r : Ring T)
      → IsRing default r
      → run_ring default r steps ≡ run_queue (length r.buf) (queue default r) steps
  unfolding run_ring run_queue
  run_ring-run_queue [] r s = refl
  run_ring-run_queue (send v ∷ steps) r s =
      let n = wrapping_sub default r.tail r.head in
      let cap = length r.buf in
      let len : length (queue default r) ≡ n = length-entries r.buf cap r.head n in
      elim (Bool-cases (n == cap)) [
        | inl h ↦
            let full : (length (queue default r) == cap) ≡ true = ap (λ m. m == cap) len ∙ h in
            rw (full, push-full r v h)
              (ap (λ os. refused (some v) ∷ os) (run_ring-run_queue steps r s))
        | inr h ↦
            let room : (length (queue default r) == cap) ≡ false = ap (λ m. m == cap) len ∙ h in
            let (e, q, s1) = push-queue default r v s (ground (arith, h, s.fits)) in
            let r1 = (push default r v).0 in
            rw (room, e)
              (ap (λ os. refused none ∷ os)
                (run_ring-run_queue steps r1 s1
                  ∙ ap (λ c. run_queue c (queue default r1) steps) (length-push r v)
                  ∙ ap (λ xs. run_queue cap xs steps) q))
      ]
  run_ring-run_queue (receive ∷ steps) r s =
      let cap = length r.buf in
      elim (pop-queue default r s) [
        | inl (e, q, same) ↦
            ap (λ o. taken o ∷ run_ring default (pop default r).0 steps) e
            ∙ ap (λ y. taken none ∷ run_ring default y steps) same
            ∙ ap (λ os. taken none ∷ os) (run_ring-run_queue steps r s)
            ∙ sym (run_queue-empty cap (queue default r) steps q)
        | inr (x, e, q, s1) ↦
            let r1 = (pop default r).0 in
            ap (λ o. taken o ∷ run_ring default r1 steps) e
            ∙ ap (λ os. taken (some x) ∷ os)
                (run_ring-run_queue steps r1 s1
                  ∙ ap (λ c. run_queue c (queue default r1) steps) (length-pop r))
            ∙ sym (run_queue-front cap (queue default r) x (queue default r1) steps q)
      ]

  -- A channel returns to every sequence of steps what an empty queue does that is bounded by its
  -- number of slots, for a capacity of at most 2^63.
  pub channel-run_queue :
      (capacity : ℕ) (steps : List (Step T))
      → capacity ≤ 2 ^ 63
      → let r = channel default capacity in
        run_ring default r steps ≡ run_queue (length r.buf) [] steps
  channel-run_queue capacity steps h =
      let r = channel default capacity in
      let (s, q, _, _) = channel-IsRing default capacity h in
      run_ring-run_queue steps r s ∙ ap (λ xs. run_queue (length r.buf) xs steps) q
