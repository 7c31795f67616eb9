-- ===== src/Dataplane/Xsk/Frames.antt =====
-- Who owns a frame of the UMEM: how often its address stands in the free list and the four rings, and
-- that the operations of the socket neither lose nor duplicate one.
use light_andromeda.Prelude.{
  length-drop, ◌||◌, Bool-cases, Option, min, ap, ◌∙◌, refl, Option-cases, Bytes, if◌then◌else◌, ℕ,
  zero, suc, ◌+◌, ◌-◌, ◌≤◌, ◌≡◌, ◌⊎◌, inl, inr, List, [], ◌∷◌, ◌++◌, some, none, ◌==◌, arith,
  length, take, drop,
}
use light_andromeda.Dataplane.Xsk.{
  Xsk, XskConfig, Libxdp, IsLibxdp, frame_addrs, pop_last, clamp_descs, clamp_lens, alloc_tx,
  recycle, fq_push, refill, open_bound, rx_peek, rx_burst, tx_one, complete_tx,
}

abbrev pub hit : ℕ → ℕ → ℕ
hit a b = if b == a then 1 else 0

abbrev pub count : ℕ → List ℕ → ℕ
count a [] = 0
count a (b ∷ bs) = hit a b + count a bs

-- Of descriptors.
abbrev pub count_at : ℕ → List (ℕ × ℕ) → ℕ
count_at a [] = 0
count_at a ((b, l) ∷ ds) = hit a b + count_at a ds

-- How often the frame at `a` is owned, by user space or by the kernel.
unfoldable pub owned : Xsk → ℕ → ℕ
owned x a =
    count a x.free
    + count a x.fill
    + count_at a (clamp_descs x.config x.rx)
    + count_at a x.tx
    + count a x.comp

pub count-append :
    (front back : List ℕ) (a : ℕ) → count a (front ++ back) ≡ count a front + count a back
count-append [] back a = omega arith
count-append (b ∷ front) back a = let rest = count-append front back a in omega (arith, rest)

pub count_at-append :
    (a : ℕ) (xs ys : List (ℕ × ℕ)) → count_at a (xs ++ ys) ≡ count_at a xs + count_at a ys
count_at-append a [] ys = omega arith
count_at-append a ((x, l) ∷ xs) ys = omega (arith, count_at-append a xs ys)

pub count-take-drop :
    (a n : ℕ) (xs : List ℕ) → count a (take n xs) + count a (drop n xs) ≡ count a xs
count-take-drop a zero xs = omega arith
count-take-drop a (suc n) [] = omega arith
count-take-drop a (suc n) (x ∷ xs) = omega (arith, count-take-drop a n xs)

pub count-drop_all : (a n : ℕ) (xs : List ℕ) → length xs ≤ n → count a (drop n xs) ≡ 0
count-drop_all a zero [] h = refl
count-drop_all a (suc n) [] h = refl
count-drop_all a zero (x ∷ xs) h = absurd (omega arith)
count-drop_all a (suc n) (x ∷ xs) h = count-drop_all a n xs (omega arith)

clamp_descs-take-drop :
    (c : XskConfig) (a n : ℕ) (ds : List (ℕ × ℕ))
    → count_at a (clamp_descs c (take n ds)) + count_at a (clamp_descs c (drop n ds))
      ≡ count_at a (clamp_descs c ds)
unfolding clamp_descs
clamp_descs-take-drop c a zero ds = omega arith
clamp_descs-take-drop c a (suc n) [] = omega arith
clamp_descs-take-drop c a (suc n) (d ∷ ds) = omega (arith, clamp_descs-take-drop c a n ds)

pub clamp_descs-append :
    (c : XskConfig) (a : ℕ) (ds es : List (ℕ × ℕ))
    → count_at a (clamp_descs c (ds ++ es))
      ≡ count_at a (clamp_descs c ds) + count_at a (clamp_descs c es)
unfolding clamp_descs
clamp_descs-append c a [] es = omega arith
clamp_descs-append c a (d ∷ ds) es = omega (arith, clamp_descs-append c a ds es)

count_at-clamp_lens :
    (frame_size a : ℕ) (ds : List (ℕ × ℕ)) → count_at a (clamp_lens frame_size ds) ≡ count_at a ds
unfolding clamp_lens
count_at-clamp_lens frame_size a [] = refl
count_at-clamp_lens frame_size a ((b, l) ∷ ds) = omega (arith, count_at-clamp_lens frame_size a ds)

abbrev count_popped : ℕ → Option (ℕ × List ℕ) → ℕ
count_popped a none = 0
count_popped a (some (b, rest)) = count a rest + hit a b

count-pop_last : (a : ℕ) (xs : List ℕ) → count a xs ≡ count_popped a (pop_last xs)
unfolding pop_last
count-pop_last a [] = refl
count-pop_last a (x ∷ xs) = elim (Option-cases (pop_last xs)) [
  | inl n ↦
      let none_left : count a xs ≡ 0 = count-pop_last a xs ∙ ap (count_popped a) n in
      rw (n, pop_last) (omega (arith, none_left))
  | inr ((b, rest), e) ↦
      let same : count a xs ≡ count a rest + hit a b =
        count-pop_last a xs ∙ ap (count_popped a) e in
      rw (e, pop_last) (omega (arith, same))
]

-- The frame that `alloc_tx` gives is taken out of the free list; if it gives none, all stays.
pub owned-alloc_tx :
    (x : Xsk)
    → let (x', tx) = alloc_tx x in
      ((tx ≡ none) × (x' ≡ x))
      ⊎ ((b : ℕ) × (tx ≡ some b) × ((a : ℕ) → owned x' a + hit a b ≡ owned x a))
unfolding alloc_tx owned
owned-alloc_tx x = elim (Option-cases (pop_last x.free)) [
  | inl n ↦ rw (n, alloc_tx) (inl (refl, refl))
  | inr ((b, rest), e) ↦
      let same : (a : ℕ) → count a x.free ≡ count a rest + hit a b =
        λ a. count-pop_last a x.free ∙ ap (count_popped a) e in
      rw (e, alloc_tx) (inr (b, refl, λ a. omega (arith, same a)))
]

pub owned-recycle : (x : Xsk) (a b : ℕ) → owned (recycle x b) a ≡ owned x a + hit a b
unfolding owned recycle
owned-recycle x a b = omega (arith, count-append x.free (b ∷ []) a)

start_back : (n start : ℕ) → start ≤ n → n - (n - start) ≡ start
start_back n start h = omega arith

module _ (l : Libxdp) (s : IsLibxdp l) where
  pub owned-refill : (x : Xsk) (a want : ℕ) → owned (refill l x want).0 a ≡ owned x a
  unfolding owned refill fq_push
  owned-refill x a want =
      let n = length x.free in
      let start = n - min want n in
      let addrs = drop start x.free in
      let got = l.reserve x.config.fill_size (length x.fill) (length addrs) in
      elim (Bool-cases (want == 0 || n == 0)) [
        | inl h ↦ rw h refl
        | inr h ↦ rw h (elim (s.whole x.config.fill_size (length x.fill) (length addrs)) [
          | inl z ↦ omega (
            arith,
            z,
            count-append x.fill (take got addrs) a,
            ap (λ k. count a (take k addrs)) z,
            count-take-drop a (n - got) x.free,
            count-drop_all a (n - got) x.free (omega (arith, z)),
          )
          | inr w ↦ omega (
            arith,
            count-append x.fill (take got addrs) a,
            ap (λ k. count a (take (n - k) x.free)) (w ∙ length-drop start x.free),
            ap (λ k. count a (take k x.free)) (start_back n start (omega arith)),
            count-take-drop a start x.free,
            count-take-drop a got addrs,
            count-drop_all a got addrs (omega (arith, w)),
          )
        ])
      ]

  pub owned-rx_burst :
      (x : Xsk) (a max_n : ℕ)
      → let (x', ds) = rx_burst l x max_n in owned x' a + count_at a ds ≡ owned x a
  unfolding owned rx_burst rx_peek
  owned-rx_burst x a max_n =
      let got = l.peek (length x.rx) max_n in
      omega (
        arith,
        clamp_descs-take-drop x.config a got x.rx,
        count_at-clamp_lens x.config.frame_size a (clamp_descs x.config (take got x.rx)),
      )

  pub owned-tx_one :
      (x : Xsk) (a b len : ℕ)
      → let (x', queued) = tx_one l x b len in
        owned x' a ≡ owned x a + (if queued then hit a b else 0)
  unfolding owned tx_one
  owned-tx_one x a b len =
      let got = l.reserve x.config.tx_size (length x.tx) 1 in
      elim (s.whole x.config.tx_size (length x.tx) 1) [
        | inl z ↦
            let t : count_at a (take got ((b, len) ∷ [])) ≡ 0 =
              ap (λ k. count_at a (take k ((b, len) ∷ []))) z in
            ground (arith, z, t, count_at-append a x.tx (take got ((b, len) ∷ [])))
        | inr w ↦
            let t : count_at a (take got ((b, len) ∷ [])) ≡ hit a b + 0 =
              ap (λ k. count_at a (take k ((b, len) ∷ []))) w in
            ground (arith, w, t, count_at-append a x.tx (take got ((b, len) ∷ [])))
      ]

  pub owned-complete_tx : (x : Xsk) (a max_n : ℕ) → owned (complete_tx l x max_n).0 a ≡ owned x a
  unfolding owned complete_tx
  owned-complete_tx x a max_n =
      let got = l.peek (length x.comp) max_n in
      ground (arith, count-append x.free (take got x.comp) a, count-take-drop a got x.comp)

  pub owned-open_bound :
      (c : XskConfig) (area : Bytes) (a : ℕ)
      → owned (open_bound l c area) a ≡ count a (frame_addrs c.n_frames 0 c.frame_size)
  unfolding open_bound owned clamp_descs
  owned-open_bound c area a =
      let x0 : Xsk = record {
        config = c;
        area = area;
        free = frame_addrs c.n_frames 0 c.frame_size;
        fill = [];
        rx = [];
        tx = [];
        comp = [];
      } in
      omega (arith, owned-refill x0 a c.fill_size)
