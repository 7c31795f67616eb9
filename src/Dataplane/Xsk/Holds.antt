-- ===== src/Dataplane/Xsk/Holds.antt =====
-- The frames of a UMEM between the socket and the code that holds some of them.
use light_andromeda.Dataplane.Xsk.{
  pop_last, Xsk, XskConfig, Libxdp, IsLibxdp, frame_addrs, alloc_tx, recycle, write_frame, fq_push,
  refill, open_bound, rx_peek, rx_burst, tx_one, complete_tx,
}
use light_andromeda.Prelude.{
  ◌||◌, if◌then◌else◌, sym, Bool-cases, ◌∙◌, Option-cases, refl, ap, ℕ, ◌+◌, ◌≡◌, ◌⊎◌, inl, inr,
  List, [], ◌∷◌, true, false, some, none, ◌==◌, arith, length, Bytes,
}
use mathlib.Core.Path.{subst}
use light_andromeda.Dataplane.Xsk.Frames.{
  hit, count, count_at, owned, owned-alloc_tx, owned-recycle, owned-refill, owned-rx_burst,
  owned-tx_one, owned-complete_tx, owned-open_bound,
}

-- The frames of a configuration, each once.
abbrev pub frames_of : XskConfig → List ℕ
frames_of c = frame_addrs c.n_frames 0 c.frame_size

abbrev pub addrs_of : List (ℕ × ℕ) → List ℕ
addrs_of [] = []
addrs_of ((a, l) ∷ ds) = a ∷ addrs_of ds

-- Every frame of the UMEM is in the socket's lists or is held, once.
pub record Holds (c : XskConfig) (x : Xsk) (held : List ℕ) : Type 0 where
  pub config : x.config ≡ c
  pub frames : (a : ℕ) → owned x a + count a held ≡ count a (frames_of c)

count-addrs_of : (a : ℕ) (ds : List (ℕ × ℕ)) → count a (addrs_of ds) ≡ count_at a ds
count-addrs_of a [] = refl
count-addrs_of a ((b, l) ∷ ds) = ap (λ n. hit a b + n) (count-addrs_of a ds)

alloc_tx-config : (x : Xsk) → (alloc_tx x).0.config ≡ x.config
unfolding alloc_tx
alloc_tx-config x = elim (Option-cases (pop_last x.free)) [
  | inl n ↦ rw (n, alloc_tx) refl
  | inr (q, e) ↦ rw (e, alloc_tx) refl
]

refill-config : (l : Libxdp) (x : Xsk) (want : ℕ) → (refill l x want).0.config ≡ x.config
unfolding refill fq_push
refill-config l x want = elim (Bool-cases (want == 0 || length x.free == 0)) [
  | inl h ↦ rw (h, refill) refl
  | inr h ↦ rw (h, refill, fq_push) refl
]

complete_tx-config : (l : Libxdp) (x : Xsk) (n : ℕ) → (complete_tx l x n).0.config ≡ x.config
unfolding complete_tx
complete_tx-config l x n = elim (Bool-cases (n == 0)) [
  | inl h ↦ rw (h, complete_tx) refl
  | inr h ↦ rw (h, complete_tx) refl
]

rx_burst-config : (l : Libxdp) (x : Xsk) (n : ℕ) → (rx_burst l x n).0.config ≡ x.config
unfolding rx_burst rx_peek
rx_burst-config l x n = refl

tx_one-config : (l : Libxdp) (x : Xsk) (b len : ℕ) → (tx_one l x b len).0.config ≡ x.config
unfolding tx_one
tx_one-config l x b len = refl

module _ {c : XskConfig} {x : Xsk} where
  pub Holds-alloc_tx :
      {held : List ℕ}
      → Holds c x held
      → let (x', tx) = alloc_tx x in
        ((tx ≡ none) × Holds c x' held) ⊎ ((b : ℕ) × (tx ≡ some b) × Holds c x' (b ∷ held))
  Holds-alloc_tx {held} v = elim (owned-alloc_tx x) [
    | inl (e, s) ↦ inl (e, subst (λ y. Holds c y held) (sym s) v)
    | inr (b, e, f) ↦ inr (
      b,
      e,
      record {
        config = alloc_tx-config x ∙ v.config;
        frames = λ a. omega (arith, f a, v.frames a);
      },
    )
  ]

  pub Holds-recycle : {b : ℕ} {held : List ℕ} → Holds c x (b ∷ held) → Holds c (recycle x b) held
  unfolding recycle
  Holds-recycle {b} v = record {
    config = v.config;
    frames = λ a. omega (arith, owned-recycle x a b, v.frames a);
  }

  pub Holds-write_frame :
      (b : ℕ) (bytes : Bytes) {held : List ℕ}
      → Holds c x held
      → Holds c (write_frame x b bytes) held
  unfolding write_frame owned
  Holds-write_frame b bytes v = record { config = v.config; frames = v.frames }

  module _ (l : Libxdp) (s : IsLibxdp l) where
    -- A frame that is queued is the kernel's, one that is not is held still.
    pub Holds-tx_one :
        (b len : ℕ) {held : List ℕ}
        → Holds c x (b ∷ held)
        → let (x', queued) = tx_one l x b len in
          ((queued ≡ true) × Holds c x' held) ⊎ ((queued ≡ false) × Holds c x' (b ∷ held))
    Holds-tx_one b len v = elim (Bool-cases (tx_one l x b len).1) [
      | inl q ↦ inl (
        q,
        record {
          config = tx_one-config l x b len ∙ v.config;
          frames = λ a. omega (arith, owned-queued a q, v.frames a);
        },
      )
      | inr q ↦ inr (
        q,
        record {
          config = tx_one-config l x b len ∙ v.config;
          frames = λ a. omega (arith, owned-refused a q, v.frames a);
        },
      )
    ]
      where
        owned-queued :
            (a : ℕ)
            → (tx_one l x b len).1 ≡ true
            → owned (tx_one l x b len).0 a ≡ owned x a + hit a b
        owned-queued a q =
            owned-tx_one l s x a b len ∙ ap (λ t. owned x a + (if t then hit a b else 0)) q

        owned-refused :
            (a : ℕ) → (tx_one l x b len).1 ≡ false → owned (tx_one l x b len).0 a ≡ owned x a + 0
        owned-refused a q =
            owned-tx_one l s x a b len ∙ ap (λ t. owned x a + (if t then hit a b else 0)) q

    pub Holds-refill :
        (want : ℕ) {held : List ℕ} → Holds c x held → Holds c (refill l x want).0 held
    Holds-refill want v = record {
      config = refill-config l x want ∙ v.config;
      frames = λ a. omega (arith, owned-refill l s x a want, v.frames a);
    }

    pub Holds-complete_tx :
        (n : ℕ) {held : List ℕ} → Holds c x held → Holds c (complete_tx l x n).0 held
    Holds-complete_tx n v = record {
      config = complete_tx-config l x n ∙ v.config;
      frames = λ a. omega (arith, owned-complete_tx l s x a n, v.frames a);
    }

    -- The frames of a burst are held.
    pub Holds-rx_burst :
        (n : ℕ) → Holds c x [] → let (x', ds) = rx_burst l x n in Holds c x' (addrs_of ds)
    Holds-rx_burst n v = record {
      config = rx_burst-config l x n ∙ v.config;
      frames = λ a.
          omega (arith, owned-rx_burst l s x a n, count-addrs_of a (rx_burst l x n).1, v.frames a);
    }

-- A socket that is opened owns every frame.
pub Holds-open_bound :
    (l : Libxdp) → IsLibxdp l → (c : XskConfig) (area : Bytes) → Holds c (open_bound l c area) []
unfolding open_bound
Holds-open_bound l s c area = record {
  config = refill-config l _ c.fill_size;
  frames = λ a. omega (arith, owned-open_bound l s c area a);
}
