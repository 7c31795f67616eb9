-- ===== src/Dataplane/Xsk/Bounds.antt =====
-- What a burst hands out lies within the UMEM.
use light_andromeda.Prelude.{
  ◌+◌, ◌%◌, ◌-◌, inr, [], ◌≤◌, length, inl, arith, ◌/◌, leb, ◌*◌, take, ◌∷◌, ◌<◌, List, ℕ, All, ◌≡◌,
  Bool-cases,
}
use light_andromeda.Dataplane.Xsk.{
  Xsk, XskConfig, Libxdp, clamp_desc, clamp_descs, clamp_lens, rx_peek, rx_burst,
}

-- The descriptor is a frame of the UMEM, from its first byte on, and no longer than it.
abbrev pub InFrame : XskConfig → ℕ × ℕ → Type 0
InFrame c (addr, len) =
    (k : ℕ) × (k < c.n_frames) × (addr ≡ k * c.frame_size) × (len ≤ c.frame_size)

-- An address of a UMEM is within the frame that the division finds.
slot_of :
    (n_frames frame_size a : ℕ)
    → 0 < frame_size
    → a < n_frames * frame_size
    → (a / frame_size < n_frames) × (a - a % frame_size ≡ a / frame_size * frame_size)
slot_of n_frames frame_size a f h =
    let split : a ≡ a / frame_size * frame_size + a % frame_size = grind arith in
    let below : a / frame_size < n_frames = grind arith in (below, omega (arith, split))

clamp_desc-InFrame :
    (c : XskConfig) (d : ℕ × ℕ) → 0 < c.n_frames → 0 < c.frame_size → InFrame c (clamp_desc c d)
unfolding clamp_desc
clamp_desc-InFrame c (addr, len) n f = elim (Bool-cases (leb (c.n_frames * c.frame_size) addr)) [
  | inl e ↦ rw e (0, n, omega arith, ground arith)
  | inr e ↦
      let inside : addr < c.n_frames * c.frame_size = ground (arith, e) in
      let (below, at) = slot_of c.n_frames c.frame_size addr f inside in
      rw e (addr / c.frame_size, below, at, ground arith)
]

clamp_lens-InFrame :
    (c : XskConfig) (ds : List (ℕ × ℕ))
    → 0 < c.n_frames
    → 0 < c.frame_size
    → All (InFrame c) (clamp_lens c.frame_size (clamp_descs c ds))
unfolding clamp_lens clamp_descs
clamp_lens-InFrame c [] n f = tt
clamp_lens-InFrame c (d ∷ ds) n f =
    let (k, h, e, l) = clamp_desc-InFrame c d n f in
    ((k, h, e, ground (arith, l)), clamp_lens-InFrame c ds n f)

-- Whatever descriptors the kernel leaves in the RX ring, each that a burst hands out is a frame of the
-- UMEM, from its first byte on, and its length is at most a frame: where the UMEM has frames and they
-- have bytes, no view of a received frame leaves its frame.
pub rx_burst-InFrame :
    (l : Libxdp) (x : Xsk) (max_n : ℕ)
    → 0 < x.config.n_frames
    → 0 < x.config.frame_size
    → All (InFrame x.config) (rx_burst l x max_n).1
unfolding rx_burst rx_peek
rx_burst-InFrame l x max_n n f =
    clamp_lens-InFrame x.config (take (l.peek (length x.rx) max_n) x.rx) n f
