-- ===== src/Dataplane/Xsk/Received.antt =====
-- The kernel's events keep the frames: a descriptor that is received leads back to its frame.
use light_andromeda.Prelude.{
  sym, leb, Bytes, refl, inr, inl, Bool-cases, ℕ, zero, suc, ◌+◌, ◌*◌, ◌%◌, ◌≤◌, ◌<◌, ◌≡◌, List, [],
  ◌∷◌, ◌==◌, arith, ap, ◌∙◌,
}
use native.Mathlib.Nat.{mod-eq_of_lt, mul-add-mod_self_right}
use light_andromeda.Dataplane.Xsk.{Xsk, XskConfig, frame_addrs, clamp_desc, clamp_descs}
use light_andromeda.Dataplane.Xsk.Frames.{
  hit, count, count_at, owned, count-append, clamp_descs-append,
}
use light_andromeda.Dataplane.Xsk.Holds.{Holds, frames_of}
use light_andromeda.Dataplane.Xsk.Kernel.{
  KernelEvent, receive, transmit, kernel_event, kernel_events, Starts, AllStart, receive_into,
  transmit_of,
}

-- An address of the list is that of a frame.
frame_addrs-mem :
    (n start frame_size a : ℕ)
    → 0 < count a (frame_addrs n start frame_size)
    → (k : ℕ) × (start ≤ k) × (k < start + n) × (a ≡ k * frame_size)
unfolding frame_addrs
frame_addrs-mem zero start frame_size a h = absurd (omega arith)
frame_addrs-mem (suc n) start frame_size a h = elim (Bool-cases (start * frame_size == a)) [
  | inl e ↦ (start, omega arith, omega arith, ground (arith, e))
  | inr e ↦
      let h' : 0 < count a (frame_addrs n (start + 1) frame_size) = ground (arith, e, h) in
      let (k, lo, hi, s) = frame_addrs-mem n (start + 1) frame_size a h' in
      (k, omega (arith, lo), omega (arith, hi), s)
]

hit_refl : (a : ℕ) → hit a a ≡ 1
hit_refl a = ground arith

-- A descriptor that starts within the frame `k` is clamped to its address.
clamp_desc-frame :
    (c : XskConfig) (k offset len : ℕ)
    → k < c.n_frames
    → offset < c.frame_size
    → (clamp_desc c (k * c.frame_size + offset, len)).0 ≡ k * c.frame_size
unfolding clamp_desc
clamp_desc-frame c k offset len h l =
    let inside : k * c.frame_size + offset < c.n_frames * c.frame_size = grind arith in
    let base = k * c.frame_size in
    let r : (base + offset) % c.frame_size ≡ offset =
      mul-add-mod_self_right k c.frame_size offset ∙ mod-eq_of_lt l in
    elim (Bool-cases (leb (c.n_frames * c.frame_size) (base + offset))) [
      | inl e ↦ absurd (ground (arith, e, inside))
      | inr e ↦ rw e (omega (arith, r))
    ]

-- The frame of a descriptor that is received is that of the FILL ring's entry.
Holds-receive_into :
    (c : XskConfig) (x : Xsk) (held fill : List ℕ) (offset len : ℕ) (bytes : Bytes)
    → offset < c.frame_size
    → x.fill ≡ fill
    → Holds c x held
    → Holds c (receive_into x fill offset len bytes) held
unfolding receive_into owned clamp_descs
Holds-receive_into c x held [] offset len bytes o f v = v
Holds-receive_into c x held (b ∷ rest) offset len bytes o f v =
    let some_left : 0 < count b (frames_of c) =
      omega (arith, v.frames b, ap (count b) f, hit_refl b) in
    let (k, lo, hi, s) = frame_addrs-mem c.n_frames 0 c.frame_size b some_left in
    record {
      config = v.config;
      frames = λ a.
          let at : count_at a (clamp_descs x.config ((b + offset, len) ∷ [])) ≡ hit a b + 0 =
            rw (v.config, s)
              (ap (λ n. hit a n + 0) (clamp_desc-frame c k offset len (omega (arith, hi)) o)) in
          omega (
            arith,
            at,
            clamp_descs-append x.config a x.rx ((b + offset, len) ∷ []),
            ap (count a) f,
            v.frames a,
          );
    }

Holds-transmit_of :
    (c : XskConfig) (x : Xsk) (held : List ℕ) (tx : List (ℕ × ℕ))
    → x.tx ≡ tx
    → Holds c x held
    → Holds c (transmit_of x tx) held
unfolding transmit_of owned
Holds-transmit_of c x held [] f v = v
Holds-transmit_of c x held ((b, len) ∷ rest) f v = record {
  config = v.config;
  frames = λ a. omega (arith, count-append x.comp (b ∷ []) a, ap (count_at a) f, v.frames a);
}

pub Holds-kernel_event :
    (c : XskConfig) (x : Xsk) {held : List ℕ} (e : KernelEvent)
    → Starts c.frame_size e
    → Holds c x held
    → Holds c (kernel_event x e) held
unfolding kernel_event
Holds-kernel_event c x {held} (receive offset len bytes) o v =
    Holds-receive_into c x held x.fill offset len bytes o refl v
Holds-kernel_event c x {held} transmit o v = Holds-transmit_of c x held x.tx refl v

pub Holds-kernel_events :
    (c : XskConfig) (x : Xsk) {held : List ℕ} (es : List KernelEvent)
    → AllStart c.frame_size es
    → Holds c x held
    → Holds c (kernel_events x es) held
unfolding kernel_events
Holds-kernel_events c x [] os v = v
Holds-kernel_events c x (e ∷ es) (o, os) v =
    Holds-kernel_events c (kernel_event x e) es os (Holds-kernel_event c x e o v)

hit_above :
    (frame_size start k : ℕ)
    → 0 < frame_size
    → k < start
    → hit (k * frame_size) (start * frame_size) ≡ 0
hit_above frame_size start k f h =
    let above : k * frame_size < start * frame_size = grind arith in ground (arith, above)

hit_below :
    (frame_size start k : ℕ)
    → 0 < frame_size
    → start < k
    → hit (k * frame_size) (start * frame_size) ≡ 0
hit_below frame_size start k f h =
    let below : start * frame_size < k * frame_size = grind arith in ground (arith, below)

count-frame_addrs-none :
    (n start frame_size k : ℕ)
    → 0 < frame_size
    → k < start
    → count (k * frame_size) (frame_addrs n start frame_size) ≡ 0
unfolding frame_addrs
count-frame_addrs-none zero start frame_size k f h = refl
count-frame_addrs-none (suc n) start frame_size k f h = omega (
  arith,
  hit_above frame_size start k f h,
  count-frame_addrs-none n (start + 1) frame_size k f (omega (arith, h)),
)

-- An index of the range gives its address once.
count-frame_addrs :
    (n start frame_size k : ℕ)
    → 0 < frame_size
    → start ≤ k
    → k < start + n
    → count (k * frame_size) (frame_addrs n start frame_size) ≡ 1
unfolding frame_addrs
count-frame_addrs zero start frame_size k f lo hi = absurd (omega arith)
count-frame_addrs (suc n) start frame_size k f lo hi = elim (Bool-cases (leb k start)) [
  | inl e ↦
      let same : k ≡ start = ground (arith, e, lo) in
      omega (
        arith,
        ap (λ i. hit (k * frame_size) (i * frame_size)) (sym same),
        hit_refl (k * frame_size),
        count-frame_addrs-none n (start + 1) frame_size k f (omega (arith, same)),
      )
  | inr e ↦
      let more : start < k = ground (arith, e) in
      omega (
        arith,
        hit_below frame_size start k f more,
        count-frame_addrs n (start + 1) frame_size k f (omega (arith, more)) (omega (arith, hi)),
      )
]

-- Where every frame is held by the socket, each has one owner.
pub Holds-owned :
    {c : XskConfig} {x : Xsk}
    → Holds c x []
    → 0 < c.frame_size
    → (k : ℕ) → k < c.n_frames
    → owned x (k * c.frame_size) ≡ 1
Holds-owned {c} v f k h = omega (
  arith,
  v.frames (k * c.frame_size),
  count-frame_addrs c.n_frames 0 c.frame_size k f (omega arith) (omega (arith, h)),
)
