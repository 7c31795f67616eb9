-- ===== src/Dataplane/Xsk.antt =====
-- crates/andromeda-dataplane/src/afxdp.rs: `XskSocket`, the accounting of the UMEM frames, with the
-- functions of csrc that it calls. The four rings are the lists of what stands in them, oldest first.
-- libxdp is a parameter: how many entries `xsk_ring_prod__reserve` gives and
-- `xsk_ring_cons__peek` finds.
pub mod Kernel
pub mod Bounds
pub mod Frames
pub mod Holds
pub mod Received
use light_andromeda.Prelude.{
  ℕ, zero, suc, ◌+◌, ◌-◌, ◌*◌, ◌%◌, ◌≤◌, ◌≡◌, ◌⊎◌, min, List, [], ◌∷◌, ◌++◌, Bool, false, ◌||◌,
  Option, none, some, Bytes, length, take, drop, slice, update_slice, ltb, leb, ◌==◌, if◌then◌else◌,
}

-- Of a ring of `size` entries, `queued` of them taken, `wanted` are asked for; of `ready` entries.
pub record Libxdp : Type 0 where
  pub reserve : (size queued wanted : ℕ) → ℕ
  pub peek : (ready wanted : ℕ) → ℕ

-- libxdp documents that a reservation is granted whole or not at all, and that a peek finds no more
-- than stands in the ring and than is asked for.
pub record IsLibxdp (l : Libxdp) : Type 0 where
  pub whole :
      (size queued wanted : ℕ)
      → (l.reserve size queued wanted ≡ 0) ⊎ (l.reserve size queued wanted ≡ wanted)
  pub ready : (ready wanted : ℕ) → l.peek ready wanted ≤ ready
  pub wanted : (ready wanted : ℕ) → l.peek ready wanted ≤ wanted

-- `XdpMode` and `XskConfig`
pub data XdpMode : Type 0 where
  auto skb drv : XdpMode

pub record XskConfig : Type 0 where
  pub n_frames : ℕ
  pub frame_size : ℕ
  pub fill_size : ℕ
  pub comp_size : ℕ
  pub rx_size : ℕ
  pub tx_size : ℕ
  pub xdp_mode : XdpMode
  pub zerocopy : Bool

abbrev pub default_config : XskConfig
default_config = record {
  n_frames = 4096;
  frame_size = 2048;
  fill_size = 2048;
  comp_size = 2048;
  rx_size = 2048;
  tx_size = 2048;
  xdp_mode = auto;
  zerocopy = false;
}

-- A descriptor is an address into the UMEM and a length. `free` is the vector of the source, its end
-- last.
pub record Xsk : Type 0 where
  pub config : XskConfig
  pub area : Bytes
  pub free : List ℕ
  pub fill : List ℕ
  pub rx : List (ℕ × ℕ)
  pub tx : List (ℕ × ℕ)
  pub comp : List ℕ

-- `(0..n).map(|i| (start + i) * frame_size)`
unfoldable pub frame_addrs : (n start frame_size : ℕ) → List ℕ
frame_addrs zero start frame_size = []
frame_addrs (suc n) start frame_size = start * frame_size ∷ frame_addrs n (start + 1) frame_size

-- `Vec::pop`: the last entry and those before it.
unfoldable pub pop_last : List ℕ → Option (ℕ × List ℕ)
pop_last [] = none
pop_last (a ∷ as') = elim (pop_last as') [
  | none ↦ some (a, [])
  | some (b, rest) ↦ some (b, a ∷ rest)
]

-- What `andro_rx_peek` makes of a descriptor: its address is that of its frame, within the UMEM, and
-- its length at most a frame.
unfoldable pub clamp_desc : XskConfig → ℕ × ℕ → ℕ × ℕ
clamp_desc c (addr, len) =
    let a = if leb (c.n_frames * c.frame_size) addr then 0 else addr in
    let l = if leb (c.n_frames * c.frame_size) addr then 0 else len in
    (a - a % c.frame_size, if ltb c.frame_size l then c.frame_size else l)

unfoldable pub clamp_descs : XskConfig → List (ℕ × ℕ) → List (ℕ × ℕ)
clamp_descs c [] = []
clamp_descs c (d ∷ ds) = clamp_desc c d ∷ clamp_descs c ds

-- The second clamp, of `rx_burst`.
unfoldable pub clamp_lens : ℕ → List (ℕ × ℕ) → List (ℕ × ℕ)
clamp_lens frame_size [] = []
clamp_lens frame_size ((a, l) ∷ ds) =
    (a, if ltb frame_size l then frame_size else l) ∷ clamp_lens frame_size ds

-- `frame`
unfoldable pub frame : Xsk → (addr len : ℕ) → Bytes
frame x addr len = slice x.area addr (addr + len)

-- The view of `frame_mut`, and what is written through it.
unfoldable pub frame_mut : Xsk → ℕ → Bytes
frame_mut x addr = slice x.area addr (addr + x.config.frame_size)

unfoldable pub write_frame : Xsk → ℕ → Bytes → Xsk
write_frame x addr bytes = record x {
  area = update_slice x.area addr (addr + x.config.frame_size) (λ _. bytes);
}

-- `free_frames`
unfoldable pub free_frames : Xsk → ℕ
free_frames x = length x.free

unfoldable pub alloc_tx : Xsk → Xsk × Option ℕ
alloc_tx x = elim (pop_last x.free) [
  | none ↦ (x, none)
  | some (a, rest) ↦ (record x { free = rest }, some a)
]

unfoldable pub recycle : Xsk → ℕ → Xsk
recycle x addr = record x { free = x.free ++ addr ∷ [] }

module _ (l : Libxdp) where
  -- `andro_fq_push`
  unfoldable pub fq_push : Xsk → List ℕ → Xsk × ℕ
  fq_push x addrs =
      let got = l.reserve x.config.fill_size (length x.fill) (length addrs) in
      (record x { fill = x.fill ++ take got addrs }, got)

  unfoldable pub refill : Xsk → ℕ → Xsk × ℕ
  refill x want =
      let start = length x.free - min want (length x.free) in
      let (x1, pushed) = fq_push x (drop start x.free) in
      if want == 0 || length x.free == 0
      then (x, 0)
      else (record x1 { free = take (length x.free - pushed) x.free }, pushed)

  -- `open`, once the kernel has bound the socket and mapped `area`.
  unfoldable pub open_bound : XskConfig → Bytes → Xsk
  open_bound c area =
      let x : Xsk = record {
        config = c;
        area = area;
        free = frame_addrs c.n_frames 0 c.frame_size;
        fill = [];
        rx = [];
        tx = [];
        comp = [];
      } in
      (refill x c.fill_size).0

  -- `andro_rx_peek`
  unfoldable pub rx_peek : Xsk → ℕ → Xsk × List (ℕ × ℕ)
  rx_peek x max_n =
      let got = l.peek (length x.rx) max_n in
      (record x { rx = drop got x.rx }, clamp_descs x.config (take got x.rx))

  unfoldable pub rx_burst : Xsk → ℕ → Xsk × List (ℕ × ℕ)
  rx_burst x max_n = let (x1, ds) = rx_peek x max_n in (x1, clamp_lens x.config.frame_size ds)

  -- `andro_tx_push` of one descriptor, and `tx_one`.
  unfoldable pub tx_one : Xsk → (addr len : ℕ) → Xsk × Bool
  tx_one x addr len =
      let got = l.reserve x.config.tx_size (length x.tx) 1 in
      (record x { tx = x.tx ++ take got ((addr, len) ∷ []) }, got == 1)

  -- `andro_cq_collect` and `complete_tx`.
  unfoldable pub complete_tx : Xsk → ℕ → Xsk × ℕ
  complete_tx x max_n =
      let got = l.peek (length x.comp) max_n in
      if max_n == 0
      then (x, 0)
      else (record x { free = x.free ++ take got x.comp; comp = drop got x.comp }, got)
