-- ===== src/Dataplane/Xsk/Kernel.antt =====
-- The kernel's side of the rings of an AF_XDP socket: what may happen to them between two calls.
use light_andromeda.Dataplane.Xsk.{Xsk}
use light_andromeda.Prelude.{ℕ, ◌+◌, ◌<◌, List, [], ◌∷◌, ◌++◌, Bytes, write_at}

-- A frame is received into the oldest frame of the FILL ring, at an offset of it; the oldest
-- descriptor of the TX ring is sent.
pub data KernelEvent : Type 0 where
  receive : (offset len : ℕ) → Bytes → KernelEvent
  transmit : KernelEvent

unfoldable pub receive_into : Xsk → List ℕ → (offset len : ℕ) → Bytes → Xsk
receive_into x [] offset len bytes = x
receive_into x (a ∷ rest) offset len bytes = record x {
  area = write_at x.area (a + offset) bytes;
  fill = rest;
  rx = x.rx ++ (a + offset, len) ∷ [];
}

unfoldable pub transmit_of : Xsk → List (ℕ × ℕ) → Xsk
transmit_of x [] = x
transmit_of x ((a, len) ∷ rest) = record x { tx = rest; comp = x.comp ++ a ∷ [] }

unfoldable pub kernel_event : Xsk → KernelEvent → Xsk
unfolding receive_into transmit_of
kernel_event x (receive offset len bytes) = receive_into x x.fill offset len bytes
kernel_event x transmit = transmit_of x x.tx

unfoldable pub kernel_events : Xsk → List KernelEvent → Xsk
unfolding kernel_event
kernel_events x [] = x
kernel_events x (e ∷ es) = kernel_events (kernel_event x e) es

-- A frame starts within the frame that it is received into.
abbrev pub Starts : ℕ → KernelEvent → Type 0
Starts frame_size (receive offset len bytes) = offset < frame_size
Starts frame_size transmit = Unit

abbrev pub AllStart : ℕ → List KernelEvent → Type 0
AllStart frame_size [] = Unit
AllStart frame_size (e ∷ es) = Starts frame_size e × AllStart frame_size es
