-- ===== src/Core/Overlay/Header.antt =====
-- The Andromeda header: its eight bytes, and that `decode` undoes `encode`.
use light_andromeda.Prelude.{
  ◌/◌, to_be16, ◌+◌, refl, ◌<◌, ◌%◌, arith, ◌≡◌, ℕ, length, ◌++◌, ◌*◌, Bytes, [], ◌∷◌,
}
use light_andromeda.Core.Overlay.{AndromedaHdr, encode, decode, new}
use light_andromeda.Core.Errors.{ok}

-- A header whose fields fit their bits, of the version that `decode` takes.
pub record IsHeader (h : AndromedaHdr) : Type 0 where
  pub version : h.version ≡ 1
  pub flags : h.flags < 16
  pub inner_proto : h.inner_proto < 256
  pub flow_hash : h.flow_hash < 65536
  pub vni : h.vni < 16777216
  pub hop_limit : h.hop_limit < 256

abbrev pub andromeda_header : AndromedaHdr → Bytes
andromeda_header h =
    (h.version * 16 % 256 + h.flags % 16) ∷ []
    ++ h.inner_proto ∷ []
    ++ to_be16 h.flow_hash
    ++ (h.vni % 16777216 / 65536 % 256) ∷ (h.vni % 16777216 / 256 % 256) ∷ []
    ++ (h.vni % 16777216 % 256) ∷ h.hop_limit ∷ []

-- All 8 bytes are written, whatever the buffer held.
pub encode-eq :
    (out : Bytes) (h : AndromedaHdr) → length out ≡ 8 → encode h out ≡ andromeda_header h
unfolding encode
encode-eq (x0 ∷ x1 ∷ x2 ∷ x3 ∷ x4 ∷ x5 ∷ x6 ∷ x7 ∷ []) h e = refl
encode-eq out h e = absurd (omega arith)

-- `decode` gives back every header that fits its bits, whatever follows it.
pub decode-andromeda_header :
    (h : AndromedaHdr) (rest : Bytes) → IsHeader h → decode (andromeda_header h ++ rest) ≡ ok h
unfolding decode
decode-andromeda_header h rest v = ground arith

-- `new` makes such a header.
pub new-IsHeader : (vni flow : ℕ) → flow < 65536 → IsHeader (new vni flow)
unfolding new
new-IsHeader vni flow h = omega arith

-- What `encode` writes over eight bytes, `decode` reads, whatever follows them.
pub decode-encode :
    (h : AndromedaHdr) (out rest : Bytes)
    → IsHeader h
    → length out ≡ 8
    → decode (encode h out ++ rest) ≡ ok h
decode-encode h out rest v e = rw (encode-eq out h e) (decode-andromeda_header h rest v)
