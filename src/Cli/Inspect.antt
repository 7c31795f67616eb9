-- ===== src/Cli/Inspect.antt =====
-- crates/andromeda-cli/src/main.rs: `inspect_cmd`. A line that `decode_frame` prints is a constructor with
-- the values that it shows and the depth of its indentation.
pub mod Hex
pub mod Fuel
pub mod Layers
use light_andromeda.Prelude.{
  ℕ, zero, suc, ◌+◌, ◌%◌, Bool, true, false, ◌&&◌, ◌||◌, not, Option, none, some, List, [], ◌∷◌,
  ◌++◌, Bytes, Ipv4Addr, length, drop, leb, ◌==◌, if◌then◌else◌,
}
use light_andromeda.Core.Text.{Text, is_empty, u8_from_str_radix}
use light_andromeda.Core.Arp
use light_andromeda.Core.Errors.{ok, err}
use light_andromeda.Core.Ethernet
use light_andromeda.Core.Ethernet.{MacAddr}
use light_andromeda.Core.Ipv4
use light_andromeda.Core.Overlay
use light_andromeda.Core.Overlay.{AndromedaHdr, andromeda_udp_port, andromeda_hdr_len}
use light_andromeda.Core.Tcp
use light_andromeda.Core.Udp
use light_andromeda.Cli.Frames.{synth_overlay_packet}

-- `char::is_ascii_hexdigit`
unfoldable pub is_hexdigit : ℕ → Bool
is_hexdigit c = leb b'0' c && leb c b'9' || leb b'a' c && leb c b'f' || leb b'A' c && leb c b'F'

abbrev pub hexdigits : Text → Text
hexdigits [] = []
hexdigits (c ∷ cs) = let rest = hexdigits cs in if is_hexdigit c then c ∷ rest else rest

-- The bytes of the digits, two for each.
unfoldable pub read_pairs : Text → Option Bytes
read_pairs [] = some []
read_pairs (c ∷ []) = none
read_pairs (c ∷ d ∷ cs) = elim (u8_from_str_radix (c ∷ d ∷ []) 16) [
  | none ↦ none
  | some b ↦ elim (read_pairs cs) [ none ↦ none | some bs ↦ some (b ∷ bs) ]
]

unfoldable pub parse_hex : Text → Option Bytes
unfolding read_pairs
parse_hex s =
    let cleaned = hexdigits s in
    if is_empty cleaned || not (length cleaned % 2 == 0) then none else read_pairs cleaned

pub data Line : Type 0 where
  bad_ethernet : (depth : ℕ) → Line
  ethernet : (depth : ℕ) (src dst : MacAddr) (ethertype : ℕ) → Line
  arp :
      (depth : ℕ) (is_request : Bool) (sender_ip : Ipv4Addr) (sender_mac : MacAddr)
      (target_ip : Ipv4Addr)
      → Line
  bad_ipv4 : (depth : ℕ) → Line
  ipv4_line :
      (depth : ℕ) (src dst : Ipv4Addr) (protocol ttl total_length : ℕ) (checksum_valid : Bool)
      → Line
  udp : (depth src_port dst_port length : ℕ) → Line
  andromeda : (depth version vni flow_hash hop_limit : ℕ) (is_control : Bool) → Line
  inner_frame : (depth : ℕ) → Line
  tcp : (depth src_port dst_port seq flags : ℕ) → Line

abbrev arp_lines : Bytes → ℕ → List Line
arp_lines payload depth = elim (Arp.parse payload) [
  | ok a ↦ arp depth (Arp.is_request a) (Arp.sender_ip a) (Arp.sender_mac a) (Arp.target_ip a) ∷ []
  | err e ↦ []
]

abbrev tcp_lines : Bytes → ℕ → List Line
tcp_lines l4 depth = elim (Tcp.parse l4) [
  | ok t ↦ tcp depth (Tcp.src_port t) (Tcp.dst_port t) (Tcp.seq t) (Tcp.flags t) ∷ []
  | err e ↦ []
]

abbrev pub udp_line : Bytes → ℕ → Line
udp_line u depth = udp depth (Udp.src_port u) (Udp.dst_port u) (Udp.length_field u)

abbrev pub andromeda_line : AndromedaHdr → ℕ → Line
andromeda_line h depth =
    andromeda depth h.version h.vni h.flow_hash h.hop_limit (Overlay.is_control h)

abbrev pub ipv4_line_of : Bytes → ℕ → Line
ipv4_line_of ip depth =
    ipv4_line depth (Ipv4.src ip) (Ipv4.dst ip) (Ipv4.protocol ip) (Ipv4.ttl ip)
      (Ipv4.total_length ip) (Ipv4.checksum_valid ip)

abbrev pub ethernet_line : Bytes → ℕ → Line
ethernet_line eth depth =
    ethernet depth (Ethernet.src eth) (Ethernet.dst eth) (Ethernet.ethertype eth)

-- What the lines of an inner frame are, by its bytes and its depth.
abbrev pub Inner : Type 0
Inner = Bytes → ℕ → List Line

-- Behind the UDP header of an overlay packet.
unfoldable pub andromeda_lines : Inner → Bytes → ℕ → List Line
andromeda_lines inner after depth = elim (Overlay.decode after) [
  | ok h ↦
      andromeda_line h depth ∷ inner_frame depth ∷ inner (drop andromeda_hdr_len after) (depth + 4)
  | err e ↦ []
]

unfoldable pub udp_lines : Inner → Bytes → ℕ → List Line
unfolding andromeda_lines
udp_lines inner l4 depth = elim (Udp.parse l4) [
  | ok u ↦
      if Udp.dst_port u == andromeda_udp_port
      then udp_line u depth ∷ andromeda_lines inner (drop Udp.udp_hdr_len l4) depth
      else udp_line u depth ∷ []
  | err e ↦ []
]

unfoldable pub ipv4_lines : Inner → Bytes → ℕ → List Line
unfolding udp_lines
ipv4_lines inner payload depth = elim (Ipv4.parse payload) [
  | err e ↦ bad_ipv4 depth ∷ []
  | ok ip ↦
      ipv4_line_of ip depth
      ∷ (if Ipv4.protocol ip == Ipv4.proto_udp
          then udp_lines inner (Ipv4.payload ip) depth
          else if Ipv4.protocol ip == Ipv4.proto_tcp
          then tcp_lines (Ipv4.payload ip) depth
          else [])
]

-- The body of `decode_frame`, by what its recursive call does.
unfoldable pub frame_lines : Inner → Bytes → ℕ → List Line
unfolding ipv4_lines
frame_lines inner bytes depth = elim (Ethernet.parse bytes) [
  | err e ↦ bad_ethernet depth ∷ []
  | ok eth ↦
      ethernet_line eth depth
      ∷ (if Ethernet.ethertype eth == Ethernet.ethertype_arp
          then arp_lines (Ethernet.payload eth) depth
          else if Ethernet.ethertype eth == Ethernet.ethertype_ipv4
          then ipv4_lines inner (Ethernet.payload eth) depth
          else [])
]

-- With fuel for the nested frames.
unfoldable pub decode_frame : (fuel : ℕ) → Bytes → ℕ → List Line
unfolding frame_lines
decode_frame zero bytes depth = []
decode_frame (suc fuel) bytes depth = frame_lines (decode_frame fuel) bytes depth

-- None if the input is not hexadecimal, or if the packet that is made up for none cannot be made.
unfoldable pub inspected : List Text → Option Bytes
inspected [] = synth_overlay_packet
inspected (hex ∷ args) = parse_hex hex

-- The lines that the command prints; none if the process exits.
unfoldable pub inspect : List Text → Option (List Line)
unfolding inspected
inspect args = elim (inspected args) [
  | none ↦ none
  | some bytes ↦ some (decode_frame (suc (length bytes)) bytes 0)
]
