-- ===== src/Cli/FrameTests.antt =====
-- Frames and lines on which the theorems of the command line's frames are applied.
use light_andromeda.Prelude.{
  refl, drop, ◌<◌, length, ◌+◌, arith, some, ◌≡◌, ◌∷◌, take, Bytes, replicate, [],
}
use light_andromeda.Core.Checksum.Sum.{words_sum}
use light_andromeda.Core.Checksum.Update.{Verifies}
use light_andromeda.Core.Ethernet
use light_andromeda.Core.Errors.{ok}
use light_andromeda.Core.FiveTuple.{five_tuple_of}
use light_andromeda.Core.Ipv4
use light_andromeda.Core.Ipv4.Pseudo.{pseudo_sum}
use light_andromeda.Core.Ipv4.Written.{IsWritten}
use light_andromeda.Core.Overlay.{decap, encap, flow_hash}
use light_andromeda.Core.Text.{text}
use light_andromeda.Core.Udp
use light_andromeda.Cli.Frames.{udp_frame, datagram, synth_params}
use light_andromeda.Cli.Frames.Built.{udp_frame-IsWritten}
use light_andromeda.Cli.Inspect.{
  parse_hex, decode_frame, ethernet_line, ipv4_line_of, udp_line, andromeda_line, inner_frame,
}
use light_andromeda.Core.Overlay.RoundTrip.{decapsulated, decap-encap}
use light_andromeda.Cli.Inspect.Hex.{parse_hex-spelled}
use light_andromeda.Cli.Inspect.Fuel.{decode_frame-enough}
use light_andromeda.Cli.Inspect.Layers.{decode_frame-decap}
use light_andromeda.Nat.State.{NatEngine, zero_stats}

abbrev engine : NatEngine
engine = record {
  nat_ip = 3405803783;
  port_min = 20000;
  port_max = 60000;
  next_port = 20000;
  used_ports = [];
  dnat_rules = [];
  snat_fwd = [];
  snat_rev = [];
  dnat_rev = [];
  wheel = record { slots = replicate 4 []; tick = 1000; now = 0 };
  idle_timeout = 120000;
  stats = zero_stats;
}

abbrev data_bytes : Bytes
data_bytes = 1 ∷ 2 ∷ 3 ∷ []

udp_frame-IsWritten_example :
    let f = udp_frame 167772170 167772180 40000 4242 data_bytes in
    let pkt = Ethernet.payload f in
    let dg = datagram 167772170 167772180 40000 4242 data_bytes in
    (Ethernet.parse f ≡ ok f)
    × (Ethernet.ethertype f ≡ Ethernet.ethertype_ipv4)
    × (length f ≡ 45)
    × IsWritten pkt 167772170 167772180 17 dg
    × (five_tuple_of pkt
        ≡ some (record {
          src_ip = 167772170;
          dst_ip = 167772180;
          src_port = 40000;
          dst_port = 4242;
          protocol = 17;
        }))
    × (0 < Udp.checksum_field dg)
    × Verifies (pseudo_sum 167772170 167772180 17 (length dg) + words_sum dg)
    × (drop 8 dg ≡ data_bytes)
udp_frame-IsWritten_example =
    udp_frame-IsWritten 167772170 167772180 40000 4242 data_bytes (omega arith) (omega arith)
      (omega arith) (omega arith) (omega arith) (omega arith)

-- "0a:fF" with an upper-case digit is not what is spelled; "0a:ff" is.
parse_hex-spelled_example : parse_hex (text " 0a:ff") ≡ some (10 ∷ 255 ∷ [])
unfolding light_andromeda.Cli.Inspect.is_hexdigit light_andromeda.Core.Ethernet.Mac.hex_digit
parse_hex-spelled_example =
    parse_hex-spelled (text " ", [], 10) ((text ":", [], 255) ∷ [])
      (((refl, tt), tt, omega arith), (((refl, tt), tt, omega arith), tt))

decode_frame-enough_example :
    decode_frame 46 (udp_frame 1 2 3 4 data_bytes) 0
    ≡ decode_frame 60 (udp_frame 1 2 3 4 data_bytes) 0
unfolding udp_frame light_andromeda.Cli.Frames.frame Ethernet.write_header
    light_andromeda.Cli.Frames.packet Ipv4.write_header datagram Udp.write_header
decode_frame-enough_example =
    decode_frame-enough 46 60 (udp_frame 1 2 3 4 data_bytes) 0 (omega arith) (omega arith)

-- A frame of 15 bytes behind the headers of the packet that `inspect` makes up.
abbrev short_frame : Bytes
short_frame = 2 ∷ 0 ∷ 0 ∷ 0 ∷ 0 ∷ 1 ∷ 2 ∷ 0 ∷ 0 ∷ 0 ∷ 0 ∷ 2 ∷ 8 ∷ 6 ∷ 7 ∷ []

abbrev overlay_frame : Bytes
overlay_frame = take 65 (encap (replicate 80 0) short_frame synth_params).0

overlay_frame-decap : decap overlay_frame ≡ ok (some (decapsulated synth_params short_frame))
unfolding flow_hash
overlay_frame-decap =
    (decap-encap (replicate 80 0) short_frame synth_params
      (record { src = omega arith; dst = omega arith; flow_hash = omega arith }) (omega arith)
      (omega arith)).1

decode_frame-decap_example :
    let packet = Ethernet.payload overlay_frame in
    decode_frame 9 overlay_frame 0
    ≡ ethernet_line overlay_frame 0
      ∷ ipv4_line_of packet 0
      ∷ udp_line (Ipv4.payload packet) 0
      ∷ andromeda_line (decapsulated synth_params short_frame).header 0
      ∷ inner_frame 0
      ∷ decode_frame 8 short_frame 4
decode_frame-decap_example =
    decode_frame-decap 8 overlay_frame 0 (decapsulated synth_params short_frame) overlay_frame-decap
