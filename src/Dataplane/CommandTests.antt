-- ===== src/Dataplane/CommandTests.antt =====
-- Command lines on which the theorems of the control socket are applied.
use light_andromeda.Core.Text.{Text, text}
use light_andromeda.Control.ConfigTests.{reader}
use light_andromeda.Control.Fabric
use light_andromeda.Control.Fabric.{Fabric}
use light_andromeda.Control.Config.{NodeConfig, build_fabric}
use light_andromeda.Dataplane.Command.{apply_command, apply_commands, reloaded, usage, pong, Reply}
use light_andromeda.Dataplane.Command.Reload.{Refuses, Reloads, apply_command-cases}
use light_andromeda.Prelude.{ℕ, ◌≡◌, ◌⊎◌, refl, String}

abbrev name : ℕ → String
name vni = "vpc"

abbrev start : Fabric
start = Fabric.new 3232235777

abbrev line : Text
line = text "  reload   /etc/node.toml "

replies : (apply_command reader name line start).1 ≡ reloaded 1 1
unfolding light_andromeda.Control.Config.Parse.load light_andromeda.Control.Config.Parse.parse
    light_andromeda.Control.Config.Parse.validate light_andromeda.Control.Config.Parse.parse_ip
    light_andromeda.Control.Config.Parse.gateway_mac light_andromeda.Control.Config.Parse.build_vpcs
    light_andromeda.Control.Config.Parse.parse_vpc light_andromeda.Control.Config.Parse.parse_cidr
    light_andromeda.Control.Config.Parse.parse_endpoints
    light_andromeda.Control.Config.Parse.gateway_ip
    light_andromeda.Control.Config.Parse.parse_endpoint
    light_andromeda.Control.Config.Parse.parse_mac light_andromeda.Control.Config.Parse.parse_vpcs
    light_andromeda.Core.Text.ipv4_from_str light_andromeda.Core.Text.read_octets
    light_andromeda.Core.Text.split light_andromeda.Core.Text.read_octet
    light_andromeda.Core.Text.read_digits light_andromeda.Core.Text.to_digit
    light_andromeda.Core.Text.split_once light_andromeda.Core.Text.u8_from_str_radix
    light_andromeda.Core.Text.trim light_andromeda.Core.Text.trim_start
    light_andromeda.Core.Text.trim_end light_andromeda.Core.Text.is_whitespace
    light_andromeda.Core.Ethernet.Mac.from_str light_andromeda.Core.Ethernet.Mac.read_parts
    light_andromeda.Core.Ethernet.mac_at light_andromeda.Dataplane.Command.split_command
    light_andromeda.Dataplane.Command.reload apply_command
    light_andromeda.Control.Config.served_vnis light_andromeda.Control.Config.vnis_of
replies = refl

empty_reply : (apply_command reader name (text "reload ") start).1 ≡ usage
unfolding light_andromeda.Control.Config.Parse.load light_andromeda.Control.Config.Parse.parse
    light_andromeda.Control.Config.Parse.validate light_andromeda.Control.Config.Parse.parse_ip
    light_andromeda.Control.Config.Parse.gateway_mac light_andromeda.Control.Config.Parse.build_vpcs
    light_andromeda.Control.Config.Parse.parse_vpc light_andromeda.Control.Config.Parse.parse_cidr
    light_andromeda.Control.Config.Parse.parse_endpoints
    light_andromeda.Control.Config.Parse.gateway_ip
    light_andromeda.Control.Config.Parse.parse_endpoint
    light_andromeda.Control.Config.Parse.parse_mac light_andromeda.Control.Config.Parse.parse_vpcs
    light_andromeda.Core.Text.ipv4_from_str light_andromeda.Core.Text.read_octets
    light_andromeda.Core.Text.split light_andromeda.Core.Text.read_octet
    light_andromeda.Core.Text.read_digits light_andromeda.Core.Text.to_digit
    light_andromeda.Core.Text.split_once light_andromeda.Core.Text.u8_from_str_radix
    light_andromeda.Core.Text.trim light_andromeda.Core.Text.trim_start
    light_andromeda.Core.Text.trim_end light_andromeda.Core.Text.is_whitespace
    light_andromeda.Core.Ethernet.Mac.from_str light_andromeda.Core.Ethernet.Mac.read_parts
    light_andromeda.Core.Ethernet.mac_at light_andromeda.Dataplane.Command.split_command
    light_andromeda.Dataplane.Command.reload apply_command
    light_andromeda.Control.Config.served_vnis light_andromeda.Control.Config.vnis_of
empty_reply = refl

ping_reply : (apply_command reader name (text "ping") start).1 ≡ pong
unfolding light_andromeda.Control.Config.Parse.load light_andromeda.Control.Config.Parse.parse
    light_andromeda.Control.Config.Parse.validate light_andromeda.Control.Config.Parse.parse_ip
    light_andromeda.Control.Config.Parse.gateway_mac light_andromeda.Control.Config.Parse.build_vpcs
    light_andromeda.Control.Config.Parse.parse_vpc light_andromeda.Control.Config.Parse.parse_cidr
    light_andromeda.Control.Config.Parse.parse_endpoints
    light_andromeda.Control.Config.Parse.gateway_ip
    light_andromeda.Control.Config.Parse.parse_endpoint
    light_andromeda.Control.Config.Parse.parse_mac light_andromeda.Control.Config.Parse.parse_vpcs
    light_andromeda.Core.Text.ipv4_from_str light_andromeda.Core.Text.read_octets
    light_andromeda.Core.Text.split light_andromeda.Core.Text.read_octet
    light_andromeda.Core.Text.read_digits light_andromeda.Core.Text.to_digit
    light_andromeda.Core.Text.split_once light_andromeda.Core.Text.u8_from_str_radix
    light_andromeda.Core.Text.trim light_andromeda.Core.Text.trim_start
    light_andromeda.Core.Text.trim_end light_andromeda.Core.Text.is_whitespace
    light_andromeda.Core.Ethernet.Mac.from_str light_andromeda.Core.Ethernet.Mac.read_parts
    light_andromeda.Core.Ethernet.mac_at light_andromeda.Dataplane.Command.split_command
    light_andromeda.Dataplane.Command.reload apply_command
    light_andromeda.Control.Config.served_vnis light_andromeda.Control.Config.vnis_of
ping_reply = refl

apply_command-cases_example :
    let (after, reply) = apply_command reader name line start in
    ((after ≡ start) × Refuses reply) ⊎ ((path : Text) × Reloads reader name path (after, reply))
apply_command-cases_example = apply_command-cases reader name line start
