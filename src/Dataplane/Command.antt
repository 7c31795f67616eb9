-- ===== src/Dataplane/Command.antt =====
-- crates/andromeda-dataplane/src/control.rs: the commands of the control socket. The lines of reply are
-- constructors; the socket, its permissions and its thread are left out.
pub mod Reload
use light_andromeda.Prelude.{
  not, ◌&&◌, ◌==◌, false, true, [], ◌∷◌, List, if◌then◌else◌, length, String, ℕ, Bool, Option, none,
  some,
}
use light_andromeda.Core.Text.{text_eq, Text, text, is_empty, trim, split_once, is_whitespace}
use light_andromeda.Control.Fabric.{Fabric}
use light_andromeda.Control.Config.{served_vnis, build_fabric}
use light_andromeda.Control.Config.Parse
use light_andromeda.Control.Config.Parse.{ConfigError, Reader, Parsed}

pub data Reply : Type 0 where
  reloaded : (vnis eps : ℕ) → Reply
  failed : ConfigError → Reply
  pong usage : Reply

-- `line.trim().splitn(2, char::is_whitespace)`: the command and what follows it, trimmed.
unfoldable pub split_command : Text → Text × Option Text
split_command line = elim (split_once is_whitespace (trim line)) [
  | none ↦ (trim line, none)
  | some (cmd, rest) ↦ (cmd, some (trim rest))
]

-- A command without an argument.
abbrev pub plain : Text → Reply
plain cmd = if text_eq cmd (text "ping") then pong else usage

module _ (r : Reader) (vpc_name : ℕ → String) where
  -- The fabric that is left and the reply.
  unfoldable pub reload : Text → Fabric → Fabric × Reply
  reload path fabric = elim (Parse.load r path) [
    | Parsed.ok nc ↦
        (build_fabric vpc_name nc, reloaded (length (served_vnis nc)) (length nc.endpoints))
    | Parsed.err e ↦ (fabric, failed e)
  ]

  unfoldable pub apply_command : Text → Fabric → Fabric × Reply
  apply_command line fabric =
      let (cmd, arg) = split_command line in
      elim arg [
        | none ↦ (fabric, plain cmd)
        | some path ↦
            let done = reload path fabric in
            if text_eq cmd (text "reload") && not (is_empty path) then done else (fabric, plain cmd)
      ]

  -- The commands of the connections, one after the other.
  unfoldable pub apply_commands : List Text → Fabric → Fabric
  apply_commands [] fabric = fabric
  apply_commands (line ∷ lines) fabric = apply_commands lines (apply_command line fabric).0

-- What the listener gets: a connection whose line is read, one whose line is not, or an error.
pub data Incoming : Type 0 where
  line_read : Text → Incoming
  line_failed : Incoming
  accept_failed : Incoming

module _ (r : Reader) (vpc_name : ℕ → String) where
  -- A connection: the fabric that is left, and the reply, if any.
  unfoldable pub handle_conn : Option Text → Fabric → Fabric × Option Reply
  handle_conn none fabric = (fabric, none)
  handle_conn (some line) fabric =
      let (f, reply) = apply_command r vpc_name line fabric in (f, some reply)

  -- The thread that serves the connections, up to the first error of the listener.
  unfoldable pub serve : List Incoming → Fabric → Fabric × List (Option Reply)
  unfolding handle_conn
  serve [] fabric = (fabric, [])
  serve (line_read line ∷ more) fabric =
      let (f, reply) = handle_conn (some line) fabric in
      let (g, replies) = serve more f in (g, reply ∷ replies)
  serve (line_failed ∷ more) fabric =
      let (f, reply) = handle_conn none fabric in
      let (g, replies) = serve more f in (g, reply ∷ replies)
  serve (accept_failed ∷ more) fabric = (fabric, [])
