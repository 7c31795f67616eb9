-- ===== src/Dataplane/Command/Reload.antt =====
-- What the commands of the control socket make of the fabric.
use light_andromeda.Prelude.{
  suc, [], not, ◌∙◌, ap, ◌∷◌, ◌&&◌, List, Option-cases, inr, inl, String, ◌⊎◌, Bool-cases, ℕ,
  length, ◌≡◌, refl,
}
use light_andromeda.Control.Config.Parse.{Parsed-cases, Reader, Parsed, load}
use light_andromeda.Core.Text.{text_eq, Text, text, is_empty}
use light_andromeda.Control.Fabric.{Fabric}
use light_andromeda.Control.Config.{VpcSpec, NodeConfig, vnis_of, served_vnis, build_fabric}
use light_andromeda.Control.Config.Valid.{IsValid, load-IsValid}
use light_andromeda.Dataplane.Command.{
  Incoming, line_read, line_failed, accept_failed, handle_conn, serve, Reply, reloaded, failed,
  pong, usage, split_command, plain, reload, apply_command, apply_commands,
}

-- A reply that reports no reload.
abbrev pub Refuses : Reply → Type 0
Refuses (reloaded v e) = ⊥
Refuses (failed e) = Unit
Refuses pong = Unit
Refuses usage = Unit

-- The fabric is that of the configuration of a file, and the reply counts its VPCs and endpoints.
abbrev pub Reloads : Reader → (ℕ → String) → Text → Fabric × Reply → Type 0
Reloads r name path (fabric, reply) =
    (nc : NodeConfig) × (load r path ≡ Parsed.ok nc)
    × IsValid nc
    × (fabric ≡ build_fabric name nc)
    × (reply ≡ reloaded (length nc.vpcs) (length nc.endpoints))

length-vnis_of : (vs : List VpcSpec) → length (vnis_of vs) ≡ length vs
unfolding vnis_of
length-vnis_of [] = refl
length-vnis_of (v ∷ vs) = ap suc (length-vnis_of vs)

plain-Refuses : (cmd : Text) → Refuses (plain cmd)
plain-Refuses cmd = elim (Bool-cases (text_eq cmd (text "ping"))) [
  | inl h ↦ rw h tt
  | inr h ↦ rw h tt
]

module _ (r : Reader) (name : ℕ → String) where
  reload-cases :
      (path : Text) (fabric : Fabric)
      → let (after, reply) = reload r name path fabric in
        ((after ≡ fabric) × Refuses reply) ⊎ Reloads r name path (after, reply)
  unfolding reload served_vnis
  reload-cases path fabric = elim (Parsed-cases (load r path)) [
    | inl (nc, e) ↦
        rw (e, reload)
          (inr (
            nc,
            refl,
            load-IsValid r path nc e,
            refl,
            ap (λ n. reloaded n (length nc.endpoints)) (length-vnis_of nc.vpcs),
          ))
    | inr (why, e) ↦ rw (e, reload) (inl (refl, tt))
  ]

  -- A command of the control socket that does not report a reload leaves the fabric as it is; one that
  -- does leaves the fabric of a valid configuration, loaded from a path, and replies with the numbers
  -- of its VPCs and endpoints.
  pub apply_command-cases :
      (line : Text) (fabric : Fabric)
      → let (after, reply) = apply_command r name line fabric in
        ((after ≡ fabric) × Refuses reply) ⊎ ((path : Text) × Reloads r name path (after, reply))
  unfolding apply_command
  apply_command-cases line fabric = elim (Option-cases (split_command line).1) [
    | inl n ↦ rw (n, apply_command) (inl (refl, plain-Refuses (split_command line).0))
    | inr (path, e) ↦
        elim (Bool-cases (text_eq (split_command line).0 (text "reload") && not (is_empty path))) [
          | inl h ↦
              rw (e, h, apply_command)
                (elim (reload-cases path fabric) [ inl c ↦ inl c | inr c ↦ inr (path, c) ])
          | inr h ↦ rw (e, h, apply_command) (inl (refl, plain-Refuses (split_command line).0))
        ]
  ]

  -- After any sequence of commands, the fabric is the first one or that of a valid configuration.
  apply_commands-fabric :
      (lines : List Text) (fabric : Fabric)
      → (apply_commands r name lines fabric ≡ fabric)
        ⊎ ((nc : NodeConfig) × IsValid nc
            × (apply_commands r name lines fabric ≡ build_fabric name nc))
  unfolding apply_commands
  apply_commands-fabric [] fabric = inl refl
  apply_commands-fabric (line ∷ lines) fabric =
      elim (apply_commands-fabric lines (apply_command r name line fabric).0) [
        | inl same ↦ elim (apply_command-cases line fabric) [
          | inl (e, q) ↦ inl (same ∙ e)
          | inr (path, (nc, l, v, e, q)) ↦ inr (nc, v, same ∙ e)
        ]
        | inr later ↦ inr later
      ]

-- The lines that are read up to the first error of the listener.
unfoldable pub lines_read : List Incoming → List Text
lines_read [] = []
lines_read (line_read line ∷ more) = line ∷ lines_read more
lines_read (line_failed ∷ more) = lines_read more
lines_read (accept_failed ∷ more) = []

-- The thread of the control socket leaves the fabric that the commands leave whose lines it read.
pub serve-commands :
    (r : Reader) (name : ℕ → String) (incoming : List Incoming) (fabric : Fabric)
    → (serve r name incoming fabric).0 ≡ apply_commands r name (lines_read incoming) fabric
unfolding serve handle_conn apply_commands lines_read
serve-commands r name [] fabric = refl
serve-commands r name (line_read line ∷ more) fabric =
    serve-commands r name more (apply_command r name line fabric).0
serve-commands r name (line_failed ∷ more) fabric = serve-commands r name more fabric
serve-commands r name (accept_failed ∷ more) fabric = refl
