-- ===== src/Cli/Args.antt =====
-- crates/andromeda-cli/src/main.rs: the loop over the options of a command, which `run_cmd` and
-- `switch_cmd` write out for tables of their own. A message with which the process exits is a
-- constructor; what is printed is left out.
use light_andromeda.Prelude.{if◌then◌else◌, [], some, ◌∷◌, ◌^◌, Option, none, Ipv4Addr, List, ℕ}
use light_andromeda.Core.Text.{Text, text_eq, ipv4_from_str, uint_from_str}
use light_andromeda.Control.Config.Parse.{ConfigError}

-- The messages with which the process exits.
pub data Exit : Type 0 where
  missing_value : (flag : Text) → Exit
  bad_value : (flag s : Text) → Exit
  bad_mode : Text → Exit
  unknown_option : Text → Exit
  run_usage : Exit
  switch_usage : Exit
  bad_config : ConfigError → Exit

pub data Outcome {ℓ} (A : Type ℓ) : Type ℓ where
  go : A → Outcome A
  exit : Exit → Outcome A

infixl 5 ◌>>=◌
abbrev pub ◌>>=◌ {ℓ κ} : {A : Type ℓ} {B : Type κ} → Outcome A → (A → Outcome B) → Outcome B
go a >>= f = f a
exit e >>= f = exit e

-- An option that takes a value, by what it sets; or one that takes none.
pub data Flag (O : Type 0) : Type 0 where
  valued : (O → Text → Outcome O) → Flag O
  plain : (O → O) → Flag O

-- `next_parse`, once there is a value.
abbrev pub parsed {ℓ} : {A : Type ℓ} → Option A → (flag s : Text) → Outcome A
parsed (some a) flag s = go a
parsed none flag s = exit (bad_value flag s)

module _ {O : Type 0} where
  abbrev pub set_u32 : Text → (O → ℕ → O) → Flag O
  set_u32 flag put = valued (λ o s. parsed (uint_from_str (2 ^ 32) s) flag s >>= λ n. go (put o n))

  abbrev pub set_u64 : Text → (O → ℕ → O) → Flag O
  set_u64 flag put = valued (λ o s. parsed (uint_from_str (2 ^ 64) s) flag s >>= λ n. go (put o n))

  abbrev pub set_ip : Text → (O → Ipv4Addr → O) → Flag O
  set_ip flag put = valued (λ o s. parsed (ipv4_from_str s) flag s >>= λ ip. go (put o ip))

  -- The arm of the match on an argument.
  unfoldable pub find_flag : List (Text × Flag O) → Text → Option (Flag O)
  find_flag [] a = none
  find_flag ((name, f) ∷ fs) a =
      let rest = find_flag fs a in if text_eq name a then some f else rest

  -- The loop over the arguments.
  unfoldable pub parse_args : List (Text × Flag O) → O → List Text → Outcome O
  parse_args flags o [] = go o
  parse_args flags o (a ∷ []) = elim (find_flag flags a) [
    | none ↦ exit (unknown_option a)
    | some f ↦ elim f [ valued put ↦ exit (missing_value a) | plain put ↦ go (put o) ]
  ]
  parse_args flags o (a ∷ s ∷ args) = elim (find_flag flags a) [
    | none ↦ exit (unknown_option a)
    | some f ↦ elim f [
      | valued put ↦ elim (put o s) [ go o1 ↦ parse_args flags o1 args | exit e ↦ exit e ]
      | plain put ↦ parse_args flags (put o) (s ∷ args)
    ]
  ]
