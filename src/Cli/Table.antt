-- ===== src/Cli/Table.antt =====
-- The table of commands of src/cli/cli_server.c: cli_register, command_find, command_execute.
use cc_utils.Base.{
  ℕ, ◌+◌, Bool, Option, none, some, List, [], ◌∷◌, leb, if◌then◌else◌, replicate, take,
}
use cc_utils.Base.Outcome.{Outcome, ok, fault}
use cc_utils.Base.Int.{ℤ, negsuc}
use cc_utils.Base.Bytes.{Bytes, bytes_eq}
use cc_utils.Cli.{command_max_len}

-- `command_t`; a function is known by its address, and `none` is NULL.
pub record Command : Type 0 where
  pub subcommand : Option Bytes
  pub help : Option Bytes
  pub execute : Option ℕ

-- `commands` and `regcnt`
pub record Commands : Type 0 where
  pub slots : List Command
  pub regcnt : ℕ

abbrev pub empty : Command
empty = record { subcommand = none; help = none; execute = none }

abbrev pub initial : Commands
initial = record { slots = replicate 1024 empty; regcnt = 0 }

-- The loop that fills the first slot without a function.
unfoldable pub fill : Command → List Command → List Command
fill c [] = []
fill c (slot ∷ slots) = elim slot.execute [ none ↦ c ∷ slots | some f ↦ slot ∷ fill c slots ]

-- What is returned, -ENOSPC or nothing, and the table. The lock is cmd_handler's, and NULL where there is
-- no server.
unfoldable pub cli_register : Bool → Commands → Bytes → Bytes → ℕ → Outcome (Option ℤ × Commands)
cli_register has_handler s sub_command help execute =
    if leb 1023 s.regcnt
    then ok (some (negsuc 27), s)
    else if has_handler
    then ok (
      none,
      record {
        slots =
            fill
              (record { subcommand = some sub_command; help = some help; execute = some execute })
              s.slots;
        regcnt = s.regcnt + 1;
      },
    )
    else fault

-- strncmp(a, b, COMMAND_MAX_LEN) == 0
abbrev pub same_command : Bytes → Bytes → Bool
same_command a b = bytes_eq (take command_max_len a) (take command_max_len b)

-- The slot with its name, once its name is known not to be NULL.
unfoldable pub command_find : List Command → Bytes → Option Command
command_find [] name = none
command_find (slot ∷ slots) name = elim slot.subcommand [
  | none ↦ none
  | some s ↦ let rest = command_find slots name in if same_command s name then some slot else rest
]

-- The function that is called, if any.
unfoldable pub command_execute : Commands → Bytes → Option ℕ
command_execute s subcommand = elim (command_find s.slots subcommand) [
  | none ↦ none
  | some c ↦ c.execute
]
