-- ===== src/Cli/Listing.antt =====
-- What cmd_help and cmd_test of src/cli/cli_server.c print.
use cc_utils.Base.{
  ℕ, zero, suc, ◌+◌, ◌-◌, ◌*◌, ◌^◌, ◌≤◌, ◌<◌, ◌≡◌, ◌⊎◌, refl, List, [], ◌∷◌, ◌++◌, append_assoc,
  append-nil, subst, length, length-append, replicate, take, All, arith,
}
use mathlib.Core.List.{map}
use cc_utils.Base.Outcome.{ok}
use cc_utils.Base.Bytes.{Bytes}
use cc_utils.Binlog.Buffer.{Allocator}
use cc_utils.Binlog.Laws.Growth.{Succeeds}
use cc_utils.Cli.Output.{CmdPrint, cdp_print, cdp_output}
use cc_utils.Cli.Printed.{Printed, print-Printed}
use cc_utils.Cli.Table.{Commands, empty}
use cc_utils.Cli.Registered.{Registration, slot_of, Holds}
use cc_utils.Cli.Builtin.{help_title, help_line, help_slot, help_loop, cmd_help}

-- The buffer with the text in it, a 0 behind it, and not much larger than the text.
pub record Filled (cdp : CmdPrint) (text : Bytes) : Type 0 where
  pub printed : Printed cdp text
  pub modest : cdp.buf_size ≤ 10240 ⊎ cdp.buf_size ≤ 2 * cdp.pos

-- A line that cdp_print prints.
abbrev pub IsLine : Bytes → Type 0
IsLine text = (0 < length text) × (length text < 1024)

abbrev pub all_lines : List Bytes → Bytes
all_lines [] = []
all_lines (l ∷ ls) = l ++ all_lines ls

abbrev IsSent : CmdPrint → Bytes → Type 0
IsSent cdp text = take (cdp.pos + 1) (cdp_output cdp) ≡ text ++ (0 ∷ [])

abbrev pub help_of : Registration → Bytes
help_of r = help_line r.name r.help

module _ (mem : Allocator) (succeeds : Succeeds mem) where
  print-Filled :
      (cdp : CmdPrint) (before text : Bytes)
      → Filled cdp before
      → IsLine text
      → length before < 2 ^ 28
      → (cdp' : CmdPrint) × (cdp_print mem cdp text ≡ ok cdp')
        × Filled cdp' (before ++ text)
        × IsSent cdp' (before ++ text)
  print-Filled cdp before text f line few =
      let p = f.printed in
      let (cdp', e, printed, out, modest) =
        print-Printed mem succeeds cdp before text p line.0 line.1
          (ground (arith, f.modest, p.ends)) in
      let longer = length-append before text in
      (
        cdp',
        e,
        record {
          printed = printed;
          modest = ground (arith, f.modest, modest, p.ends, printed.ends, longer);
        },
        out,
      )

  -- The slots behind the registered commands print nothing.
  help_loop-empty : (free : ℕ) (cdp : CmdPrint) → help_loop mem (replicate free empty) cdp ≡ ok cdp
  unfolding help_loop help_slot
  help_loop-empty zero cdp = refl
  help_loop-empty (suc free) cdp = help_loop-empty free cdp

  help_loop-Filled :
      (rs : List Registration) (free : ℕ) (cdp : CmdPrint) (before : Bytes)
      → Filled cdp before
      → IsSent cdp before
      → All IsLine (map help_of rs)
      → length before + 1024 * length rs < 2 ^ 28
      → (cdp' : CmdPrint) × (help_loop mem (map slot_of rs ++ replicate free empty) cdp ≡ ok cdp')
        × Filled cdp' (before ++ all_lines (map help_of rs))
        × IsSent cdp' (before ++ all_lines (map help_of rs))
  unfolding help_loop help_slot
  help_loop-Filled [] free cdp before f out all few =
      rw (append-nil before) (cdp, help_loop-empty free cdp, f, out)
  help_loop-Filled (r ∷ rs) free cdp before f out (line, all) few =
      let (cdp₁, e₁, f₁, out₁) = print-Filled cdp before (help_of r) f line (omega arith) in
      let longer = length-append before (help_of r) in
      let (cdp₂, e₂, f₂, out₂) =
        help_loop-Filled rs free cdp₁ (before ++ help_of r) f₁ out₁ all
          (omega (arith, longer, line.1)) in
      let whole = append_assoc before (help_of r) (all_lines (map help_of rs)) in
      (cdp₂, rw e₁ e₂, subst (Filled cdp₂) whole f₂, subst (IsSent cdp₂) whole out₂)

  -- cmd_help, in front of an empty buffer, leaves there the title and a line for each registered command,
  -- in the order in which they were registered, with a 0 behind them, and does not fault. The lines have
  -- fewer than 1024 characters, and no allocation fails.
  pub cmd_help-listing :
      (s : Commands) (rs : List Registration) (cdp : CmdPrint)
      → Holds s rs
      → Filled cdp []
      → All IsLine (map help_of rs)
      → (cdp' : CmdPrint) × (cmd_help mem s cdp ≡ ok cdp')
        × Filled cdp' (help_title ++ all_lines (map help_of rs))
        × (take (cdp'.pos + 1) (cdp_output cdp')
            ≡ (help_title ++ all_lines (map help_of rs)) ++ (0 ∷ []))
  unfolding cmd_help
  cmd_help-listing s rs cdp h f all =
      let (cdp₁, e₁, f₁, out₁) =
        print-Filled cdp [] help_title f (omega arith, omega arith) (omega arith) in
      let (cdp₂, e₂, f₂, out₂) =
        help_loop-Filled rs (1024 - length rs) cdp₁ help_title f₁ out₁ all
          (omega (arith, h.room)) in
      (cdp₂, rw (e₁, h.slots) e₂, f₂, out₂)
