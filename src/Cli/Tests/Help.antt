-- ===== src/Cli/Tests/Help.antt =====
-- The command "help" of a server without commands of a program.
use cc_utils.Base.{
  ℕ, zero, suc, Bool, true, false, ◌+◌, ◌<◌, ◌≡◌, refl, some, [], ◌∷◌, ◌++◌, length, replicate, All,
  arith, inl,
}
use mathlib.Core.List.{map}
use cc_utils.Base.Outcome.{ok}
use cc_utils.Base.Bytes.{Bytes, IsText}
use cc_utils.Binlog.Plenty.{plenty, plenty-Succeeds}
use cc_utils.Cli.Loopback.{Line, loopback, calm}
use cc_utils.Cli.Output.{CmdPrint}
use cc_utils.Cli.Registered.{slot_of, first_match, Holds}
use cc_utils.Cli.Listing.{Filled, IsLine, help_of}
use cc_utils.Cli.Layout.{message}
use cc_utils.Cli.Serve.{Functions, do_accept}
use cc_utils.Cli.Table.{Commands, empty}
use cc_utils.Cli.Lifetime.{help_name, help_address}
use cc_utils.Cli.Helped.{own, functions_of, listing, do_accept-help}

abbrev asking : Line
asking = record { input = message help_name [] ++ []; output = [] }

abbrev no_others : Functions
no_others f args cdp = ok cdp

abbrev digit : ℕ → Bytes
digit n = (b'0' + n) ∷ []

abbrev blank : CmdPrint
blank = record { buf = replicate 4096 0; buf_size = 4096; pos = 0 }

blank-Filled : Filled blank []
blank-Filled = record {
  printed = record {
    sized = refl;
    least = omega arith;
    ends = refl;
    inside = omega arith;
    holds = refl;
  };
  modest = inl (omega arith);
}

-- Whether no character is 0.
abbrev text_only : Bytes → Bool
text_only [] = true
text_only (zero ∷ s) = false
text_only (suc x ∷ s) = text_only s

text_only-IsText : (s : Bytes) → text_only s ≡ true → IsText s
text_only-IsText [] h = tt
text_only-IsText (zero ∷ s) h = absurd cc
text_only-IsText (suc x ∷ s) h = (ground arith, text_only-IsText s h)

-- The table that cli_create leaves.
abbrev own_table : Commands
own_table = record { slots = map slot_of own ++ replicate 1022 empty; regcnt = 2 }

own_table-Holds : Holds own_table own
own_table-Holds = record { slots = refl; count = refl; room = omega arith }

own-first_match : first_match own help_name ≡ some help_address
unfolding first_match
own-first_match = refl

own-All : All IsLine (map help_of own)
own-All = ((omega arith, omega arith), ((omega arith, omega arith), tt))

own-IsText : IsText (listing own)
own-IsText = text_only-IsText (listing own) refl

enough : length (message help_name [] ++ []) + length (listing own) + 1 < 200
unfolding message
enough = omega arith

do_accept-help_example :
    (s' : Line) × (cdp'' : CmdPrint) × (do_accept loopback plenty
        (functions_of plenty digit own_table no_others)
        200
        own_table
        (replicate 1024 0)
        blank
        asking
        7
      ≡ ok (cdp'', s'))
    × (s'.output ≡ [] ++ listing own)
do_accept-help_example =
    do_accept-help loopback calm plenty no_others digit 200 own_table own (replicate 1024 0) blank
      asking asking 7 3 [] plenty-Succeeds own_table-Holds own-first_match blank-Filled own-All
      own-IsText refl refl refl enough
