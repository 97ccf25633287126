-- ===== src/Binlog/Parser/Main.antt =====
-- main of src/binlog/binlog_parser.c: the command line, the log from its first record to its last, and
-- what is given back. The usage text is left out.
use cc_utils.Base.{ℕ, Bool, Option, none, some, List, [], ◌∷◌, ◌==◌, if◌then◌else◌, inl, inr}
use cc_utils.Base.Outcome.{Outcome, ok, ◌>>=◌}
use cc_utils.Base.Bytes.{Bytes}
use cc_utils.Base.Int.{ℤ, pos, negsuc}
use cc_utils.Binlog.Parser.Print.{Stdio}
use cc_utils.Binlog.Parser.Find.{Item, Timespec}
use cc_utils.Binlog.Parser.Loop.{Reader, Line, binlog_prase}
use cc_utils.Binlog.Parser.Create.{
  Files, Resource, Created, binlog_parser_create, binlog_parser_destroy,
}

-- `name`, `output` and `json`: `none` is NULL.
pub record Names : Type 0 where
  pub name : Option Bytes
  pub output : Option Bytes
  pub json : Option Bytes

abbrev pub no_names : Names
no_names = record { name = none; output = none; json = none }

-- An option with its argument: any other one shows the usage and ends the program.
unfoldable pub take_option : Names → ℕ → Bytes → Option Names
take_option names opt optarg =
    if opt == b'f'
    then some (record names { name = some optarg })
    else if opt == b'o'
    then some (record names { output = some optarg })
    else if opt == b'j'
    then some (record names { json = some optarg })
    else none

abbrev pub unless_usage : (Names → Option Names) → Option Names → Option Names
unless_usage rest none = none
unless_usage rest (some names) = rest names

-- The loop over what getopt() returns. Its -1 at the end is compared behind a `char`: where that is not
-- signed it is 255, and an option like any other.
unfoldable pub take_options : Bool → List (ℕ × Bytes) → Names → Option Names
take_options signed [] names = if signed then some names else none
take_options signed ((opt, optarg) ∷ opts) names =
    unless_usage (λ names. take_options signed opts names) (take_option names opt optarg)

-- The names, once all three are there.
abbrev pub all_three : Option Bytes → Option Bytes → Option Bytes → Option (Bytes × Bytes × Bytes)
all_three (some name) (some output) (some json) = some (name, output, json)
all_three _ _ _ = none

abbrev pub all_names : Option Names → Option (Bytes × Bytes × Bytes)
all_names none = none
all_names (some names) = all_three names.name names.output names.json

abbrev pub items_of : Option (List Item) → List Item
items_of none = []
items_of (some items) = items

-- What the program leaves: its status, the lines that it printed and what it still holds.
abbrev pub Ended : Type 0
Ended = ℤ × List Line × List Resource

module _ (io : Stdio) (reader : Reader) (monotonic realtime : Timespec) where
  unfoldable pub parse_log : Created → Outcome Ended
  parse_log (inl rc, held) = ok (rc, [], held)
  parse_log (inr (p, items), held) = do
    (lines, _) ← binlog_prase io reader (items_of items) monotonic realtime p
    ok (pos 0, lines, binlog_parser_destroy held)

  -- `files` are those of the three names.
  module _ (files : Bytes → Bytes → Bytes → Files) where
    unfoldable pub with_names : Option (Bytes × Bytes × Bytes) → Outcome Ended
    with_names none = ok (negsuc 0, [], [])
    with_names (some (name, output, json)) =
        binlog_parser_create reader (files json name output) name >>= parse_log

    unfoldable pub main : Bool → List (ℕ × Bytes) → Outcome Ended
    main signed opts = with_names (all_names (take_options signed opts no_names))
