-- ===== src/Binlog/Laws/Program.antt =====
-- The parser as a program: main of src/binlog/binlog_parser.c on the log of a program that called
-- binlog_print of src/binlog/binlog.c.
use cc_utils.Base.{ℕ, ◌≤◌, ◌≡◌, refl, true, some, inr, List, [], ◌∷◌, length, All}
use mathlib.Core.List.{map}
use cc_utils.Base.Outcome.{ok}
use cc_utils.Base.Int.{pos}
use cc_utils.Base.Bytes.{Bytes}
use cc_utils.Binlog.{stack_size}
use cc_utils.Binlog.Buffer.{Allocator}
use cc_utils.Binlog.Parser.Print.{Stdio}
use cc_utils.Binlog.Parser.Find.{Item, Timespec, clock_diff}
use cc_utils.Binlog.Parser.Loop.{Reader}
use cc_utils.Binlog.Parser.Create.{
  Files, json_file, output_stream, block_size, binlog_parser_destroy,
}
use cc_utils.Binlog.Parser.Main.{no_names, take_options, parse_log, with_names, main}
use cc_utils.Binlog.Laws.Growth.{Succeeds}
use cc_utils.Binlog.Laws.Recovered.{Entry, log_bytes, IsEntry, line_of}
use cc_utils.Binlog.Laws.Whole.{write_log, IsWritten, Opens, binlog_prase-write_log}

-- A command line with the three options.
abbrev pub IsComplete : Bytes → Bytes → Bytes → List (ℕ × Bytes) → Type 0
IsComplete name output json opts =
    (take_options true opts no_names
      ≡ some (record { name = some name; output = some output; json = some json }))

-- The parser, given the log, the JSON file and the output file in any order of the options, prints a
-- line for each call that the log's program made and returns 0. It ends with the output stream and the
-- JSON file's descriptor open. One read() brings the log into the parser's block of 4 MB, no allocation
-- fails and every file opens; a call's values fit their types and its time in microseconds a `time_t`;
-- its format is a list of literal characters and of conversions with the letters d, i, o, u, x, X, c, e,
-- E, f, g, G, s and p, as Binlog.Pieces describes them (no `%%`, no precision `*`, no lengths z, t, j
-- and L) with the arguments that they take, and is the one that the JSON array has under its function
-- and line. The log's name has at most 114 characters and a function's at most 997, a record stays below
-- the limit of the counters, the specifiers fit their array, fprintf does not fail, and the `int` of an
-- asterisk is not the least one. `char` is signed.
pub main-write_log :
    (mem : Allocator) (io : Stdio) (reader : Reader) (files : Bytes → Bytes → Bytes → Files)
    (items : List Item) (stack name output json : Bytes) (opts : List (ℕ × Bytes)) (e : Entry)
    (es : List Entry) (monotonic realtime : Timespec)
    → Succeeds mem
    → length stack ≡ stack_size
    → IsComplete name output json opts
    → length name ≤ 114
    → All IsWritten (e ∷ es)
    → All (IsEntry io reader items (clock_diff monotonic realtime)) (e ∷ es)
    → Opens (files json name output) (log_bytes (e ∷ es)) items
    → reader.read block_size (length (log_bytes (e ∷ es))) ≡ length (log_bytes (e ∷ es))
    → (file : Bytes) × (write_log mem stack (e ∷ es) ≡ ok file)
      × ((files json name output).log ≡ inr file)
      × (main io reader monotonic realtime files true opts
          ≡ ok (
            pos 0,
            map (line_of io reader items (clock_diff monotonic realtime)) (e ∷ es),
            json_file ∷ output_stream ∷ [],
          ))
unfolding main with_names parse_log binlog_parser_destroy
main-write_log mem io reader files items stack name output json opts e es monotonic realtime
      succeeds sized complete short written is opens whole =
    let (file, start, end, wrote, log, created, prased, _, _) =
      binlog_prase-write_log mem io reader (files json name output) items stack name e es monotonic
        realtime succeeds sized short written is opens whole in
    (file, wrote, log, rw (complete, created, prased) refl)
