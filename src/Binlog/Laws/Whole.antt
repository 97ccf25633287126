-- ===== src/Binlog/Laws/Whole.antt =====
-- A whole log: what binlog_prase of src/binlog/binlog_parser.c makes of a file that calls of
-- binlog_print of src/binlog/binlog.c wrote.
use cc_utils.Base.{
  ℕ, suc, ◌+◌, ◌≤◌, ◌<◌, ◌≡◌, refl, ap, ◌∙◌, true, false, Option, none, some, List, [], ◌∷◌, ◌++◌,
  ltb, arith, length, All, ◌^◌,
}
use mathlib.Core.List.{map}
use cc_utils.Base.Outcome.{Outcome, ok, ◌>>=◌}
use cc_utils.Base.Bytes.{Bytes}
use cc_utils.Binlog.{stack_size}
use cc_utils.Binlog.Record.{binlog_print, now}
use cc_utils.Binlog.Buffer.{Allocator, Tsd}
use cc_utils.Binlog.Pieces.{render, Fits}
use cc_utils.Binlog.Parser.Print.{Stdio}
use cc_utils.Binlog.Parser.Find.{Item, Timespec, clock_diff}
use cc_utils.Binlog.Parser.Loop.{Reader, Parser, prase_loop, binlog_prase, binlog_parse_read}
use cc_utils.Binlog.Parser.Create.{
  Files, Resource, log_file, json_file, output_stream, block, json_array, binlog_read_json,
  block_size, opened, create_block, create_json, create_output, create_log, binlog_parser_create,
}
use cc_utils.Base.{inr}
use cc_utils.Binlog.Laws.Growth.{Succeeds}
use cc_utils.Binlog.Laws.Valog.{limit}
use cc_utils.Binlog.Laws.Written.{record_size, binlog_print-record}
use cc_utils.Binlog.Laws.Recovered.{
  Entry, log_bytes, IsEntry, line_of, log_bytes-pos, log_bytes-length, take_all, drop_all,
  prase_loop-lines,
}

-- The parser once all of the file is in its block.
abbrev pub loaded : Bytes → Parser
loaded file = record {
  buf = file;
  size = block_size;
  offset = 0;
  rest = [];
  file_offset = length file;
  file_size = length file;
}

-- The bytes of a call that was not filtered by its level.
abbrev pub written_bytes : Option (Bytes × Tsd) → Bytes
written_bytes none = []
written_bytes (some (bytes, t)) = bytes

module _ (io : Stdio) (reader : Reader) (items : List Item) (diff : ℕ) where
  -- From the first block on, if it is the whole file: a line for each call.
  binlog_prase-lines :
      (e : Entry) (es : List Entry) (monotonic realtime : Timespec)
      → clock_diff monotonic realtime ≡ diff
      → All (IsEntry io reader items diff) (e ∷ es)
      → binlog_prase io reader items monotonic realtime (loaded (log_bytes (e ∷ es)))
        ≡ ok (
          map (line_of io reader items diff) (e ∷ es),
          record (loaded (log_bytes (e ∷ es))) { offset = length (log_bytes (e ∷ es)) },
        )
  unfolding binlog_prase
  binlog_prase-lines e es monotonic realtime clock all =
      let file : Bytes = log_bytes (e ∷ es) in
      let enough : length es < length file = log_bytes-length e es in
      ap (λ d. prase_loop io reader items d (suc (length file)) (loaded file) []) clock
      ∙ prase_loop-lines io reader items diff (suc (length file)) e es (loaded file) [] all.0 all.1
          refl refl (omega arith)
      ∙ ap
          (λ n.
            ok (map (line_of io reader items diff) (e ∷ es), record (loaded file) { offset = n }))
          {x = 0 + length file} {y = length file} (omega arith)

-- The calls of a program one behind another: each write() is at the end of the file.
unfoldable pub write_log : Allocator → Bytes → List Entry → Outcome Bytes
write_log mem stack [] = ok []
write_log mem stack (e ∷ es) = do
  written ← binlog_print mem true stack e.call (render e.pieces) e.args
  rest ← write_log mem stack es
  ok (written_bytes written ++ rest)

-- A call that binlog_print can take: the array on the stack holds the function's name, its time is in
-- range, the arguments are those of the format, and the record stays below the limit of the counters.
pub record IsWritten (e : Entry) : Type 0 where
  pub func : length e.call.func ≤ 997
  pub time : now e.call < 2 ^ 63
  pub fits : Fits e.pieces e.args
  pub small : record_size e.call e.args < limit

write_log-bytes :
    (mem : Allocator) (stack : Bytes) (es : List Entry)
    → Succeeds mem
    → length stack ≡ stack_size
    → All IsWritten es
    → write_log mem stack es ≡ ok (log_bytes es)
unfolding write_log log_bytes
write_log-bytes mem stack [] succeeds sized all = refl
write_log-bytes mem stack (e ∷ es) succeeds sized (is, all) =
    rw
      (
        binlog_print-record mem succeeds stack e.call e.pieces e.args sized is.func is.time is.fits
            is.small,
        write_log-bytes mem stack es succeeds sized all,
      )
      refl

-- What the parser holds once it is created.
abbrev pub all_held : List Resource
all_held = block ∷ json_array ∷ json_file ∷ output_stream ∷ log_file ∷ []

-- Every file opens, the log is `file`, and the JSON file holds the formats.
pub record Opens (files : Files) (file : Bytes) (items : List Item) : Type 0 where
  pub log : files.log ≡ inr file
  pub log_size : files.log_size ≡ inr (length file)
  pub output : files.output ≡ none
  pub json : binlog_read_json files files.json ≡ (inr (some items), json_array ∷ json_file ∷ [])
  pub got_buf : files.got_buf ≡ true

binlog_parse_read-whole :
    (reader : Reader) (file : Bytes)
    → 0 < length file
    → reader.read block_size (length file) ≡ length file
    → binlog_parse_read reader (opened file (length file)) ≡ ok (loaded file)
unfolding binlog_parse_read
binlog_parse_read-whole reader file some_byte whole =
    let asked : ltb 0 (length file) ≡ true = ground arith in
    let all : 0 + length file ≡ length file = omega arith in
    rw (whole, asked, take_all file, drop_all file, all) refl

binlog_parser_create-loaded :
    (reader : Reader) (files : Files) (name file : Bytes) (items : List Item)
    → length name ≤ 114
    → Opens files file items
    → 0 < length file
    → reader.read block_size (length file) ≡ length file
    → binlog_parser_create reader files name ≡ ok (inr (loaded file, some items), all_held)
unfolding binlog_parser_create create_log create_output create_json create_block binlog_read_json
binlog_parser_create-loaded reader files name file items short h some_byte whole =
    let fits : ltb 127 (13 + length name) ≡ false = ground arith in
    rw
      (
        fits,
        h.log,
        h.output,
        h.json,
        h.log_size,
        h.got_buf,
        binlog_parse_read-whole reader file some_byte whole,
      )
      refl

pub binlog_prase-write_log :
    (mem : Allocator) (io : Stdio) (reader : Reader) (files : Files) (items : List Item)
    (stack name : Bytes) (e : Entry) (es : List Entry) (monotonic realtime : Timespec)
    → Succeeds mem
    → length stack ≡ stack_size
    → length name ≤ 114
    → All IsWritten (e ∷ es)
    → All (IsEntry io reader items (clock_diff monotonic realtime)) (e ∷ es)
    → Opens files (log_bytes (e ∷ es)) items
    → reader.read block_size (length (log_bytes (e ∷ es))) ≡ length (log_bytes (e ∷ es))
    → (file : Bytes) × (start : Parser) × (end : Parser) × (write_log mem stack (e ∷ es) ≡ ok file)
      × (files.log ≡ inr file)
      × (binlog_parser_create reader files name ≡ ok (inr (start, some items), all_held))
      × (binlog_prase io reader items monotonic realtime start
          ≡ ok (map (line_of io reader items (clock_diff monotonic realtime)) (e ∷ es), end))
      × (end.offset ≡ length file)
      × (end.rest ≡ [])
binlog_prase-write_log mem io reader files items stack name e es monotonic realtime succeeds sized
      short written is opens whole =
    let diff : ℕ = clock_diff monotonic realtime in
    let file : Bytes = log_bytes (e ∷ es) in
    (
      file,
      loaded file,
      record (loaded file) { offset = length file },
      write_log-bytes mem stack (e ∷ es) succeeds sized written,
      opens.log,
      binlog_parser_create-loaded reader files name file items short opens (log_bytes-pos e es)
          whole,
      binlog_prase-lines io reader items diff e es monotonic realtime refl is,
      refl,
      refl,
    )
