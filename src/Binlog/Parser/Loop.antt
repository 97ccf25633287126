-- ===== src/Binlog/Parser/Loop.antt =====
-- binlog_parse_read and binlog_prase of src/binlog/binlog_parser.c: records are read from the file
-- through a block of memory, taken apart and printed.
use cc_utils.Base.{
  ℕ, zero, suc, ◌+◌, ◌-◌, ◌%◌, ◌^◌, ◌≤◌, ◌&&◌, Option, none, some, List, [], ◌∷◌, ◌++◌, ltb, ◌==◌,
  if◌then◌else◌, length, take, drop, min,
}
use cc_utils.Base.Outcome.{Outcome, ok, fault, out_of_fuel, ◌>>=◌, ◌>>◌, assert}
use cc_utils.Base.Bytes.{Bytes, read_word, c_string}
use cc_utils.Binlog.Parser.{readable}
use cc_utils.Binlog.Parser.Print.{Stdio, Output, print_format}
use cc_utils.Binlog.Parser.Find.{
  Item, format_fetch, LevelName, binlog_level_name, Timespec, clock_diff, timestamp_fmt,
}

-- read(2) of a regular file: how many bytes it returns of those asked for, with this many left in
-- the file.
pub record Reader : Type 0 where
  pub read : ℕ → ℕ → ℕ
  pub read_bound : (asked left : ℕ) → read asked left ≤ min asked left

-- `binlog_parser_t`. `buf` holds the bytes that were read, `read_size` of them: what lies behind
-- them in the block is stale, and reading it counts as a fault. `rest` is what is left of the file.
pub record Parser : Type 0 where
  pub buf : Bytes
  pub size : ℕ
  pub offset : ℕ
  pub rest : Bytes
  pub file_offset : ℕ
  pub file_size : ℕ

abbrev pub read_size : Parser → ℕ
read_size p = length p.buf

-- One line of the output: time, level, thread, the formatted text, and its place in the source.
pub record Line : Type 0 where
  pub time : ℕ × ℕ
  pub level : LevelName
  pub thread : ℕ
  pub text : List Output
  pub func : Bytes
  pub line : ℕ

-- A record's fields, and where its arguments begin.
pub record Header : Type 0 where
  pub level : ℕ
  pub func : Bytes
  pub line : ℕ
  pub thread : ℕ
  pub ts : ℕ
  pub offset : ℕ

-- Read into the block behind the bytes `kept`; read() has to return something.
abbrev pub read_behind : Reader → Parser → Bytes → Outcome Parser
read_behind reader p kept =
    let n = reader.read (p.size - length kept) (length p.rest) in
    assert (ltb 0 n)
    >> ok (record p {
      buf = kept ++ take n p.rest;
      offset = 0;
      rest = drop n p.rest;
      file_offset = p.file_offset + n;
    })

-- The bytes that are left over are moved to the front by memcpy, which must not overlap.
unfoldable pub binlog_parse_read : Reader → Parser → Outcome Parser
binlog_parse_read reader p =
    if p.file_offset == 0
    then read_behind reader p []
    else if ltb p.offset (read_size p - p.offset)
    then fault
    else read_behind reader p (drop p.offset p.buf)

-- The length is an `int32_t`; a negative one would lead back in front of the record, and counts as
-- a fault.
abbrev pub int_length : Option ℕ → Outcome ℕ
int_length none = fault
int_length (some n) = if ltb n (2 ^ 31) then ok n else fault

-- The fields behind the length.
unfoldable pub read_header : Bytes → Outcome Header
read_header b = do
  level ← readable (read_word 1 (drop 5 b))
  func ← readable (c_string (drop 6 b))
  let at_line = 6 + (length func + 1)
  line ← readable (read_word 4 (drop at_line b))
  thread ← readable (read_word 8 (drop (at_line + 4) b))
  ts ← readable (read_word 8 (drop (at_line + 4 + 8) b))
  ok (record {
    level = level;
    func = func;
    line = line;
    thread = thread;
    ts = ts;
    offset = at_line + 4 + 8 + 8;
  })

-- A null format is printed too: print_format reads through it.
abbrev pub present_format : Option Bytes → Outcome Bytes
present_format none = fault
present_format (some f) = ok f

module _ (io : Stdio) (reader : Reader) (items : List Item) (diff : ℕ) where
  -- The body of the loop for a record that is in the block.
  unfoldable pub parse_record : ℕ → Bytes → Outcome Line
  parse_record len buffer = do
    h ← read_header buffer
    found ← format_fetch items h.func h.line
    format ← present_format found
    (text, _) ← print_format io format (record { len = len; off = h.offset; buf = buffer })
    ok (record {
      time = timestamp_fmt ((h.ts + diff) % 2 ^ 64);
      level = binlog_level_name h.level;
      thread = h.thread;
      text = text;
      func = h.func;
      line = h.line;
    })

  -- One round of the loop: more is read where nothing is left, and where the record does not lie
  -- in the block. Also the line, and the parser behind the record.
  unfoldable pub prase_round : Parser → Outcome (Line × Parser)
  prase_round p = do
    p ← if p.offset == read_size p then binlog_parse_read reader p else ok p
    len ← int_length (read_word 4 (drop (p.offset + 1) p.buf))
    p ← if ltb (read_size p) (len + p.offset) then binlog_parse_read reader p else ok p
    line ← parse_record len (drop p.offset p.buf)
    ok (line, record p { offset = p.offset + len })

  -- The loop, with the rounds that are left.
  unfoldable pub prase_loop : ℕ → Parser → List Line → Outcome (List Line × Parser)
  prase_loop zero p out = out_of_fuel
  prase_loop (suc fuel) p out = do
    (line, p) ← prase_round p
    let rest = prase_loop fuel p (out ++ (line ∷ []))
    if p.file_offset == p.file_size && p.offset == read_size p
        then ok (out ++ (line ∷ []), p)
        else rest

-- The loop between the readings of the clocks and the end: a record takes a byte of the file at
-- least.
unfoldable pub binlog_prase :
    Stdio → Reader → List Item → Timespec → Timespec → Parser → Outcome (List Line × Parser)
binlog_prase io reader items monotonic realtime p =
    prase_loop io reader items (clock_diff monotonic realtime) (suc p.file_size) p []
