-- ===== src/Binlog/Parser/Find.antt =====
-- format_fetch and timestamp_fmt of src/binlog/binlog_parser.c, and binlog_level_name of
-- include/binlog/binlog.h.
use cc_utils.Base.{
  ℕ, ◌+◌, ◌*◌, ◌/◌, ◌%◌, ◌^◌, ◌-◌, Bool, true, false, Option, none, some, List, [], ◌∷◌, ◌==◌,
  if◌then◌else◌,
}
use cc_utils.Base.Outcome.{Outcome, ok, ◌>>=◌}
use cc_utils.Base.Bytes.{Bytes, bytes_eq}
use cc_utils.Binlog.Parser.{readable}

-- An object of the JSON array: what cJSON_GetObjectItem finds under "function", "line" and
-- "format", `none` for NULL.
pub record Item : Type 0 where
  pub function : Option Bytes
  pub line : Option ℕ
  pub format : Option Bytes

-- The `line` is looked at only if the function agrees.
abbrev pub line_agrees : Bool → ℕ → Item → Outcome Bool
line_agrees false line item = ok false
line_agrees true line item = readable item.line >>= λ l. ok (line == l)

unfoldable pub format_fetch : List Item → Bytes → ℕ → Outcome (Option Bytes)
format_fetch [] func line = ok none
format_fetch (item ∷ items) func line = do
  function ← readable item.function
  agrees ← line_agrees (bytes_eq func function) line item
  let rest = format_fetch items func line
  if agrees then (readable item.format >>= λ f. ok (some f)) else rest

-- What binlog_level_name returns.
pub data LevelName : Type 0 where
  error_level warn_level info_level debug_level trace_level : LevelName

unfoldable pub binlog_level_name : ℕ → LevelName
binlog_level_name level =
    if level == 1
    then error_level
    else if level == 2
    then warn_level
    else if level == 3
    then info_level
    else if level == 4
    then debug_level
    else trace_level

-- `struct timespec`
pub record Timespec : Type 0 where
  pub tv_sec : ℕ
  pub tv_nsec : ℕ

-- `diff` of binlog_prase, a 64-bit pattern
unfoldable pub clock_diff : Timespec → Timespec → ℕ
clock_diff monotonic realtime =
    (realtime.tv_sec * 1000000
      + realtime.tv_nsec / 1000
      + (2 ^ 64 - monotonic.tv_sec * 1000000 % 2 ^ 64)
      + monotonic.tv_nsec / 1000)
    % 2 ^ 64

-- The seconds that localtime_r is given and the number behind the point, of a time that is not
-- negative.
unfoldable pub timestamp_fmt : ℕ → ℕ × ℕ
timestamp_fmt ts = (ts / 1000000, ts % 1000)
