-- ===== src/Binlog/Laws/Faults.antt =====
-- Where binlog_prase of src/binlog/binlog_parser.c does not do what it means to: the clock that it
-- puts a record's time to, and a record whose format is missing.
use cc_utils.Base.{ℕ, ◌+◌, ◌*◌, ◌/◌, ◌%◌, ◌^◌, ◌<◌, ◌≡◌, none, List, ◌++◌, arith}
use cc_utils.Base.Outcome.{ok, fault}
use cc_utils.Base.Bytes.{Bytes}
use cc_utils.Binlog.{Arg}
use cc_utils.Binlog.Record.{Call}
use cc_utils.Binlog.Parser.Print.{Stdio}
use cc_utils.Binlog.Parser.Find.{Item, format_fetch, Timespec, clock_diff}
use cc_utils.Binlog.Parser.Loop.{Reader, parse_record}
use cc_utils.Binlog.Laws.Written.{record_size, record_bytes}
use cc_utils.Binlog.Laws.Header.{IsCall, read_header-record}

-- The time of a clock in microseconds.
abbrev pub micros : Timespec → ℕ
micros t = t.tv_sec * 1000000 + t.tv_nsec / 1000

-- The time that is shown for a record: a call `later` microseconds after the two clocks were read
-- together is put to a time that is too late by twice the microseconds within the second of the
-- monotonic clock, since `diff` adds them where it means to subtract.
pub clock_diff-drift :
    (monotonic realtime : Timespec) (later : ℕ)
    → micros monotonic < 2 ^ 62
    → micros realtime + later + 2 * (monotonic.tv_nsec / 1000) < 2 ^ 64
    → (micros monotonic + later + clock_diff monotonic realtime) % 2 ^ 64
      ≡ micros realtime + later + 2 * (monotonic.tv_nsec / 1000)
unfolding clock_diff
clock_diff-drift monotonic realtime later small room = omega arith

-- A record of a call whose format is not in the JSON array makes the parser read through a null
-- pointer, although the message before it says that the record is skipped.
pub parse_record-missing :
    (io : Stdio) (reader : Reader) (items : List Item) (diff : ℕ) (c : Call) (args : List Arg)
    (more : Bytes)
    → IsCall c
    → format_fetch items c.func c.line ≡ ok none
    → parse_record io reader items diff (record_size c args) (record_bytes c args ++ more) ≡ fault
unfolding parse_record
parse_record-missing io reader items diff c args more is missing =
    let (h, at) = read_header-record c args more is in rw (h, missing)
