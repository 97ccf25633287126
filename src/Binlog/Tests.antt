-- ===== src/Binlog/Tests.antt =====
-- Runs of the binary log on a small program with two calls, and the theorems at these calls.
mod Sample
mod Program
use cc_utils.Base.{
  ℕ, ◌+◌, ◌-◌, ◌*◌, ◌^◌, ◌≤◌, ◌<◌, ◌≡◌, refl, true, none, some, List, [], ◌∷◌, ◌++◌, arith, length,
  replicate, min, ◌%◌, ◌/◌,
}
use cc_utils.Base.Outcome.{ok, fault}
use cc_utils.Base.Bytes.{Bytes}
use cc_utils.Binlog.{Arg, int_arg, string_arg, int, string}
use cc_utils.Binlog.Buffer.{Tsd, binlog_maybe_realloc, print_arg}
use cc_utils.Binlog.Format.{do_valog}
use cc_utils.Binlog.Record.{Call, binlog_print}
use cc_utils.Binlog.Pieces.{
  star, digits, absent, Conversion, Piece, literal, conversion, render, Fits, text, item, plain,
  starred, IsConversion,
}
use cc_utils.Binlog.Parser.{VaList, get_arg}
use cc_utils.Binlog.Parser.Print.{Stdio}
use cc_utils.Binlog.Parser.Find.{Item, Timespec, clock_diff, format_fetch}
use cc_utils.Binlog.Parser.Loop.{Reader, Parser, parse_record}
use cc_utils.Binlog.Laws.Growth.{encode_arg, Holds, binlog_maybe_realloc-Holds, print_arg-Holds}
use cc_utils.Binlog.Laws.Valog.{encode_args, Ready, limit, do_valog-encode}
use cc_utils.Binlog.Laws.Written.{
  record_size, fields, record_bytes, cleared, binlog_print-record, binlog_print-overrun,
}
use cc_utils.Binlog.Plenty.{plenty, plenty-Succeeds}
use cc_utils.Binlog.Laws.Reads.{At, forward, get_arg-encoded}
use cc_utils.Binlog.Laws.Printing.{shown_conversion}
use cc_utils.Binlog.Laws.Header.{IsCall}
use cc_utils.Binlog.Laws.Recovered.{Entry, IsEntry, log_bytes}
use cc_utils.Binlog.Laws.Whole.{IsWritten, Opens}
use cc_utils.Binlog.Parser.Create.{Files, binlog_read_json}
use cc_utils.Binlog.Laws.Faults.{micros, clock_diff-drift, parse_record-missing}
use cc_utils.Binlog.Tests.Sample.{
  first_call, first_pieces, first_args, first-Fits, stack, first_IsCall, first_IsWritten,
}

binlog_print-record_example :
    binlog_print plenty true stack first_call (render first_pieces) first_args
    ≡ ok (some (record_bytes first_call first_args, cleared))
binlog_print-record_example =
    binlog_print-record plenty plenty-Succeeds stack first_call first_pieces first_args refl
      first_IsWritten.func first_IsWritten.time first-Fits first_IsWritten.small

abbrev long_call : Call
long_call = record first_call { func = replicate 998 b'f' }

-- The thread's buffer with one byte in it.
abbrev begun : Tsd
begun = record { buf = 0xfd ∷ replicate 1023 0; size = 1024; offset = 1 }

begun-Holds : Holds begun (0xfd ∷ [])
begun-Holds = record { sized = refl; least = omega arith; ends = refl; holds = refl }

first_small : length {A = ℕ} (0xfd ∷ []) + length (encode_args first_args) < limit
unfolding encode_args encode_arg
first_small = omega arith

do_valog-encode_example :
    (t' : Tsd) × (do_valog plenty begun (render first_pieces) first_args
      ≡ ok (length (encode_args first_args), t'))
    × Ready t' ((0xfd ∷ []) ++ encode_args first_args)
do_valog-encode_example =
    do_valog-encode plenty plenty-Succeeds first_pieces first_args begun (0xfd ∷ []) first-Fits
      (record { holds = begun-Holds; inside = omega arith }) first_small

h_small : 1 + length (encode_arg (string_arg (b'h' ∷ []))) < 2 ^ 30 - 1024
unfolding encode_arg
h_small = omega arith

print_arg-Holds_example :
    (t' : Tsd) × (print_arg plenty begun (string_arg (b'h' ∷ []))
      ≡ ok (length (encode_arg (string_arg (b'h' ∷ []))), t'))
    × Holds t' ((0xfd ∷ []) ++ encode_arg (string_arg (b'h' ∷ [])))
    × (t'.offset ≡ 1 + length (encode_arg (string_arg (b'h' ∷ []))))
    × (t'.offset ≤ t'.size)
print_arg-Holds_example =
    print_arg-Holds plenty plenty-Succeeds begun (0xfd ∷ []) (string_arg (b'h' ∷ [])) begun-Holds
      (omega arith) h_small

abbrev first_list : VaList
first_list = record { len = 12; off = 2; buf = 0 ∷ 0 ∷ (encode_args first_args ++ (0xff ∷ [])) }

abbrev word_list : VaList
word_list = record { len = 6; off = 1; buf = 9 ∷ (encode_arg (int_arg 42) ++ (0xff ∷ [])) }

word_At : At word_list (encode_arg (int_arg 42) ++ []) (0xff ∷ [])
unfolding encode_arg
word_At = record { bytes = refl; inside = omega arith }

get_arg-encoded_example :
    (get_arg int word_list ≡ ok (int_arg 42, forward word_list (length (encode_arg (int_arg 42)))))
    × At (forward word_list (length (encode_arg (int_arg 42)))) [] (0xff ∷ [])
get_arg-encoded_example =
    get_arg-encoded int (int_arg 42) word_list [] (0xff ∷ []) refl (omega arith) word_At

none_found : format_fetch [] first_call.func first_call.line ≡ ok none
unfolding format_fetch
none_found = refl
