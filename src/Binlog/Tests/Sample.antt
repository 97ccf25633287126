-- ===== src/Binlog/Tests/Sample.antt =====
-- A small program with two calls, its log, and the formats of the calls.
use cc_utils.Base.{
  ℕ, ◌+◌, ◌^◌, ◌%◌, ◌≡◌, refl, true, none, some, List, [], ◌∷◌, arith, length, replicate, min,
}
use cc_utils.Base.Bytes.{Bytes}
use cc_utils.Binlog.{is_digit, Arg, int_arg, string_arg, int, string}
use cc_utils.Binlog.Record.{Call}
use cc_utils.Binlog.Pieces.{
  star, digits, absent, Conversion, Piece, literal, conversion, render, Fits, end, text, item,
  plain, starred, IsConversion,
}
use cc_utils.Binlog.Parser.Print.{Stdio}
use cc_utils.Binlog.Parser.Find.{Item, Timespec, clock_diff, format_fetch}
use cc_utils.Binlog.Parser.Loop.{Reader}
use cc_utils.Binlog.Laws.Growth.{encode_arg}
use cc_utils.Binlog.Laws.Valog.{encode_args}
use cc_utils.Binlog.Laws.Written.{record_size, fields, record_bytes}
use cc_utils.Binlog.Laws.Printing.{shown, shown_conversion}
use cc_utils.Binlog.Laws.Header.{IsCall}
use cc_utils.Binlog.Laws.Recovered.{Entry, IsEntry, log_bytes}
use cc_utils.Binlog.Laws.Whole.{IsWritten, Opens}
use cc_utils.Binlog.Parser.Create.{Files, binlog_read_json}
use cc_utils.Base.{inr}

pub last_digit : (n : ℕ) → is_digit (b'0' + n % 10) ≡ true
last_digit n = ground arith

-- A reader that brings what is asked for, and an fprintf that prints as many characters as the
-- specifier has.
abbrev pub whole_reader : Reader
whole_reader = record { read = min; read_bound = λ asked left. omega arith }

abbrev pub one_digit : Stdio
one_digit = record {
  sprintf_d = λ n. (b'0' + n % 10) ∷ [];
  digits = λ n. (last_digit n, tt);
  fprintf = λ spec a. some (length spec);
}

-- `binlog_print(3, "f", 7, "n=%*d", 5, 42)` and `binlog_print(1, "g", 9, "%s", "hi")`
abbrev pub first_call : Call
first_call = record {
  level = 3;
  func = b'f' ∷ [];
  line = 7;
  tv_sec = 10;
  tv_nsec = 2000;
  self = 77;
}

abbrev pub second_call : Call
second_call = record {
  level = 1;
  func = b'g' ∷ [];
  line = 9;
  tv_sec = 11;
  tv_nsec = 5000;
  self = 78;
}

abbrev pub star_d : Conversion
star_d = record { flags = []; width = star; precision = absent; lengths = []; letter = b'd' }

abbrev pub plain_s : Conversion
plain_s = record { flags = []; width = digits []; precision = absent; lengths = []; letter = b's' }

abbrev pub first_pieces : List Piece
first_pieces = literal b'n' ∷ literal b'=' ∷ conversion star_d ∷ []

abbrev pub first_args : List Arg
first_args = int_arg 5 ∷ int_arg 42 ∷ []

abbrev pub second_pieces : List Piece
second_pieces = conversion plain_s ∷ []

abbrev pub second_args : List Arg
second_args = string_arg (b'h' ∷ b'i' ∷ []) ∷ []

abbrev pub first_entry : Entry
first_entry = record { call = first_call; pieces = first_pieces; args = first_args }

abbrev pub second_entry : Entry
second_entry = record { call = second_call; pieces = second_pieces; args = second_args }

pub star_d-IsConversion : IsConversion star_d int
star_d-IsConversion = record {
  flags = refl;
  width = refl;
  precision = refl;
  lengths = refl;
  letter = refl;
  typed = refl;
  flags_ok = refl;
  defined = refl;
}

pub plain_s-IsConversion : IsConversion plain_s string
plain_s-IsConversion = record {
  flags = refl;
  width = refl;
  precision = refl;
  lengths = refl;
  letter = refl;
  typed = refl;
  flags_ok = refl;
  defined = refl;
}

pub first-Fits : Fits first_pieces first_args
first-Fits = text b'n' refl (
    text b'=' refl (
      item star_d first_args (starred 5 (int_arg 42) (omega arith) refl star_d-IsConversion refl)
        end))

pub second-Fits : Fits second_pieces second_args
second-Fits =
    item plain_s second_args
      (plain [] (string_arg (b'h' ∷ b'i' ∷ [])) refl plain_s-IsConversion refl) end

abbrev pub items : List Item
items =
    (record { function = some (b'g' ∷ []); line = some 9; format = some (render second_pieces) })
    ∷ (record { function = some (b'f' ∷ []); line = some 7; format = some (render first_pieces) })
    ∷ []

abbrev pub monotonic : Timespec
monotonic = record { tv_sec = 100; tv_nsec = 3000000 }

abbrev pub realtime : Timespec
realtime = record { tv_sec = 5000; tv_nsec = 4000000 }

abbrev pub diff : ℕ
diff = clock_diff monotonic realtime

abbrev pub stack : Bytes
stack = replicate 1024 0

pub first_IsCall : IsCall first_call
first_IsCall = record {
  func = (refl, tt);
  line = omega arith;
  self = omega arith;
  time = omega arith;
}

pub second_IsCall : IsCall second_call
second_IsCall = record {
  func = (refl, tt);
  line = omega arith;
  self = omega arith;
  time = omega arith;
}

pub first_IsEntry : IsEntry one_digit whole_reader items diff first_entry
unfolding render record_size encode_args encode_arg format_fetch shown shown_conversion
first_IsEntry = record {
  call = first_IsCall;
  fits = first-Fits;
  args = (omega arith, (omega arith, tt));
  prints = (omega arith, (3, refl), tt);
  small = omega arith;
  found = refl;
}

pub second_IsEntry : IsEntry one_digit whole_reader items diff second_entry
unfolding render record_size encode_args encode_arg format_fetch shown shown_conversion
second_IsEntry = record {
  call = second_IsCall;
  fits = second-Fits;
  args = ((refl, (refl, tt)), tt);
  prints = (omega arith, (2, refl), tt);
  small = omega arith;
  found = refl;
}

pub first_IsWritten : IsWritten first_entry
unfolding record_size encode_args encode_arg
first_IsWritten = record {
  func = omega arith;
  time = omega arith;
  fits = first-Fits;
  small = omega arith;
}

pub second_IsWritten : IsWritten second_entry
unfolding record_size encode_args encode_arg
second_IsWritten = record {
  func = omega arith;
  time = omega arith;
  fits = second-Fits;
  small = omega arith;
}

pub both_read :
    whole_reader.read (2 ^ 22) (length (log_bytes (first_entry ∷ second_entry ∷ [])))
    ≡ length (log_bytes (first_entry ∷ second_entry ∷ []))
unfolding log_bytes record_bytes fields record_size encode_args encode_arg
both_read = refl

abbrev pub files : Files
files = record {
  log = inr (log_bytes (first_entry ∷ second_entry ∷ []));
  log_size = inr (length (log_bytes (first_entry ∷ second_entry ∷ [])));
  output = none;
  json = inr (b'[' ∷ b']' ∷ []);
  json_read = true;
  got_buf = true;
  parse = λ json. items;
}

pub files-Opens : Opens files (log_bytes (first_entry ∷ second_entry ∷ [])) items
unfolding binlog_read_json
files-Opens = record { log = refl; log_size = refl; output = refl; json = refl; got_buf = refl }
