-- ===== src/Binlog/Tests/Program.antt =====
-- The parser as a program, and a handle that is given back.
use cc_utils.Base.{ℕ, ◌≡◌, refl, true, none, some, List, [], ◌∷◌, arith}
use mathlib.Core.List.{map}
use cc_utils.Base.Outcome.{ok}
use cc_utils.Base.Bytes.{Bytes}
use cc_utils.Binlog.Plenty.{plenty, plenty-Succeeds}
use cc_utils.Binlog.Laws.Recovered.{line_of}
use cc_utils.Binlog.Laws.Whole.{write_log}
use cc_utils.Base.{inr}
use cc_utils.Binlog.Tests.Sample.{
  whole_reader, one_digit, first_entry, second_entry, items, monotonic, realtime, diff, stack,
  first_IsEntry, second_IsEntry, first_IsWritten, second_IsWritten, both_read, files, files-Opens,
}
use cc_utils.Base.{◌⊎◌, Option, inl, ap, sym, ◌∙◌}
use cc_utils.Base.Int.{pos}
use cc_utils.Binlog.Parser.Create.{json_file, output_stream}
use cc_utils.Binlog.Parser.Main.{take_option, take_options, main}
use cc_utils.Binlog.Laws.Program.{IsComplete, main-write_log}
use cc_utils.Binlog.Handle.{System, binlog_create}
use cc_utils.Binlog.Laws.Held.{Holdings, Same, given_back, binlog_destroy-binlog_create}

-- "-j c -f a -o b"
abbrev options : List (ℕ × Bytes)
options = (b'j', b'c' ∷ []) ∷ (b'f', b'a' ∷ []) ∷ (b'o', b'b' ∷ []) ∷ []

options-IsComplete : IsComplete (b'a' ∷ []) (b'b' ∷ []) (b'c' ∷ []) options
unfolding take_options take_option
options-IsComplete = refl

main-write_log_example :
    (file : Bytes) × (write_log plenty stack (first_entry ∷ second_entry ∷ []) ≡ ok file)
    × (files.log ≡ inr file)
    × (main one_digit whole_reader monotonic realtime (λ json name output. files) true options
        ≡ ok (
          pos 0,
          map (line_of one_digit whole_reader items diff) (first_entry ∷ second_entry ∷ []),
          json_file ∷ output_stream ∷ [],
        ))
main-write_log_example =
    main-write_log plenty one_digit whole_reader (λ json name output. files) items stack (b'a' ∷ [])
      (b'b' ∷ []) (b'c' ∷ []) options first_entry (second_entry ∷ []) monotonic realtime
      plenty-Succeeds refl options-IsComplete (omega arith)
      (first_IsWritten, (second_IsWritten, tt)) (first_IsEntry, (second_IsEntry, tt)) files-Opens
      both_read

-- A process that holds a block and two descriptors; every call succeeds.
record Process : Type 0 where
  blocks : List ℕ
  fds : List ℕ

abbrev rest_of : List ℕ → List ℕ
rest_of [] = []
rest_of (x ∷ xs) = xs

abbrev process : System
process = record {
  State = Process;
  malloc = λ s. (some 9, record s { blocks = 9 ∷ s.blocks });
  free = λ s a. record s { blocks = rest_of s.blocks };
  open_file = λ s path. (inr 4, record s { fds = 4 ∷ s.fds });
  close = λ s fd. record s { fds = rest_of s.fds };
}

abbrev idle : Process
idle = record { blocks = 7 ∷ []; fds = 2 ∷ 1 ∷ [] }

not_none : {A : Type 0} {a : A} → some a ≡ none → ⊥
not_none {a} h = cc

abbrev granted_fd : ℕ → ℕ ⊎ ℕ
granted_fd fd = inr fd

not_failed : {fd e : ℕ} → granted_fd fd ≡ inl e → ⊥
not_failed {fd} {e} h = cc

abbrev number : Option ℕ → ℕ
number none = 0
number (some n) = n

abbrev descriptor : ℕ ⊎ ℕ → ℕ
descriptor (inl e) = 0
descriptor (inr n) = n

abbrev process_Holdings : Holdings process
process_Holdings = record {
  blocks = λ s. s.blocks;
  fds = λ s. s.fds;
  malloc_none = λ s s' h. absurd (not_none (ap (λ p. p.0) h));
  malloc_some = λ s s' a h.
      (ap (λ p. p.1.blocks) (sym h) ∙ ap (λ r. number r.0 ∷ s.blocks) h, ap (λ p. p.1.fds) (sym h));
  open_failed = λ s s' path e h. absurd (not_failed (ap (λ p. p.0) h));
  open_done = λ s s' path fd h. (
    ap (λ p. p.1.blocks) (sym h),
    ap (λ p. p.1.fds) (sym h) ∙ ap (λ r. descriptor r.0 ∷ s.fds) h,
  );
  freed = λ s a rest h. (ap rest_of h, refl);
  closed = λ s fd rest h. (refl, ap rest_of h);
}

binlog_destroy-binlog_create_example :
    Same process process_Holdings idle
      (given_back process process_Holdings (binlog_create process idle (b'a' ∷ [])))
binlog_destroy-binlog_create_example =
    binlog_destroy-binlog_create process process_Holdings idle (b'a' ∷ [])
