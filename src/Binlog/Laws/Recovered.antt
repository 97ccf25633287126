-- ===== src/Binlog/Laws/Recovered.antt =====
-- A log read back: what binlog_prase of src/binlog/binlog_parser.c makes of the records that
-- binlog_print of src/binlog/binlog.c wrote.
use cc_utils.Base.{
  ℕ, zero, suc, ◌+◌, ◌-◌, ◌%◌, ◌^◌, ◌<◌, ◌≡◌, refl, ap, ◌∙◌, sym, true, false, some, List, [], ◌∷◌,
  ◌++◌, append-nil, append_assoc, ltb, ◌==◌, arith, length, length-append, take, drop, drop-append,
  drop-add, length-drop, All, ==_refl,
}
use mathlib.Core.List.{map}
use cc_utils.Base.Outcome.{ok}
use cc_utils.Base.Bytes.{Bytes, read_word, read_word-word}
use cc_utils.Binlog.{Arg, blog_end}
use cc_utils.Binlog.Record.{Call, now}
use cc_utils.Binlog.Pieces.{Piece, render, Fits}
use cc_utils.Binlog.Parser.Print.{Stdio}
use cc_utils.Binlog.Parser.Find.{Item, format_fetch, binlog_level_name, timestamp_fmt}
use cc_utils.Binlog.Parser.Loop.{
  Reader, Parser, Line, int_length, parse_record, prase_round, prase_loop,
}
use cc_utils.Binlog.Laws.Valog.{encode_args}
use cc_utils.Binlog.Laws.Written.{record_size, record_bytes, length-record_bytes}
use cc_utils.Binlog.Laws.Reads.{IsArg, At}
use cc_utils.Binlog.Laws.Printing.{shown, Prints, print_format-shown}
use cc_utils.Binlog.Laws.Header.{
  IsCall, header_of, words, FitsWord4, read_header-record, record_bytes-split, header_inside,
  record_size-pos,
}

-- A call of binlog_print with its format and arguments.
pub record Entry : Type 0 where
  pub call : Call
  pub pieces : List Piece
  pub args : List Arg

-- The bytes of a log: its records one behind another.
unfoldable pub log_bytes : List Entry → Bytes
log_bytes [] = []
log_bytes (e ∷ es) = record_bytes e.call e.args ++ log_bytes es

pub log_bytes-pos : (e : Entry) (es : List Entry) → 0 < length (log_bytes (e ∷ es))
unfolding log_bytes
log_bytes-pos e es =
    let some_byte : 0 < record_size e.call e.args = record_size-pos e.call e.args in
    omega (
      arith,
      length-append (record_bytes e.call e.args) (log_bytes es),
      length-record_bytes e.call e.args,
    )

-- A record takes a byte at least.
pub log_bytes-length : (e : Entry) (es : List Entry) → length es < length (log_bytes (e ∷ es))
unfolding log_bytes
log_bytes-length e [] = log_bytes-pos e []
log_bytes-length e (e' ∷ es) =
    let some_byte : 0 < record_size e.call e.args = record_size-pos e.call e.args in
    omega (
      arith,
      log_bytes-length e' es,
      length-append (record_bytes e.call e.args) (log_bytes (e' ∷ es)),
      length-record_bytes e.call e.args,
    )

reaches : (a b : ℕ) → a ≡ b → (a == b) ≡ true
reaches a b h = rw h (==_refl b)

pub take_all : (b : Bytes) → take (length b) b ≡ b
take_all [] = refl
take_all (x ∷ b) = ap (λ t. x ∷ t) (take_all b)

pub drop_all : (b : Bytes) → drop (length b) b ≡ []
drop_all [] = refl
drop_all (x ∷ b) = drop_all b

module _ (io : Stdio) (reader : Reader) (items : List Item) (diff : ℕ) where
  -- A call whose values fit their types, with the arguments that its format takes, and with its
  -- format in the JSON array under its function and line. It can be printed, and its record is
  -- shorter than 2 GB.
  pub record IsEntry (e : Entry) : Type 0 where
    pub call : IsCall e.call
    pub fits : Fits e.pieces e.args
    pub args : All IsArg e.args
    pub prints : Prints io (shown io e.pieces e.args)
    pub small : record_size e.call e.args < 2 ^ 31
    pub found : format_fetch items e.call.func e.call.line ≡ ok (some (render e.pieces))

  -- The line of a call: its own level, function, line, thread and text, and its time put to the
  -- wall clock.
  unfoldable pub line_of : Entry → Line
  line_of e = record {
    time = timestamp_fmt ((now e.call + diff) % 2 ^ 64);
    level = binlog_level_name (e.call.level % 256);
    thread = e.call.self;
    text = shown io e.pieces e.args;
    func = e.call.func;
    line = e.call.line;
  }

  parse_record-line :
      (e : Entry) (more : Bytes)
      → IsEntry e
      → parse_record io reader items diff
          (record_size e.call e.args)
          (record_bytes e.call e.args ++ more)
        ≡ ok (line_of e)
  unfolding parse_record line_of
  parse_record-line e more is =
      let (h, at) = read_header-record e.call e.args more is.call in
      let place : At
          (record {
            len = record_size e.call e.args;
            off = (header_of e.call).offset;
            buf = record_bytes e.call e.args ++ more;
          })
          (encode_args e.args) (blog_end ∷ more) =
        record { bytes = at; inside = header_inside e.call e.args } in
      let (n, shown) =
        print_format-shown io e.pieces e.args
          (record {
            len = record_size e.call e.args;
            off = (header_of e.call).offset;
            buf = record_bytes e.call e.args ++ more;
          })
          (blog_end ∷ more) is.fits is.args place is.prints in
      rw (h, is.found, shown)

  read_length :
      (e : Entry) (more : Bytes)
      → record_size e.call e.args < 2 ^ 31
      → int_length (read_word 4 (drop 1 (record_bytes e.call e.args ++ more)))
        ≡ ok (record_size e.call e.args)
  read_length e more small =
      let size : ℕ = record_size e.call e.args in
      let b : Bytes =
        (e.call.level % 256)
        ∷ (e.call.func ++ 0 ∷ words e.call (encode_args e.args ++ (blog_end ∷ more))) in
      let fits : int_length (some size) ≡ ok size = ground arith in
      rw (record_bytes-split e.call e.args more)
        (ap int_length (read_word-word 4 size b (FitsWord4 size (omega arith))) ∙ fits)

  -- A round at the start of a record that lies in the block.
  prase_round-line :
      (e : Entry) (p : Parser) (more : Bytes)
      → IsEntry e
      → drop p.offset p.buf ≡ record_bytes e.call e.args ++ more
      → prase_round io reader items diff p
        ≡ ok (line_of e, record p { offset = p.offset + record_size e.call e.args })
  unfolding prase_round
  prase_round-line e p more is h =
      let size : ℕ = record_size e.call e.args in
      let positive : 0 < size = record_size-pos e.call e.args in
      let len : length p.buf - p.offset ≡ size + length more =
        sym (length-drop p.offset p.buf)
        ∙ ap length h
        ∙ length-append (record_bytes e.call e.args) more
        ∙ ap (λ n. n + length more) (length-record_bytes e.call e.args) in
      let some_left : (p.offset == length p.buf) ≡ false = ground arith in
      let whole : ltb (length p.buf) (size + p.offset) ≡ false = ground arith in
      rw (
        some_left,
        drop-add p.offset 1 p.buf,
        h,
        read_length e more is.small,
        whole,
        h,
        parse_record-line e more is,
      )

  -- From the start of a record on, where the rest of the file lies in the block.
  pub prase_loop-lines :
      (fuel : ℕ) (e : Entry) (es : List Entry) (p : Parser) (out : List Line)
      → IsEntry e
      → All IsEntry es
      → drop p.offset p.buf ≡ log_bytes (e ∷ es)
      → p.file_offset ≡ p.file_size
      → length es < fuel
      → prase_loop io reader items diff fuel p out
        ≡ ok (
          out ++ map line_of (e ∷ es),
          record p { offset = p.offset + length (log_bytes (e ∷ es)) },
        )
  unfolding prase_loop log_bytes
  prase_loop-lines zero e es p out is all h at_end enough = absurd (omega arith)
  prase_loop-lines (suc f) e [] p out is all h at_end enough =
      let size : ℕ = record_size e.call e.args in
      let next : length (record_bytes e.call e.args ++ []) ≡ size =
        ap length (append-nil (record_bytes e.call e.args)) ∙ length-record_bytes e.call e.args in
      let len : length p.buf - p.offset ≡ size =
        sym (length-drop p.offset p.buf) ∙ ap length h ∙ next in
      let positive : 0 < size = record_size-pos e.call e.args in
      let done : (p.offset + size == length p.buf) ≡ true =
        reaches (p.offset + size) (length p.buf) (omega arith) in
      let at : (p.file_offset == p.file_size) ≡ true = rw at_end (==_refl p.file_size) in
      rw (prase_round-line e p [] is h, at, done, next) refl
  prase_loop-lines (suc f) e (e' ∷ es) p out is all h at_end enough =
      let size : ℕ = record_size e.call e.args in
      let p' : Parser = record p { offset = p.offset + size } in
      let behind : drop (p.offset + size) p.buf ≡ log_bytes (e' ∷ es) =
        drop-add p.offset size p.buf
        ∙ ap (drop size) h
        ∙ drop-append (record_bytes e.call e.args) (log_bytes (e' ∷ es)) size
            (sym (length-record_bytes e.call e.args)) in
      let next : length (log_bytes (e ∷ e' ∷ es)) ≡ size + length (log_bytes (e' ∷ es)) =
        length-append (record_bytes e.call e.args) (log_bytes (e' ∷ es))
        ∙ ap (λ n. n + length (log_bytes (e' ∷ es))) (length-record_bytes e.call e.args) in
      let len : length p.buf - p.offset ≡ size + length (log_bytes (e' ∷ es)) =
        sym (length-drop p.offset p.buf) ∙ ap length h ∙ next in
      let positive : 0 < length (log_bytes (e' ∷ es)) = log_bytes-pos e' es in
      let more : (p.offset + size == length p.buf) ≡ false = ground arith in
      let at : (p.file_offset == p.file_size) ≡ true = rw at_end (==_refl p.file_size) in
      rw (prase_round-line e p (log_bytes (e' ∷ es)) is h, at, more)
        (prase_loop-lines f e' es p' (out ++ (line_of e ∷ [])) all.0 all.1 behind at_end
            (omega arith)
          ∙ ap (λ o. ok (o, record p { offset = p.offset + size + length (log_bytes (e' ∷ es)) }))
              (append_assoc out (line_of e ∷ []) (map line_of (e' ∷ es)))
          ∙ ap (λ n. ok (out ++ map line_of (e ∷ e' ∷ es), record p { offset = n }))
              {x = p.offset + size + length (log_bytes (e' ∷ es))}
              {y = p.offset + length (log_bytes (e ∷ e' ∷ es))} (omega (arith, next)))
