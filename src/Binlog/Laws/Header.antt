-- ===== src/Binlog/Laws/Header.antt =====
-- The header of a record: what read_header, that is the first part of the loop of binlog_prase in
-- src/binlog/binlog_parser.c, makes of the bytes that binlog_print wrote.
use cc_utils.Base.{
  ℕ, ◌+◌, ◌/◌, ◌%◌, ◌^◌, ◌≤◌, ◌<◌, ◌≡◌, refl, ap, ◌∙◌, some, List, [], ◌∷◌, ◌++◌, append_assoc,
  arith, length, drop, drop-append, drop-add,
}
use cc_utils.Base.Outcome.{ok}
use cc_utils.Base.Bytes.{Bytes, word, read_word, read_word-word, FitsWord, c_string-append, IsText}
use cc_utils.Binlog.{Arg, blog_begin, blog_end}
use cc_utils.Binlog.Record.{Call, now}
use cc_utils.Binlog.Parser.Loop.{Header, read_header}
use cc_utils.Binlog.Laws.Valog.{encode_args}
use cc_utils.Binlog.Laws.Written.{fields, record_size, record_bytes}

-- The values of a call fit their types.
pub record IsCall (c : Call) : Type 0 where
  pub func : IsText c.func
  pub line : c.line < 2 ^ 32
  pub self : c.self < 2 ^ 64
  pub time : now c < 2 ^ 64

abbrev pub header_of : Call → Header
header_of c = record {
  level = c.level % 256;
  func = c.func;
  line = c.line;
  thread = c.self;
  ts = now c;
  offset = 6 + (length c.func + 1) + 4 + 8 + 8;
}

-- The text behind the level, and what follows a part of it.
drop_text : (s rest : Bytes) → drop (length s + 1) (s ++ 0 ∷ rest) ≡ rest
drop_text s rest =
    drop-add (length s) 1 (s ++ 0 ∷ rest) ∙ ap (drop 1) (drop-append s (0 ∷ rest) (length s) refl)

pub FitsWord4 : (w : ℕ) → w < 2 ^ 32 → FitsWord 4 w
FitsWord4 w h = omega arith

FitsWord8 : (w : ℕ) → w < 2 ^ 64 → FitsWord 8 w
FitsWord8 w h = omega arith

-- The four fields behind the function's name.
read_fields :
    (b rest : Bytes) (at line thread ts : ℕ)
    → drop at b ≡ word 4 line ++ (word 8 thread ++ (word 8 ts ++ rest))
    → line < 2 ^ 32
    → thread < 2 ^ 64
    → ts < 2 ^ 64
    → (read_word 4 (drop at b) ≡ some line)
      × (read_word 8 (drop (at + 4) b) ≡ some thread)
      × (read_word 8 (drop (at + 4 + 8) b) ≡ some ts)
      × (drop (at + 4 + 8 + 8) b ≡ rest)
read_fields b rest at line thread ts h l t s =
    let e₁ : drop (at + 4) b ≡ word 8 thread ++ (word 8 ts ++ rest) = drop-add at 4 b ∙ rw h in
    let e₂ : drop (at + 4 + 8) b ≡ word 8 ts ++ rest = drop-add (at + 4) 8 b ∙ rw e₁ in
    (
      rw h (read_word-word 4 line (word 8 thread ++ (word 8 ts ++ rest)) (FitsWord4 line l)),
      rw e₁ (read_word-word 8 thread (word 8 ts ++ rest) (FitsWord8 thread t)),
      rw e₂ (read_word-word 8 ts rest (FitsWord8 ts s)),
      drop-add (at + 4 + 8) 8 b ∙ rw e₂,
    )

-- What is written behind the length and the level, in front of `behind`.
abbrev pub words : Call → Bytes → Bytes
words c behind = word 4 c.line ++ (word 8 c.self ++ (word 8 (now c) ++ behind))

read_header-fields :
    (c : Call) (x₀ x₁ x₂ x₃ x₄ : ℕ) (behind : Bytes)
    → IsCall c
    → let b = x₀ ∷ x₁ ∷ x₂ ∷ x₃ ∷ x₄ ∷ (c.level % 256) ∷ (c.func ++ 0 ∷ words c behind) in
      (read_header b ≡ ok (header_of c)) × (drop (header_of c).offset b ≡ behind)
unfolding read_header
read_header-fields c x₀ x₁ x₂ x₃ x₄ behind is =
    let b : Bytes = x₀ ∷ x₁ ∷ x₂ ∷ x₃ ∷ x₄ ∷ (c.level % 256) ∷ (c.func ++ 0 ∷ words c behind) in
    let at : drop (6 + (length c.func + 1)) b ≡ words c behind =
      drop-add 6 (length c.func + 1) b ∙ drop_text c.func (words c behind) in
    let (e₁, e₂, e₃, e₄) =
      read_fields b behind (6 + (length c.func + 1)) c.line c.self (now c) at is.line is.self
        is.time in
    (
      rw (c_string-append c.func (words c behind) is.func, e₁, e₂, e₃)
          (ap (λ l. ok (record (header_of c) { level = l })) {y = c.level % 256} (omega arith)),
      e₄,
    )

pub record_bytes-split :
    (c : Call) (args : List Arg) (more : Bytes)
    → record_bytes c args ++ more
      ≡ blog_begin
        ∷ (word 4 (record_size c args)
            ++ (c.level % 256) ∷ (c.func ++ 0 ∷ words c (encode_args args ++ (blog_end ∷ more))))
unfolding record_bytes fields
record_bytes-split c args more =
    let a : Bytes = 0 ∷ (word 4 c.line ++ (word 8 c.self ++ word 8 (now c))) in
    let b : Bytes = encode_args args ++ (blog_end ∷ []) in
    ap (λ t. blog_begin ∷ (word 4 (record_size c args) ++ (c.level % 256) ∷ t))
      (ap (λ x. x ++ more) (append_assoc c.func a b)
        ∙ append_assoc c.func (a ++ b) more
        ∙ ap (λ x. c.func ++ (a ++ x)) (append_assoc (encode_args args) (blog_end ∷ []) more))

-- The fields of a written record are read back, and the arguments stand where the header says.
pub read_header-record :
    (c : Call) (args : List Arg) (more : Bytes)
    → IsCall c
    → (read_header (record_bytes c args ++ more) ≡ ok (header_of c))
      × (drop (header_of c).offset (record_bytes c args ++ more)
          ≡ encode_args args ++ (blog_end ∷ more))
read_header-record c args more is = rw (record_bytes-split c args more) (
    read_header-fields c blog_begin (record_size c args % 256) (record_size c args / 256 % 256)
      (record_size c args / 256 / 256 % 256) (record_size c args / 256 / 256 / 256 % 256)
      (encode_args args ++ (blog_end ∷ more)) is)

pub header_inside :
    (c : Call) (args : List Arg)
    → (header_of c).offset + length (encode_args args) ≤ record_size c args
unfolding record_size
header_inside c args = omega arith

pub record_size-pos : (c : Call) (args : List Arg) → 0 < record_size c args
unfolding record_size
record_size-pos c args = omega arith
