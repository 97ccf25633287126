-- ===== src/Binlog/Plenty.antt =====
-- A concrete malloc and realloc, for the runs of src/binlog/binlog.c and src/cli/cli_server.c on
-- examples.
use cc_utils.Base.{
  ℕ, ◌-◌, ◌≤◌, ◌≡◌, refl, ap, ◌∙◌, sym, true, some, ◌++◌, leb, if◌then◌else◌, length, replicate,
  take, take-append, length-append, length-take, length-replicate, arith,
}
use cc_utils.Base.Bytes.{Bytes}
use cc_utils.Binlog.Buffer.{Allocator}
use cc_utils.Binlog.Laws.Growth.{Succeeds}

-- A memory that never runs out: a block is filled up with zeros.
abbrev pub filled : Bytes → ℕ → Bytes
filled a n = if leb (length a) n then a ++ replicate (n - length a) 0 else take n a

pub length-filled : (a : Bytes) (n : ℕ) → length (filled a n) ≡ n
length-filled a n = ground (
  arith,
  length-append a (replicate (n - length a) 0),
  length-replicate {A = ℕ} (n - length a) 0,
  length-take n a,
)

pub take-filled : (a : Bytes) (n : ℕ) → length a ≤ n → take (length a) (filled a n) ≡ a
take-filled a n h =
    let fits : leb (length a) n ≡ true = ground arith in
    rw fits (take-append a (replicate (n - length a) 0) (length a) refl)

pub same_block : (a b : Bytes) → some a ≡ some b → a ≡ b
same_block a b h = cc

abbrev pub plenty : Allocator
plenty = record {
  malloc = λ n. some (replicate n 0);
  realloc = λ a n. some (filled a n);
  malloc_size = λ n b h. ap length (sym (same_block (replicate n 0) b h)) ∙ length-replicate n 0;
  realloc_size = λ a n b h. ap length (sym (same_block (filled a n) b h)) ∙ length-filled a n;
  realloc_keeps =
      λ a n b l h. ap (take (length a)) (sym (same_block (filled a n) b h)) ∙ take-filled a n l;
}

pub plenty-Succeeds : Succeeds plenty
plenty-Succeeds = record {
  malloc_some = λ n. (replicate n 0, refl);
  realloc_some = λ a n. (filled a n, refl);
}
