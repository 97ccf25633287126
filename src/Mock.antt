-- ===== src/Mock.antt =====
-- src/mock.c and include/mock.h: a function is replaced by a jump that is written over its first bytes,
-- and comes back with the bytes that were kept.
pub mod Restored
mod Tests
use cc_utils.Base.{
  ℕ, zero, suc, ◌+◌, ◌-◌, ◌*◌, ◌/◌, ◌%◌, ◌^◌, ◌≡◌, Bool, true, false, Option, none, some, [], ◌∷◌,
  ◌==◌, if◌then◌else◌, replicate,
}
use cc_utils.Base.Outcome.{Outcome, ok, fault, ◌>>=◌}
use cc_utils.Base.Int.{ℤ, pos, negsuc}
use cc_utils.Base.Bytes.{Bytes, word}
use cc_utils.Base.Heap.{Heap}
use cc_utils.Base.Memory.{put_byte, read_at}

-- The protection of the pages, by their first addresses, and mprotect() of a page, which is made
-- readable and executable, and writable or not: 0 where it succeeds. What a success is documented to
-- do is a law.
pub record Pages : Type 1 where
  pub State : Type 0
  pub writable : State → ℕ → Bool
  pub mprotect : State → ℕ → Bool → ℤ × State
  pub granted :
      (s s' : State) (page : ℕ) (write : Bool)
      → mprotect s page write ≡ (pos 0, s')
      → writable s' page ≡ write

-- `mock_s`
pub record Mock : Type 0 where
  pub fn : ℕ
  pub mock : Bytes
  pub len : ℕ

-- MOCK_JMPQ, MOCK_JMPQ_LEN and MOCK_LEN
abbrev pub mock_jmpq : ℕ
mock_jmpq = 0xe9

abbrev pub mock_jmpq_len : ℕ
mock_jmpq_len = 1

abbrev pub mock_len : ℕ
mock_len = 5

abbrev pub page_size : ℕ
page_size = 2 ^ 12

-- v & ~(PAGE_SIZE - 1)
abbrev pub alignpage : ℕ → ℕ
alignpage v = v / page_size * page_size

-- calloc(): `none` is NULL, through which the code goes as it is.
unfoldable pub mock_init : Bool → ℕ → Outcome Mock
mock_init false len = fault
mock_init true len = ok (record { fn = 0; mock = replicate len 0; len = len })

-- `m` at its address
abbrev pub mock_finalize : (heap : Heap) → Option ℕ → heap.State → heap.State
mock_finalize heap m s = heap.free s m

module _ (os : Pages) where
  pub record Machine : Type 0 where
    pub bytes : ℕ → ℕ
    pub pages : os.State

  -- A write to a page that is not writable is a fault.
  unfoldable pub write_at : Machine → ℕ → Bytes → Outcome Machine
  write_at m a [] = ok m
  write_at m a (b ∷ bs) =
      let rest = write_at (record m { bytes = put_byte m.bytes a b }) (a + 1) bs in
      if os.writable m.pages (alignpage a) then rest else fault

  unfoldable pub mprotect_write : Machine → ℕ → ℤ × Machine
  mprotect_write m fn =
      let (ret, pages) = os.mprotect m.pages (alignpage fn) true in
      (ret, record m { pages = pages })

  unfoldable pub mprotect_recovery : Machine → ℕ → ℤ × Machine
  mprotect_recovery m fn =
      let (ret, pages) = os.mprotect m.pages (alignpage fn) false in
      (ret, record m { pages = pages })

  abbrev pub is_zero : ℤ → Bool
  is_zero (pos zero) = true
  is_zero _ = false

  -- mock_fn - fn - MOCK_LEN, in 64 bits and then in 32
  abbrev pub distance : ℕ → ℕ → ℕ
  distance fn mock_fn = (mock_fn + 2 ^ 64 - fn - mock_len) % 2 ^ 32

  -- The first bytes are kept, and the jump is written over them.
  unfoldable pub patch : Machine → Mock → ℕ → ℕ → Outcome (Mock × Machine)
  patch m k fn mock_fn = do
    let k = record k { fn = fn; mock = read_at m.bytes fn k.len }
    m ← write_at m fn (mock_jmpq ∷ [])
    m ← write_at m (fn + mock_jmpq_len) (word 4 (distance fn mock_fn))
    ok (k, m)

  unfoldable pub set_behind : Mock → ℕ → ℕ → ℤ × Machine → Outcome (ℤ × Mock × Machine)
  set_behind k fn mock_fn (ret, m) =
      let patched = patch m k fn mock_fn >>= λ (k, m).
      let (ret, m) = mprotect_recovery m fn in ok (ret, k, m) in
      if is_zero ret then patched else ok (ret, k, m)

  unfoldable pub mock_set : Machine → Mock → ℕ → ℕ → Outcome (ℤ × Mock × Machine)
  mock_set m k fn mock_fn = set_behind k fn mock_fn (mprotect_write m fn)

  unfoldable pub reset_behind : Mock → ℤ × Machine → Outcome (ℤ × Machine)
  reset_behind k (ret, m) =
      let restored = write_at m k.fn k.mock >>= λ m. ok (mprotect_recovery m k.fn) in
      if is_zero ret then restored else ok (ret, m)

  unfoldable pub mock_reset : Machine → Mock → Outcome (ℤ × Machine)
  mock_reset m k = reset_behind k (mprotect_write m k.fn)
