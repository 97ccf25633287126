-- ===== src/Spin.antt =====
-- The spin lock of include/spin.h: threads that call spinlock_acquire, spinlock_try_acquire and
-- spinlock_release on one lock. A move is one access to `val`.
pub mod Exclusion
pub mod Progress
mod Tests
use cc_utils.Base.{ℕ, ◌≡◌, Bool, true, false, some, List, get_elem?, set}

-- atomic_flag_test_and_set_explicit: what `val` was, and what it is.
abbrev pub test_and_set : Bool → Bool × Bool
test_and_set val = (val, true)

-- Where a thread is: outside; in spinlock_acquire in front of the test of the outer loop, or of the
-- inner one; and behind the lock.
pub data Pc : Type 0 where
  outside : Pc
  testing : Pc
  waiting : Pc
  inside : Pc

-- Behind the test_and_set of spinlock_acquire, and behind that of spinlock_try_acquire, which returns
-- false where the lock is had.
abbrev pub tested : Bool → Pc
tested true = waiting
tested false = inside

abbrev pub tried : Bool → Pc
tried true = outside
tried false = inside

-- Behind the load of the inner loop.
abbrev pub loaded : Bool → Pc
loaded true = waiting
loaded false = testing

pub data Move (val : Bool) : Pc → Bool → Pc → Type 0 where
  acquire : Move val outside val testing
  test : Move val testing (test_and_set val).1 (tested (test_and_set val).0)
  load : Move val waiting val (loaded val)
  try : Move val outside (test_and_set val).1 (tried (test_and_set val).0)
  release : Move val inside false outside

pub record System : Type 0 where
  pub val : Bool
  pub threads : List Pc

-- Any thread may be the next to move.
pub data Step (s : System) : System → Type 0 where
  pick :
      (i : ℕ) (p : Pc) (val : Bool) (p' : Pc)
      → get_elem? s.threads i ≡ some p
      → Move s.val p val p'
      → Step s (record { val = val; threads = set s.threads i p' })

pub data Reach (s : System) : System → Type 0 where
  here : Reach s s
  later : {t u : System} → Reach s t → Step t u → Reach s u
