-- ===== src/Locked.antt =====
-- What the locked lists of include/list.h, rwstq and rwdtq, have in common: threads share a list,
-- and each call takes the lock, does its operation on the list, and gives the lock back. The lock is
-- the C library's. An operation takes its time: it works on the list as it found it when it began, and
-- what it leaves is there for the others when it ends, so that what others do in between is lost.
pub mod Safety
pub mod Current
pub mod Simple
use cc_utils.Base.{ℕ, suc, ◌+◌, ◌≡◌, ◌≢◌, Option, List, [], ◌∷◌, ◌++◌, Bool, true, false}
use cc_utils.Base.Outcome.{Outcome, ok}

-- What a call that takes a lock comes to: the caller waits, has the lock, or gets an error, which the code
-- does not look at.
pub data Try (S : Type 0) : Type 0 where
  waits : Try S
  taken : S → Try S
  refused : S → Try S

-- A read-write lock of the C library: how many readers and writers hold it, and pthread_rwlock_init,
-- pthread_rwlock_rdlock, pthread_rwlock_wrlock and pthread_rwlock_unlock.
pub record RwLock : Type 1 where
  pub State : Type 0
  pub readers : State → ℕ
  pub writers : State → ℕ
  pub init : State
  pub rdlock : State → Try State
  pub wrlock : State → Try State
  pub unlock : State → State
  pub init_free : (readers init ≡ 0) × (writers init ≡ 0)
  pub rdlock_taken :
      (s s' : State)
      → rdlock s ≡ taken s'
      → (writers s ≡ 0) × (writers s' ≡ 0) × (readers s' ≡ readers s + 1)
  pub wrlock_taken :
      (s s' : State)
      → wrlock s ≡ taken s'
      → (writers s ≡ 0) × (readers s ≡ 0) × (writers s' ≡ 1) × (readers s' ≡ 0)
  pub unlock_reader :
      (s : State) (n : ℕ)
      → writers s ≡ 0
      → readers s ≡ suc n
      → (writers (unlock s) ≡ 0) × (readers (unlock s) ≡ n)
  pub unlock_writer :
      (s : State)
      → writers s ≡ 1
      → readers s ≡ 0
      → (writers (unlock s) ≡ 0) × (readers (unlock s) ≡ 0)

-- The lock refuses no caller: pthread_rwlock_rdlock fails where there are too many readers, and both fail
-- for a thread that holds the lock.
pub record Obliges (lock : RwLock) : Type 0 where
  pub rdlock : (s s' : lock.State) → lock.rdlock s ≢ refused s'
  pub wrlock : (s s' : lock.State) → lock.wrlock s ≢ refused s'

-- What a call returns.
pub data Answer : Type 0 where
  nothing : Answer
  truth : Bool → Answer
  node : Option ℕ → Answer

-- A list that can be shared: its operations, whether their calls take the lock for reading, and what
-- they do, with the rounds of their loops. An operation under the lock for reading changes nothing.
pub record Shareable : Type 1 where
  pub Value : Type 0
  pub Op : Type 0
  pub only_reads : Op → Bool
  pub perform : ℕ → Op → Value → Outcome (Answer × Value)
  pub unchanged :
      (fuel : ℕ) (op : Op) (v v' : Value) (a : Answer)
      → only_reads op ≡ true
      → perform fuel op v ≡ ok (a, v')
      → v' ≡ v

-- Where a thread is: outside, or in a call behind its lock, in its operation with the list as it was when
-- that began, or in front of its unlock.
pub data Pc (Op Value : Type 0) : Type 0 where
  idle : Pc Op Value
  entered : Op → Pc Op Value
  working : Op → Value → Pc Op Value
  leaving : Op → Pc Op Value

module _ (lock : RwLock) (list : Shareable) where
  pub record Shared : Type 0 where
    pub held : lock.State
    pub value : list.Value

  -- A move of a thread, with the operation that it ends, if any, and what that returns. An operation whose
  -- call takes the lock for reading stores nothing.
  pub data Move (m : Shared)
      : Pc list.Op list.Value
        → List (list.Op × Answer)
        → Shared
        → Pc list.Op list.Value
        → Type 0 where
    read_lock :
        (op : list.Op) (held : lock.State)
        → list.only_reads op ≡ true
        → lock.rdlock m.held ≡ taken held
        → Move m idle [] (record m { held = held }) (entered op)
    write_lock :
        (op : list.Op) (held : lock.State)
        → list.only_reads op ≡ false
        → lock.wrlock m.held ≡ taken held
        → Move m idle [] (record m { held = held }) (entered op)
    read_refused :
        (op : list.Op) (held : lock.State)
        → list.only_reads op ≡ true
        → lock.rdlock m.held ≡ refused held
        → Move m idle [] (record m { held = held }) (entered op)
    write_refused :
        (op : list.Op) (held : lock.State)
        → list.only_reads op ≡ false
        → lock.wrlock m.held ≡ refused held
        → Move m idle [] (record m { held = held }) (entered op)
    begin : (op : list.Op) → Move m (entered op) [] m (working op m.value)
    end_read :
        (op : list.Op) (fuel : ℕ) (v value : list.Value) (answer : Answer)
        → list.only_reads op ≡ true
        → list.perform fuel op v ≡ ok (answer, value)
        → Move m (working op v) ((op, answer) ∷ []) m (leaving op)
    end_write :
        (op : list.Op) (fuel : ℕ) (v value : list.Value) (answer : Answer)
        → list.only_reads op ≡ false
        → list.perform fuel op v ≡ ok (answer, value)
        → Move m (working op v) ((op, answer) ∷ []) (record m { value = value }) (leaving op)
    read_unlock :
        (op : list.Op)
        → list.only_reads op ≡ true
        → Move m (leaving op) [] (record m { held = lock.unlock m.held }) idle
    write_unlock :
        (op : list.Op)
        → list.only_reads op ≡ false
        → Move m (leaving op) [] (record m { held = lock.unlock m.held }) idle

  -- Any thread may be the next to move.
  pub record System : Type 0 where
    pub shared : Shared
    pub threads : List (Pc list.Op list.Value)

  pub data Step (s : System) : List (list.Op × Answer) → System → Type 0 where
    pick :
        (before : List (Pc list.Op list.Value)) (p : Pc list.Op list.Value)
        (after : List (Pc list.Op list.Value)) (events : List (list.Op × Answer)) (m : Shared)
        (p' : Pc list.Op list.Value)
        → s.threads ≡ before ++ (p ∷ after)
        → Move s.shared p events m p'
        → Step s events (record { shared = m; threads = before ++ (p' ∷ after) })

  -- What is reached, and the operations in the order in which they ended.
  pub data Reach (s : System) : List (list.Op × Answer) → System → Type 0 where
    here : Reach s [] s
    later :
        {t u : System} {events more : List (list.Op × Answer)}
        → Reach s events t
        → Step t more u
        → Reach s (events ++ more) u
