-- ===== src/Locked/Simple.antt =====
-- A read-write lock for examples.
use cc_utils.Base.{◌≢◌, ℕ, zero, suc, ◌+◌, ◌≡◌, refl, ap, sym, arith}
use cc_utils.Locked.{Try, waits, taken, refused, RwLock, Obliges}

pub data Holders : Type 0 where
  shared : ℕ → Holders
  exclusive : Holders

abbrev pub readers_of : Holders → ℕ
readers_of (shared n) = n
readers_of exclusive = 0

abbrev pub writers_of : Holders → ℕ
writers_of (shared n) = 0
writers_of exclusive = 1

abbrev pub share : Holders → Try Holders
share (shared n) = taken (shared (n + 1))
share exclusive = waits

abbrev pub exclude : Holders → Try Holders
exclude (shared zero) = taken exclusive
exclude (shared (suc n)) = waits
exclude exclusive = waits

abbrev pub release : Holders → Holders
release (shared zero) = shared 0
release (shared (suc n)) = shared n
release exclusive = shared 0

abbrev holders : Holders → Try Holders → Holders
holders s (taken h) = h
holders s _ = s

held : {s s' : Holders} → taken s ≡ taken s' → s' ≡ s
held {s} e = sym (ap (holders s) e)

pub share-granted :
    (s s' : Holders)
    → share s ≡ taken s'
    → (writers_of s ≡ 0) × (writers_of s' ≡ 0) × (readers_of s' ≡ readers_of s + 1)
share-granted (shared n) s' e = (refl, ap writers_of (held e), ap readers_of (held e))
share-granted exclusive s' e = absurd cc

pub exclude-granted :
    (s s' : Holders)
    → exclude s ≡ taken s'
    → (writers_of s ≡ 0) × (readers_of s ≡ 0) × (writers_of s' ≡ 1) × (readers_of s' ≡ 0)
exclude-granted (shared zero) s' e = (refl, refl, ap writers_of (held e), ap readers_of (held e))
exclude-granted (shared (suc n)) s' e = absurd cc
exclude-granted exclusive s' e = absurd cc

pub release_reader :
    (s : Holders) (n : ℕ)
    → writers_of s ≡ 0
    → readers_of s ≡ suc n
    → (writers_of (release s) ≡ 0) × (readers_of (release s) ≡ n)
release_reader (shared zero) n w r = absurd (omega arith)
release_reader (shared (suc k)) n w r = (refl, omega arith)
release_reader exclusive n w r = absurd (omega arith)

pub release_writer :
    (s : Holders)
    → writers_of s ≡ 1
    → readers_of s ≡ 0
    → (writers_of (release s) ≡ 0) × (readers_of (release s) ≡ 0)
release_writer (shared n) w r = absurd (omega arith)
release_writer exclusive w r = (refl, refl)

abbrev pub simple : RwLock
simple = record {
  State = Holders;
  readers = readers_of;
  writers = writers_of;
  init = shared 0;
  rdlock = share;
  wrlock = exclude;
  unlock = release;
  init_free = (refl, refl);
  rdlock_taken = share-granted;
  wrlock_taken = exclude-granted;
  unlock_reader = release_reader;
  unlock_writer = release_writer;
}

pub never_shared : (s s' : Holders) → share s ≢ refused s'
never_shared (shared n) s' e = absurd cc
never_shared exclusive s' e = absurd cc

pub never_excluded : (s s' : Holders) → exclude s ≢ refused s'
never_excluded (shared zero) s' e = absurd cc
never_excluded (shared (suc n)) s' e = absurd cc
never_excluded exclusive s' e = absurd cc

abbrev pub simple_obliges : Obliges simple
simple_obliges = record { rdlock = never_shared; wrlock = never_excluded }
