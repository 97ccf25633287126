-- ===== src/Rwdtq.antt =====
-- The locked ring `rwdtq` of include/list.h.
use cc_utils.Base.{ℕ, ◌≡◌, ap, sym, Option, Bool, true, false}
use cc_utils.Base.Outcome.{Outcome, ok, fault, out_of_fuel, ◌>>=◌}
use cc_utils.Dtq.{
  Memory, set_next, set_prev, through, dtq_init, dtq_is_empty, dtq_is_end, dtq_add_head,
  dtq_add_tail, dta_del_head, dtq_del_tail, dtq_free_all,
}
use cc_utils.Locked.{RwLock, Answer, nothing, truth, node, Shareable, Shared}

-- The calls: rwdtq_is_empty, rwdtq_is_end, rwdtq_add_head, rwdta_del_head, rwdtq_del, rwdtq_add_tail,
-- rwdtq_del_tail and rwdtq_free_all.
pub data Op : Type 0 where
  is_empty : Op
  is_end : Option ℕ → Op
  add_head : ℕ → Op
  del_head : Op
  del : ℕ → Op
  add_tail : ℕ → Op
  del_tail : Op
  free_all : Op

-- Whether a call takes the lock by rwdtq_read_lock or by rwdtq_write_lock.
unfoldable pub only_reads : Op → Bool
only_reads is_empty = true
only_reads (is_end n) = true
only_reads _ = false

-- rwdtq_del changes the pointers itself.
unfoldable pub del_links : Memory → ℕ → Outcome Memory
del_links m n = do
  prev ← through (m.prev n)
  let m = set_next m prev (m.next n)
  next ← through (m.next n)
  ok (set_prev m next (m.prev n))

-- What a call does between the lock and the unlock, to the ring at the head `list`.
unfoldable pub run : (Memory → ℕ → Memory) → ℕ → ℕ → Op → Memory → Outcome (Answer × Memory)
run free_node list fuel is_empty m = ok (truth (dtq_is_empty m list), m)
run free_node list fuel (is_end n) m = ok (truth (dtq_is_end m list n), m)
run free_node list fuel (add_head n) m = dtq_add_head m list n >>= λ m. ok (nothing, m)
run free_node list fuel del_head m = dta_del_head m list >>= λ (n, m). ok (node n, m)
run free_node list fuel (del n) m = del_links m n >>= λ m. ok (nothing, m)
run free_node list fuel (add_tail n) m = dtq_add_tail m list n >>= λ m. ok (nothing, m)
run free_node list fuel del_tail m = dtq_del_tail m list >>= λ (n, m). ok (node n, m)
run free_node list fuel free_all m =
    dtq_free_all free_node fuel m list >>= λ (m, freed). ok (nothing, m)

pub run-reader :
    (free_node : Memory → ℕ → Memory) (list fuel : ℕ) (op : Op) (m m' : Memory) (a : Answer)
    → only_reads op ≡ true
    → run free_node list fuel op m ≡ ok (a, m')
    → m' ≡ m
unfolding only_reads run
run-reader free_node list fuel is_empty m m' a e h =
    sym (ap (λ o. elim o [ ok r ↦ r.1 | fault ↦ m | out_of_fuel ↦ m ]) h)
run-reader free_node list fuel (is_end n) m m' a e h =
    sym (ap (λ o. elim o [ ok r ↦ r.1 | fault ↦ m | out_of_fuel ↦ m ]) h)
run-reader free_node list fuel (add_head n) m m' a e h = absurd cc
run-reader free_node list fuel del_head m m' a e h = absurd cc
run-reader free_node list fuel (del n) m m' a e h = absurd cc
run-reader free_node list fuel (add_tail n) m m' a e h = absurd cc
run-reader free_node list fuel del_tail m m' a e h = absurd cc
run-reader free_node list fuel free_all m m' a e h = absurd cc

abbrev pub rwdtq : (Memory → ℕ → Memory) → ℕ → Shareable
rwdtq free_node list = record {
  Value = Memory;
  Op = Op;
  only_reads = only_reads;
  perform = run free_node list;
  unchanged = run-reader free_node list;
}

unfoldable pub rwdtq_init :
    (lock : RwLock) (free_node : Memory → ℕ → Memory) (list : ℕ)
    → Memory
    → Shared lock (rwdtq free_node list)
rwdtq_init lock free_node list m = record { held = lock.init; value = dtq_init m list }
