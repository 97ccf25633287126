-- ===== src/Rwstq.antt =====
-- The locked tail queue `rwstq` of include/list.h.
pub mod History
mod Tests
use cc_utils.Base.{ℕ, ◌≡◌, refl, ap, sym, Option, none, some, List, [], ◌∷◌, Bool, true, false}
use cc_utils.Base.Outcome.{Outcome, ok, fault, out_of_fuel, ◌>>=◌}
use cc_utils.Stq.{
  Queue, stq_init, stq_is_empty, stq_add_head, stq_add_tail, stq_del_head, stq_del, stq_free_all,
}
use cc_utils.Locked.{RwLock, Answer, nothing, truth, node, Shareable, Shared}

-- The calls: rwstq_is_empty, rwstq_add_head, rwstq_del_head, rwstq_add_tail, rwstq_del and
-- rwstq_free_all.
pub data Op : Type 0 where
  is_empty : Op
  add_head : ℕ → Op
  del_head : Op
  add_tail : ℕ → Op
  del : ℕ → Op
  free_all : Op

-- Whether a call takes the lock by rwstq_read_lock or by rwstq_write_lock.
unfoldable pub only_reads : Op → Bool
only_reads is_empty = true
only_reads _ = false

-- What a call does between the lock and the unlock, with the rounds of its loop and with the effect of
-- `free_node`.
unfoldable pub run : ((ℕ → Option ℕ) → ℕ → ℕ → Option ℕ) → ℕ → Op → Queue → Outcome (Answer × Queue)
run free_node fuel is_empty q = ok (truth (stq_is_empty q), q)
run free_node fuel (add_head n) q = ok (nothing, stq_add_head q n)
run free_node fuel del_head q = ok (node (stq_del_head q).0, (stq_del_head q).1)
run free_node fuel (add_tail n) q = ok (nothing, stq_add_tail q n)
run free_node fuel (del n) q = stq_del fuel q n >>= λ q. ok (nothing, q)
run free_node fuel free_all q = stq_free_all free_node fuel q >>= λ (q, freed). ok (nothing, q)

pub run-reader :
    (free_node : (ℕ → Option ℕ) → ℕ → ℕ → Option ℕ) (fuel : ℕ) (op : Op) (q q' : Queue) (a : Answer)
    → only_reads op ≡ true
    → run free_node fuel op q ≡ ok (a, q')
    → q' ≡ q
unfolding only_reads run
run-reader free_node fuel is_empty q q' a e h =
    sym (ap (λ o. elim o [ ok r ↦ r.1 | fault ↦ q | out_of_fuel ↦ q ]) h)
run-reader free_node fuel (add_head n) q q' a e h = absurd cc
run-reader free_node fuel del_head q q' a e h = absurd cc
run-reader free_node fuel (add_tail n) q q' a e h = absurd cc
run-reader free_node fuel (del n) q q' a e h = absurd cc
run-reader free_node fuel free_all q q' a e h = absurd cc

abbrev pub rwstq : ((ℕ → Option ℕ) → ℕ → ℕ → Option ℕ) → Shareable
rwstq free_node = record {
  Value = Queue;
  Op = Op;
  only_reads = only_reads;
  perform = run free_node;
  unchanged = run-reader free_node;
}

unfoldable pub rwstq_init :
    (lock : RwLock) (free_node : (ℕ → Option ℕ) → ℕ → ℕ → Option ℕ)
    → Queue
    → Shared lock (rwstq free_node)
rwstq_init lock free_node q = record { held = lock.init; value = stq_init q }
