-- ===== src/Rwstq/Tests.antt =====
-- Two threads that share a queue.
use cc_utils.Base.{ℕ, refl, Option, none, some, [], ◌∷◌, ◌==◌, if◌then◌else◌}
use cc_utils.Stq.{Queue, stq_add_tail, add_last}
use cc_utils.Stq.Fifo.{Holds}
use cc_utils.Locked.{
  nothing, idle, entered, leaving, System, Reach, here, later, pick, write_lock, working, begin,
  end_write,
}
use cc_utils.Locked.Simple.{simple, simple_obliges, shared, exclusive}
use cc_utils.Locked.Safety.{Quiet}
use cc_utils.Rwstq.{add_tail, rwstq, run, only_reads}
use cc_utils.Rwstq.History.{Answered, Reach-Holds}

abbrev no_effect : (ℕ → Option ℕ) → ℕ → ℕ → Option ℕ
no_effect next n = next

abbrev at_start : Queue
at_start = record { first = none; last = none; next = λ n. none }

abbrev one_node : Queue
one_node = record { first = some 5; last = some 5; next = λ n. if n == 5 then none else none }

abbrev started : System simple (rwstq no_effect)
started = record {
  shared = record { held = shared 0; value = at_start };
  threads = idle ∷ idle ∷ [];
}

abbrev adding : System simple (rwstq no_effect)
adding = record {
  shared = record { held = exclusive; value = one_node };
  threads = idle ∷ leaving (add_tail 5) ∷ [];
}

run_start : Reach simple (rwstq no_effect) started ((add_tail 5, nothing) ∷ []) adding
unfolding run only_reads stq_add_tail add_last
run_start =
    later
      (later
        (later here (
          pick (idle ∷ []) idle [] [] (record { held = exclusive; value = at_start })
            (entered (add_tail 5)) refl (write_lock (add_tail 5) exclusive refl refl)))
        (pick (idle ∷ []) (entered (add_tail 5)) [] []
          (record { held = exclusive; value = at_start }) (working (add_tail 5) at_start) refl
          (begin (add_tail 5))))
      (pick (idle ∷ []) (working (add_tail 5) at_start) [] ((add_tail 5, nothing) ∷ [])
        (record { held = exclusive; value = one_node }) (leaving (add_tail 5)) refl
        (end_write (add_tail 5) 0 at_start one_node nothing refl refl))

started-Quiet : Quiet simple (rwstq no_effect) started
started-Quiet = record { free = (refl, refl); outside = (refl, refl) }

Reach-Holds_example : Answered ((add_tail 5, nothing) ∷ []) [] × Holds one_node (5 ∷ [])
Reach-Holds_example =
    Reach-Holds simple simple_obliges no_effect (λ next n m apart. refl) [] started-Quiet run_start
      (tt, tt) (record { chain = refl; last = refl; distinct = tt })
