-- ===== src/Spin/Progress.antt =====
-- A thread that waits for the spin lock of include/spin.h can get it.
use cc_utils.Base.{
  ℕ, suc, ◌≡◌, refl, ap, sym, ◌∙◌, ◌⊎◌, inl, inr, Bool, true, false, some, List, [], ◌∷◌, get_elem?,
  set, arith, get_elem?-set_self, get_elem?-set_ne, get_elem?_below,
}
use cc_utils.Locked.Safety.{count}
use cc_utils.Spin.{
  Pc, outside, testing, waiting, inside, test, load, release, System, pick, Reach, here, later,
}
use cc_utils.Spin.Exclusion.{holds, taken, Guarded, Reach-Guarded}

-- The thread behind the lock.
holder : (ps : List Pc) → count holds ps ≡ 1 → (j : ℕ) × (get_elem? ps j ≡ some inside)
holder [] h = absurd (omega arith)
holder (inside ∷ ps) h = (0, refl)
holder (outside ∷ ps) h = let (j, e) = holder ps (omega (arith, h)) in (suc j, e)
holder (testing ∷ ps) h = let (j, e) = holder ps (omega (arith, h)) in (suc j, e)
holder (waiting ∷ ps) h = let (j, e) = holder ps (omega (arith, h)) in (suc j, e)

abbrev state : Bool → List Pc → System
state val threads = record { val = val; threads = threads }

-- The lock is free.
test_free :
    {r : System} (threads : List Pc) (i : ℕ)
    → get_elem? threads i ≡ some testing
    → Reach r (state false threads)
    → (u : System) × Reach r u × (get_elem? u.threads i ≡ some inside)
test_free threads i e r = (
  state true (set threads i inside),
  later r (pick i testing true inside e test),
  get_elem?-set_self threads i inside (get_elem?_below threads i testing e),
)

get_free :
    {r : System} (threads : List Pc) (i : ℕ) (p : Pc)
    → p ≡ testing ⊎ p ≡ waiting
    → get_elem? threads i ≡ some p
    → Reach r (state false threads)
    → (u : System) × Reach r u × (get_elem? u.threads i ≡ some inside)
get_free threads i p (inl at) e r = test_free threads i (e ∙ ap some at) r
get_free threads i p (inr at) e r =
    let e' = e ∙ ap some at in
    test_free (set threads i testing) i
      (get_elem?-set_self threads i testing (get_elem?_below threads i waiting e'))
      (later r (pick i waiting false testing e' load))

get_lock :
    (val : Bool) (threads : List Pc) (i : ℕ) (p : Pc)
    → Guarded (state val threads)
    → p ≡ testing ⊎ p ≡ waiting
    → get_elem? threads i ≡ some p
    → (u : System) × Reach (state val threads) u × (get_elem? u.threads i ≡ some inside)
get_lock false threads i p g at e = get_free threads i p at e here
get_lock true threads i p g at e =
    let (j, held) = holder threads g in
    get_free (set threads j outside) i p at
      (get_elem?-set_ne threads j i outside
          (λ same. elsewhere p at (sym held ∙ ap (get_elem? threads) same ∙ e))
        ∙ e)
      (later here (pick j inside false outside held release))
  where
    elsewhere : (p : Pc) → p ≡ testing ⊎ p ≡ waiting → some inside ≡ some p → ⊥
    elsewhere p at e = elim at [ inl a ↦ cc (a, e) | inr a ↦ cc (a, e) ]

-- At no time is a thread that is in spinlock_acquire shut out: from every state that the threads can
-- reach, there is a continuation in which it gets the lock, if need be behind the release by the
-- thread that has it. At the start no thread is behind the lock, and `val` is false.
pub Reach-acquires :
    {s t : System} (i : ℕ) (p : Pc)
    → s.val ≡ false
    → count holds s.threads ≡ 0
    → Reach s t
    → p ≡ testing ⊎ p ≡ waiting
    → get_elem? t.threads i ≡ some p
    → (u : System) × Reach t u × (get_elem? u.threads i ≡ some inside)
Reach-acquires {t} i p free nobody r at e =
    get_lock t.val t.threads i p (Reach-Guarded r (nobody ∙ ap taken (sym free))) at e
