-- ===== src/Spin/Tests.antt =====
-- Two threads: the second waits for the first.
use cc_utils.Base.{◌≤◌, ◌≡◌, refl, inr, true, false, some, [], ◌∷◌, get_elem?}
use cc_utils.Locked.Safety.{count}
use cc_utils.Spin.{
  outside, testing, waiting, inside, acquire, test, System, pick, Reach, here, later,
}
use cc_utils.Spin.Exclusion.{holds, taken, Reach-exclusive}
use cc_utils.Spin.Progress.{Reach-acquires}

abbrev started : System
started = record { val = false; threads = outside ∷ outside ∷ [] }

abbrev contended : System
contended = record { val = true; threads = inside ∷ waiting ∷ [] }

contend : Reach started contended
contend =
    later
      (later
        (later (later here (pick 0 outside false testing refl acquire))
          (pick 0 testing true inside refl test))
        (pick 1 outside true testing refl acquire))
      (pick 1 testing true waiting refl test)

Reach-exclusive_example :
    (count holds contended.threads ≤ 1) × (count holds contended.threads ≡ taken true)
Reach-exclusive_example = Reach-exclusive refl refl contend

Reach-acquires_example : (u : System) × Reach contended u × (get_elem? u.threads 1 ≡ some inside)
Reach-acquires_example = Reach-acquires 1 waiting refl refl contend (inr refl) refl
