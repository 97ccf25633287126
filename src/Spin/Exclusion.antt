-- ===== src/Spin/Exclusion.antt =====
-- At most one thread is behind the spin lock of include/spin.h.
use cc_utils.Base.{
  ℕ, zero, suc, ◌+◌, ◌≤◌, ◌≡◌, ap, sym, ◌∙◌, Bool, true, false, none, some, List, [], ◌∷◌,
  get_elem?, set, arith,
}
use cc_utils.Locked.Safety.{count}
use cc_utils.Spin.{
  Pc, inside, Move, acquire, test, load, try, release, System, Step, pick, Reach, here, later,
}

abbrev pub holds : Pc → ℕ
holds inside = 1
holds _ = 0

abbrev pub taken : Bool → ℕ
taken true = 1
taken false = 0

pub count-set :
    {A : Type 0} (w : A → ℕ) (ps : List A) (i : ℕ) (p p' : A)
    → get_elem? ps i ≡ some p
    → count w (set ps i p') + w p ≡ count w ps + w p'
count-set w [] i p p' e = absurd cc
count-set w (q ∷ ps) zero p p' e =
    let same : w q ≡ w p = ap (λ o. elim o [ none ↦ w q | some r ↦ w r ]) e in omega arith
count-set w (q ∷ ps) (suc i) p p' e = omega (arith, count-set w ps i p p' e)

-- `val` says whether a thread is behind the lock, and there is one at most.
abbrev pub Guarded : System → Type 0
Guarded s = count holds s.threads ≡ taken s.val

moved :
    (val val' : Bool) (p p' : Pc)
    → Move val p val' p'
    → holds p ≤ taken val
    → taken val' + holds p ≡ taken val + holds p'
moved val val' p p' acquire h = omega arith
moved true val' p p' test h = omega arith
moved false val' p p' test h = omega arith
moved true val' p p' load h = omega arith
moved false val' p p' load h = omega arith
moved true val' p p' try h = omega arith
moved false val' p p' try h = omega arith
moved true val' p p' release h = omega arith
moved false val' p p' release h = absurd (omega arith)

counted : (ps : List Pc) (i : ℕ) (p : Pc) → get_elem? ps i ≡ some p → holds p ≤ count holds ps
counted [] i p e = absurd cc
counted (q ∷ ps) zero p e =
    let same : holds q ≡ holds p = ap (λ o. elim o [ none ↦ holds q | some r ↦ holds r ]) e in
    omega arith
counted (q ∷ ps) (suc i) p e = omega (arith, counted ps i p e)

Step-Guarded : {s t : System} → Step s t → Guarded s → Guarded t
Step-Guarded {s} (pick i p val p' e mv) g =
    let c = count-set holds s.threads i p p' e in
    let m = moved s.val val p p' mv (omega (arith, counted s.threads i p e)) in omega arith

at_most_one : (val : Bool) {n : ℕ} → n ≡ taken val → n ≤ 1
at_most_one true e = omega arith
at_most_one false e = omega arith

pub Reach-Guarded : {s t : System} → Reach s t → Guarded s → Guarded t
Reach-Guarded here g = g
Reach-Guarded (later r st) g = Step-Guarded st (Reach-Guarded r g)

-- However the calls of the threads interleave, from a state where no thread is behind the lock and
-- `val` is false: at all times at most one thread is behind the lock, and `val` tells whether one is.
pub Reach-exclusive :
    {s t : System}
    → s.val ≡ false
    → count holds s.threads ≡ 0
    → Reach s t
    → (count holds t.threads ≤ 1) × (count holds t.threads ≡ taken t.val)
Reach-exclusive {s} {t} free nobody r =
    let g = Reach-Guarded r (nobody ∙ ap taken (sym free)) in (at_most_one t.val g, g)
