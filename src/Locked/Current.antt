-- ===== src/Locked/Current.antt =====
-- Threads that share a list of include/list.h through its lock work on the list as it is: nobody has changed
-- it since their operations began.
use cc_utils.Base.{◌+◌, ◌≡◌, refl, ap, subst, List, [], ◌∷◌, ◌++◌, Bool-cases, arith, inl, inr, All}
use cc_utils.Locked.{
  RwLock, Shareable, Obliges, Answer, Pc, idle, entered, working, leaving, Shared, Move, read_lock,
  write_lock, read_refused, write_refused, begin, end_read, end_write, read_unlock, write_unlock,
  System, pick, Reach, here, later,
}
use cc_utils.Locked.Safety.{writes, one_if, zero_if, reading, writing, Quiet, Reach-alone}

pub All-middle :
    {A : Type 0} (P : A → Type 0) (before : List A) (p : A) (after : List A)
    → All P (before ++ (p ∷ after))
    → All P before × P p × All P after
All-middle P [] p after (h, hs) = (tt, h, hs)
All-middle P (x ∷ before) p after (h, hs) =
    let (front, own, back) = All-middle P before p after hs in ((h, front), own, back)

All-insert :
    {A : Type 0} (P : A → Type 0) (before : List A) (p : A) (after : List A)
    → All P before
    → P p
    → All P after
    → All P (before ++ (p ∷ after))
All-insert P [] p after front own back = (own, back)
All-insert P (x ∷ before) p after (h, front) own back =
    (h, All-insert P before p after front own back)

module _ (lock : RwLock) (list : Shareable) where
  -- A thread in its operation began it on this list.
  abbrev pub IsCurrent : list.Value → Pc list.Op list.Value → Type 0
  IsCurrent value (working op v) = v ≡ value
  IsCurrent value _ = Unit {0}

  -- Who is in no call is in no operation.
  outside-IsCurrent :
      (value : list.Value) (ps : List (Pc list.Op list.Value))
      → reading lock list ps ≡ 0
      → writing lock list ps ≡ 0
      → All (IsCurrent value) ps
  outside-IsCurrent value [] r w = tt
  outside-IsCurrent value (idle ∷ ps) r w =
      (tt, outside-IsCurrent value ps (omega arith) (omega arith))
  outside-IsCurrent value (entered op ∷ ps) r w =
      (tt, outside-IsCurrent value ps (omega arith) (omega arith))
  outside-IsCurrent value (leaving op ∷ ps) r w =
      (tt, outside-IsCurrent value ps (omega arith) (omega arith))
  outside-IsCurrent value (working op v ∷ ps) r w = elim (Bool-cases (list.only_reads op)) [
    | inl e ↦ let one : one_if (list.only_reads op) ≡ 1 = ap one_if e in absurd (omega arith)
    | inr e ↦ let one : zero_if (list.only_reads op) ≡ 1 = ap zero_if e in absurd (omega arith)
  ]

  replaced :
      (value : list.Value) (before : List (Pc list.Op list.Value)) (p p' : Pc list.Op list.Value)
      (after : List (Pc list.Op list.Value))
      → IsCurrent value p'
      → All (IsCurrent value) (before ++ (p ∷ after))
      → All (IsCurrent value) (before ++ (p' ∷ after))
  replaced value before p p' after own h =
      let (front, _, back) = All-middle (IsCurrent value) before p after h in
      All-insert (IsCurrent value) before p' after front own back

  module _ (obliges : Obliges lock) where
    Move-IsCurrent :
        {m m' : Shared lock list} {p p' : Pc list.Op list.Value} {events : List (list.Op × Answer)}
        (before after : List (Pc list.Op list.Value))
        → (writes list.only_reads p ≡ 1
            → (writing lock list before + writing lock list after ≡ 0)
              × (reading lock list before + reading lock list after ≡ 0))
        → Move lock list m p events m' p'
        → All (IsCurrent m.value) (before ++ (p ∷ after))
        → All (IsCurrent m'.value) (before ++ (p' ∷ after))
    Move-IsCurrent {m} before after alone (read_lock op held e got) h =
        replaced m.value before idle (entered op) after tt h
    Move-IsCurrent {m} before after alone (write_lock op held e got) h =
        replaced m.value before idle (entered op) after tt h
    Move-IsCurrent {m} before after alone (read_refused op held e got) h =
        replaced m.value before idle (entered op) after tt h
    Move-IsCurrent {m} before after alone (write_refused op held e got) h =
        replaced m.value before idle (entered op) after tt h
    Move-IsCurrent {m} before after alone (begin op) h =
        replaced m.value before (entered op) (working op m.value) after refl h
    Move-IsCurrent {m} before after alone (end_read op fuel v value answer e done) h =
        replaced m.value before (working op v) (leaving op) after tt h
    Move-IsCurrent before after alone (end_write op fuel v value answer e done) h =
        let (w, r) = alone (ap zero_if e) in
        All-insert (IsCurrent value) before (leaving op) after
          (outside-IsCurrent value before (omega arith) (omega arith)) tt
          (outside-IsCurrent value after (omega arith) (omega arith))
    Move-IsCurrent {m} before after alone (read_unlock op e) h =
        replaced m.value before (leaving op) idle after tt h
    Move-IsCurrent {m} before after alone (write_unlock op e) h =
        replaced m.value before (leaving op) idle after tt h

    -- However the calls interleave, each operation under way began on the list as it is.
    pub Reach-IsCurrent :
        {s t : System lock list} {events : List (list.Op × Answer)}
        → Quiet lock list s
        → Reach lock list s events t
        → All (IsCurrent t.shared.value) t.threads
    Reach-IsCurrent {s} q here = outside-IsCurrent s.shared.value s.threads q.outside.0 q.outside.1
    Reach-IsCurrent q (later {t} r (pick before p after events m p' e mv)) =
        Move-IsCurrent before after (Reach-alone lock list obliges before p after q r e) mv
          (subst (All (IsCurrent t.shared.value)) e (Reach-IsCurrent q r))
