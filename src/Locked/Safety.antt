-- ===== src/Locked/Safety.antt =====
-- Threads that share a list of include/list.h through its lock keep out of each other's way.
use cc_utils.Base.{
  ℕ, ◌+◌, ◌≤◌, ◌≡◌, refl, ap, ◌∙◌, sym, subst, List, [], ◌∷◌, ◌++◌, Bool, true, false, arith, ◌⊎◌,
  inl, inr,
}
use cc_utils.Locked.{
  RwLock, Shareable, Answer, Pc, idle, entered, working, leaving, Shared, Move, read_lock,
  write_lock, Obliges, read_refused, write_refused, begin, end_read, end_write, read_unlock,
  write_unlock, System, Step, pick, Reach, here, later,
}

abbrev pub one_if : Bool → ℕ
one_if true = 1
one_if false = 0

abbrev pub zero_if : Bool → ℕ
zero_if true = 0
zero_if false = 1

-- Whether a thread is in a call under the lock for reading, and for writing.
abbrev pub reads : {Op Value : Type 0} → (Op → Bool) → Pc Op Value → ℕ
reads only_reads idle = 0
reads only_reads (entered op) = one_if (only_reads op)
reads only_reads (working op v) = one_if (only_reads op)
reads only_reads (leaving op) = one_if (only_reads op)

abbrev pub writes : {Op Value : Type 0} → (Op → Bool) → Pc Op Value → ℕ
writes only_reads idle = 0
writes only_reads (entered op) = zero_if (only_reads op)
writes only_reads (working op v) = zero_if (only_reads op)
writes only_reads (leaving op) = zero_if (only_reads op)

abbrev pub count : {A : Type 0} → (A → ℕ) → List A → ℕ
count w [] = 0
count w (p ∷ ps) = w p + count w ps

pub count-append :
    {A : Type 0} (w : A → ℕ) (ps : List A) (p : A) (qs : List A)
    → count w (ps ++ (p ∷ qs)) ≡ count w ps + w p + count w qs
count-append w [] p qs = omega arith
count-append w (q ∷ ps) p qs = omega (arith, count-append w ps p qs)

-- The lock counts the threads that are inside, and lets at most one writer in, alone.
pub record Agrees (readers writers inside_reading inside_writing : ℕ) : Type 0 where
  pub readers_inside : readers ≡ inside_reading
  pub writers_inside : writers ≡ inside_writing
  pub one_writer : inside_writing ≤ 1
  pub apart : inside_writing ≡ 0 ⊎ inside_reading ≡ 0

module _ (lock : RwLock) (list : Shareable) where
  abbrev pub reading : List (Pc list.Op list.Value) → ℕ
  reading ps = count (reads list.only_reads) ps

  abbrev pub writing : List (Pc list.Op list.Value) → ℕ
  writing ps = count (writes list.only_reads) ps

  abbrev pub Guarded : lock.State → List (Pc list.Op list.Value) → Type 0
  Guarded held ps = Agrees (lock.readers held) (lock.writers held) (reading ps) (writing ps)

  -- Nobody is inside.
  pub record Quiet (s : System lock list) : Type 0 where
    pub free : (lock.readers s.shared.held ≡ 0) × (lock.writers s.shared.held ≡ 0)
    pub outside : (reading s.threads ≡ 0) × (writing s.threads ≡ 0)

module _ (lock : RwLock) (list : Shareable) (obliges : Obliges lock) where
  -- A move inside of a call.
  still-Guarded :
      (held : lock.State) (before after : List (Pc list.Op list.Value))
      (p p' : Pc list.Op list.Value)
      → reads list.only_reads p' ≡ reads list.only_reads p
      → writes list.only_reads p' ≡ writes list.only_reads p
      → Guarded lock list held (before ++ (p ∷ after))
      → Guarded lock list held (before ++ (p' ∷ after))
  still-Guarded held before after p p' er ew g =
      let same_reads =
        count-append (reads list.only_reads) before p after
        ∙ ap (λ n. reading lock list before + n + reading lock list after) (sym er)
        ∙ sym (count-append (reads list.only_reads) before p' after) in
      let same_writes =
        count-append (writes list.only_reads) before p after
        ∙ ap (λ n. writing lock list before + n + writing lock list after) (sym ew)
        ∙ sym (count-append (writes list.only_reads) before p' after) in
      subst
        (λ n.
          Agrees (lock.readers held) (lock.writers held) n
            (writing lock list (before ++ (p' ∷ after))))
        same_reads
        (subst
          (λ n.
            Agrees (lock.readers held) (lock.writers held)
              (reading lock list (before ++ (p ∷ after))) n)
          same_writes g)

  Move-Guarded :
      {m m' : Shared lock list} {p p' : Pc list.Op list.Value} {events : List (list.Op × Answer)}
      (before after : List (Pc list.Op list.Value))
      → Move lock list m p events m' p'
      → Guarded lock list m.held (before ++ (p ∷ after))
      → Guarded lock list m'.held (before ++ (p' ∷ after))
  Move-Guarded {m} before after (read_lock op held e got) g =
      let r = count-append (reads list.only_reads) before idle after in
      let r' = count-append (reads list.only_reads) before (entered op) after in
      let w = count-append (writes list.only_reads) before idle after in
      let w' = count-append (writes list.only_reads) before (entered op) after in
      let gr = g.readers_inside in
      let gw = g.writers_inside in
      let ga = g.one_writer in
      let gx = g.apart in
      let one : one_if (list.only_reads op) ≡ 1 = ap one_if e in
      let none : zero_if (list.only_reads op) ≡ 0 = ap zero_if e in
      let law = lock.rdlock_taken m.held held got in
      record {
        readers_inside = omega arith;
        writers_inside = omega arith;
        one_writer = omega arith;
        apart = inl (omega arith);
      }
  Move-Guarded {m} before after (write_lock op held e got) g =
      let r = count-append (reads list.only_reads) before idle after in
      let r' = count-append (reads list.only_reads) before (entered op) after in
      let w = count-append (writes list.only_reads) before idle after in
      let w' = count-append (writes list.only_reads) before (entered op) after in
      let gr = g.readers_inside in
      let gw = g.writers_inside in
      let ga = g.one_writer in
      let gx = g.apart in
      let none : one_if (list.only_reads op) ≡ 0 = ap one_if e in
      let one : zero_if (list.only_reads op) ≡ 1 = ap zero_if e in
      let law = lock.wrlock_taken m.held held got in
      record {
        readers_inside = omega arith;
        writers_inside = omega arith;
        one_writer = omega arith;
        apart = inr (omega arith);
      }
  Move-Guarded {m} before after (read_refused op held e got) g =
      absurd (obliges.rdlock m.held held got)
  Move-Guarded {m} before after (write_refused op held e got) g =
      absurd (obliges.wrlock m.held held got)
  Move-Guarded {m} before after (begin op) g =
      still-Guarded m.held before after (entered op) (working op m.value) refl refl g
  Move-Guarded {m} before after (end_read op fuel v value answer e done) g =
      still-Guarded m.held before after (working op v) (leaving op) refl refl g
  Move-Guarded {m} before after (end_write op fuel v value answer e done) g =
      still-Guarded m.held before after (working op v) (leaving op) refl refl g
  Move-Guarded {m} before after (read_unlock op e) g =
      let r = count-append (reads list.only_reads) before (leaving op) after in
      let r' = count-append (reads list.only_reads) before idle after in
      let w = count-append (writes list.only_reads) before (leaving op) after in
      let w' = count-append (writes list.only_reads) before idle after in
      let gr = g.readers_inside in
      let gw = g.writers_inside in
      let ga = g.one_writer in
      let gx = g.apart in
      let one : one_if (list.only_reads op) ≡ 1 = ap one_if e in
      let none : zero_if (list.only_reads op) ≡ 0 = ap zero_if e in
      let free : lock.writers m.held ≡ 0 = ground arith in
      let law =
        lock.unlock_reader m.held (reading lock list before + reading lock list after) free
          (omega arith) in
      record {
        readers_inside = omega arith;
        writers_inside = omega arith;
        one_writer = omega arith;
        apart = inl (omega arith);
      }
  Move-Guarded {m} before after (write_unlock op e) g =
      let r = count-append (reads list.only_reads) before (leaving op) after in
      let r' = count-append (reads list.only_reads) before idle after in
      let w = count-append (writes list.only_reads) before (leaving op) after in
      let w' = count-append (writes list.only_reads) before idle after in
      let gr = g.readers_inside in
      let gw = g.writers_inside in
      let ga = g.one_writer in
      let gx = g.apart in
      let none : one_if (list.only_reads op) ≡ 0 = ap one_if e in
      let one : zero_if (list.only_reads op) ≡ 1 = ap zero_if e in
      let free : lock.readers m.held ≡ 0 = ground arith in
      let law = lock.unlock_writer m.held (omega arith) free in
      record {
        readers_inside = omega arith;
        writers_inside = omega arith;
        one_writer = omega arith;
        apart = inl (omega arith);
      }

  Step-Guarded :
      {s t : System lock list} {events : List (list.Op × Answer)}
      → Step lock list s events t
      → Guarded lock list s.shared.held s.threads
      → Guarded lock list t.shared.held t.threads
  Step-Guarded {s} (pick before p after events m p' e mv) g =
      Move-Guarded before after mv (subst (Guarded lock list s.shared.held) e g)

  pub Reach-Guarded :
      {s t : System lock list} {events : List (list.Op × Answer)}
      → Reach lock list s events t
      → Guarded lock list s.shared.held s.threads
      → Guarded lock list t.shared.held t.threads
  Reach-Guarded here g = g
  Reach-Guarded (later r st) g = Step-Guarded st (Reach-Guarded r g)

  pub Quiet-Guarded :
      {s : System lock list} → Quiet lock list s → Guarded lock list s.shared.held s.threads
  Quiet-Guarded q =
      let free = q.free in
      let outside = q.outside in
      record {
        readers_inside = omega arith;
        writers_inside = omega arith;
        one_writer = omega arith;
        apart = inl (omega arith);
      }

  -- However the calls of the threads interleave, from a state where no thread is inside, and where the lock
  -- refuses no caller: where a thread is in a call that takes the lock for writing, no other thread is in any call.
  pub Reach-alone :
      {s t : System lock list} {events : List (list.Op × Answer)}
      (before : List (Pc list.Op list.Value)) (p : Pc list.Op list.Value)
      (after : List (Pc list.Op list.Value))
      → Quiet lock list s
      → Reach lock list s events t
      → t.threads ≡ before ++ (p ∷ after)
      → writes list.only_reads p ≡ 1
      → (writing lock list before + writing lock list after ≡ 0)
        × (reading lock list before + reading lock list after ≡ 0)
  Reach-alone before p after q r e w =
      let g = Reach-Guarded r (Quiet-Guarded q) in
      let cw = ap (writing lock list) e ∙ count-append (writes list.only_reads) before p after in
      let cr = ap (reading lock list) e ∙ count-append (reads list.only_reads) before p after in
      let ga = g.one_writer in let gp = g.apart in (omega arith, ground arith)
