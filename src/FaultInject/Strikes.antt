-- ===== src/FaultInject/Strikes.antt =====
-- When a fault strikes (src/fault_inject.c).
use cc_utils.Base.{
  ℕ, zero, suc, ◌+◌, ◌^◌, ◌<◌, ◌≡◌, ◌==◌, refl, ap, ◌∙◌, fun_ext, true, false, ◌&&◌, none, some,
  ltb, leb, if◌then◌else◌, arith, Bool-cases, ◌⊎◌, inl, inr, ==_refl,
}
use cc_utils.Base.Outcome.{Outcome, ok, ◌>>=◌}
use cc_utils.Base.Bytes.{Bytes}
use cc_utils.FaultInject.{
  RbTree, Fault, Faults, strncmp, fault_inject_name_size, fault_inject_find, set, set_hits, hit,
  get_found, fault_inject_cond_get,
}

module _ (rb : RbTree) where
  -- So many calls of fault_inject_cond_get, one behind another.
  unfoldable pub calls : ℕ → Faults rb → Bytes → ℕ → Outcome (Faults rb)
  calls zero r name priv_arg = ok r
  calls (suc k) r name priv_arg = do
    r ← calls k r name priv_arg
    (_, r) ← fault_inject_cond_get rb r name priv_arg
    ok r

  -- A change of the hits of a fault leaves the names as they are, and with them the search.
  find-set :
      (r : Faults rb) (n : ℕ) (times : ℕ) (name : Bytes)
      → fault_inject_find rb (set rb r n (set_hits times (r.items n))) name
        ≡ fault_inject_find rb r name
  unfolding fault_inject_find
  find-set r n times name =
      ap (λ names. rb.find_first (λ a. strncmp name (names a) fault_inject_name_size) r.tree)
        (fun_ext (λ m. same m (Bool-cases (m == n))))
    where
      same :
          (m : ℕ)
          → ((m == n) ≡ true) ⊎ ((m == n) ≡ false)
          → (if m == n then set_hits times (r.items n) else r.items m).name ≡ (r.items m).name
      same m (inl e) = rw e (ap (λ k. (r.items k).name) (ground (arith, e)))
      same m (inr e) = rw e refl

  cond_get-hit :
      (r : Faults rb) (name : Bytes) (priv_arg n : ℕ)
      → fault_inject_find rb r name ≡ some n
      → (r.items n).enable ≡ true
      → (r.items n).callback ≡ none
      → (r.items n).hit_times + 1 < 2 ^ 31
      → let f = r.items n in
        fault_inject_cond_get rb r name priv_arg
        ≡ ok (
          if leb f.after_times f.hit_times && ltb f.hit_times (f.after_times + f.enable_times)
              then some n
              else none,
          set rb r n (set_hits (f.hit_times + 1) f),
        )
  unfolding fault_inject_cond_get get_found hit
  cond_get-hit r name priv_arg n found on free small =
      ap (get_found rb r priv_arg) found ∙ rw (on, free) (ground arith)

  at-set : (r : Faults rb) (n : ℕ) (f : Fault) → (set rb r n f).items n ≡ f
  at-set r n f = rw (==_refl n) refl

  calls-find :
      (k : ℕ) (r : Faults rb) (name : Bytes) (priv_arg n : ℕ)
      → fault_inject_find rb r name ≡ some n
      → (r.items n).enable ≡ true
      → (r.items n).callback ≡ none
      → (r.items n).hit_times ≡ 0
      → k < 2 ^ 31
      → (r' : Faults rb) × (calls k r name priv_arg ≡ ok r')
        × (fault_inject_find rb r' name ≡ some n)
        × (r'.items n ≡ set_hits k (r.items n))
  unfolding calls
  calls-find zero r name priv_arg n found on free fresh small =
      (r, refl, found, ap (λ t. set_hits t (r.items n)) fresh)
  calls-find (suc k) r name priv_arg n found on free fresh small =
      let (r', e, found', f) = calls-find k r name priv_arg n found on free fresh (omega arith) in
      let hits : (r'.items n).hit_times ≡ k = ap (λ f. f.hit_times) f in
      let e' =
        cond_get-hit r' name priv_arg n found' (ap (λ f. f.enable) f ∙ on)
          (ap (λ f. f.callback) f ∙ free) (omega arith) in
      (
        set rb r' n (set_hits ((r'.items n).hit_times + 1) (r'.items n)),
        rw (e, e') refl,
        find-set r' n ((r'.items n).hit_times + 1) name ∙ found',
        at-set r' n (set_hits ((r'.items n).hit_times + 1) (r'.items n))
            ∙ ap (set_hits ((r'.items n).hit_times + 1)) f
            ∙ ap (λ t. set_hits t (r.items n)) {x = (r'.items n).hit_times + 1} {y = suc k}
                (omega arith),
      )

  -- An enabled fault without a callback, that was not hit yet, strikes at the calls of
  -- fault_inject_cond_get behind the first `after_times`, `enable_times` of them in all, and at no
  -- other: the call that follows `k` calls returns the fault exactly if `k` is at least `after_times`
  -- and less than `after_times` + `enable_times`, and counts a hit either way. The calls are fewer
  -- than 2 ^ 31.
  pub fault_inject_cond_get-strikes :
      (k : ℕ) (r : Faults rb) (name : Bytes) (priv_arg n : ℕ)
      → fault_inject_find rb r name ≡ some n
      → (r.items n).enable ≡ true
      → (r.items n).callback ≡ none
      → (r.items n).hit_times ≡ 0
      → k + 1 < 2 ^ 31
      → let f = r.items n in
        (before after : Faults rb) × (calls k r name priv_arg ≡ ok before)
        × (fault_inject_cond_get rb before name priv_arg
            ≡ ok (
              if leb f.after_times k && ltb k (f.after_times + f.enable_times)
                  then some n
                  else none,
              after,
            ))
        × ((after.items n).hit_times ≡ k + 1)
  fault_inject_cond_get-strikes k r name priv_arg n found on free fresh small =
      let (before, e, found', f) =
        calls-find k r name priv_arg n found on free fresh (omega arith) in
      let hits : (before.items n).hit_times ≡ k = ap (λ f. f.hit_times) f in
      let e' =
        cond_get-hit before name priv_arg n found' (ap (λ f. f.enable) f ∙ on)
          (ap (λ f. f.callback) f ∙ free) (omega arith) in
      (
        before,
        set rb before n (set_hits ((before.items n).hit_times + 1) (before.items n)),
        e,
        e'
            ∙ ap
                (λ g. ok (
                  if leb g.after_times g.hit_times
                        && ltb g.hit_times (g.after_times + g.enable_times)
                      then some n
                      else none,
                  set rb before n (set_hits ((before.items n).hit_times + 1) (before.items n)),
                ))
                f,
        ap (λ f. f.hit_times)
              (at-set before n (set_hits ((before.items n).hit_times + 1) (before.items n)))
            ∙ omega arith,
      )
