-- ===== src/FaultInject.antt =====
-- src/fault_inject.c and include/fault_inject.h: faults are registered under names, and the code under
-- test asks at each place whether its fault strikes. The nodes of the red-black tree are known by
-- their addresses; the tree itself is the library's. The counters are not negative, and names have
-- at most 62 characters: behind a longer one strncpy leaves no terminator.
pub mod Strikes
mod Tests
use cc_utils.Base.{
  ℕ, ◌+◌, ◌-◌, ◌^◌, ◌==◌, Bool, true, false, ◌||◌, Option, none, some, [], ◌∷◌, ltb, leb,
  if◌then◌else◌, take,
}
use Prim.Native.Nat.{compare, Ordering, lt, eq, gt}
use cc_utils.Base.Outcome.{Outcome, ok, fault, ◌>>=◌}
use cc_utils.Base.Bytes.{Bytes}

-- The red-black tree of the Linux kernel, as fault_inject.c calls it: a tree without a node, and
-- rb_find_first with a comparison of the key with a node, rb_add with a comparison of two nodes, and
-- rb_erase.
pub record RbTree : Type 1 where
  pub Tree : Type 0
  pub root : Tree
  pub find_first : (ℕ → Ordering) → Tree → Option ℕ
  pub add : (ℕ → ℕ → Ordering) → Tree → ℕ → Tree
  pub erase : Tree → ℕ → Tree

-- `fault_inject_t`, with the callback of `fault_inject_internal_t`.
pub record Fault : Type 0 where
  pub name : Bytes
  pub enable : Bool
  pub sleep_time : ℕ
  pub after_times : ℕ
  pub enable_times : ℕ
  pub inject_err : ℕ
  pub hit_times : ℕ
  pub priv : ℕ
  pub callback : Option (ℕ → ℕ → Bool)

-- FAULT_INJECT_NAME_SIZE
abbrev pub fault_inject_name_size : ℕ
fault_inject_name_size = 64

-- strncmp, of strings up to their terminators
unfoldable pub compare_bytes : Bytes → Bytes → Ordering
compare_bytes [] [] = eq
compare_bytes [] (y ∷ b) = lt
compare_bytes (x ∷ a) [] = gt
compare_bytes (x ∷ a) (y ∷ b) =
    let rest = compare_bytes a b in elim (compare x y) [ lt ↦ lt | eq ↦ rest | gt ↦ gt ]

abbrev pub strncmp : Bytes → Bytes → ℕ → Ordering
strncmp a b n = compare_bytes (take n a) (take n b)

abbrev pub fault_inject_reset : Fault → Fault
fault_inject_reset f = record f {
  sleep_time = 0;
  enable_times = 2 ^ 31 - 1;
  after_times = 0;
  enable = false;
  inject_err = 0;
  hit_times = 0;
}

-- What fault_inject_init takes over: everything but the name, `priv` and the callback.
abbrev pub init_from : Fault → Fault → Fault
init_from new f = record f {
  sleep_time = new.sleep_time;
  enable_times = new.enable_times;
  after_times = new.after_times;
  enable = new.enable;
  inject_err = new.inject_err;
  hit_times = new.hit_times;
}

abbrev pub set_hits : ℕ → Fault → Fault
set_hits times f = record f { hit_times = times }

abbrev pub allows : Option (ℕ → ℕ → Bool) → ℕ → ℕ → Bool
allows none priv_arg priv = true
allows (some cb) priv_arg priv = cb priv_arg priv

module _ (rb : RbTree) where
  -- `faults`, and the nodes in memory.
  pub record Faults : Type 0 where
    pub tree : rb.Tree
    pub items : ℕ → Fault

  abbrev pub cmp_node : Faults → ℕ → ℕ → Ordering
  cmp_node r a b = strncmp (r.items a).name (r.items b).name fault_inject_name_size

  abbrev pub cmp_key : Faults → Bytes → ℕ → Ordering
  cmp_key r name a = strncmp name (r.items a).name fault_inject_name_size

  unfoldable pub fault_inject_find : Faults → Bytes → Option ℕ
  fault_inject_find r name = rb.find_first (cmp_key r name) r.tree

  abbrev pub set : Faults → ℕ → Fault → Faults
  set r n f = record r { items = λ m. if m == n then f else r.items m }

  -- A change of the fault that fault_inject_find finds, if it finds one.
  abbrev pub change : Faults → (Fault → Fault) → Option ℕ → Faults
  change r g none = r
  change r g (some n) = set r n (g (r.items n))

  unfoldable pub fault_inject_disable : Faults → Bytes → Faults
  fault_inject_disable r name =
      change r (λ f. record f { enable = false }) (fault_inject_find r name)

  unfoldable pub fault_inject_enable : Faults → Bytes → Faults
  fault_inject_enable r name = change r (λ f. record f { enable = true }) (fault_inject_find r name)

  unfoldable pub fault_inject_reinit : Faults → Bytes → Faults
  fault_inject_reinit r name = change r fault_inject_reset (fault_inject_find r name)

  unfoldable pub fault_inject_init : Faults → Bytes → Fault → Faults
  fault_inject_init r name new = change r (init_from new) (fault_inject_find r name)

  -- `block` is the answer of malloc, through which the code goes as it is; what it does not write is
  -- as malloc left it.
  unfoldable pub fault_inject_insert : Faults → Option ℕ → Bytes → Outcome (ℕ × Faults)
  fault_inject_insert r none name = fault
  fault_inject_insert r (some n) name =
      let new = record (r.items n) {
        name = take (fault_inject_name_size - 1) name;
        callback = none;
      } in
      let r = set r n (fault_inject_reset new) in
      ok (n, record r { tree = rb.add (cmp_node r) r.tree n })

  abbrev pub insert_absent : Faults → Option ℕ → Bytes → Option ℕ → Outcome Faults
  insert_absent r block name (some n) = ok r
  insert_absent r block name none = do (n, r) ← fault_inject_insert r block name; ok r

  unfoldable pub fault_inject_register : Faults → Option ℕ → Bytes → Outcome Faults
  fault_inject_register r block name = insert_absent r block name (fault_inject_find r name)

  abbrev pub insert_priv :
      Faults → Option ℕ → Bytes → Option (ℕ → ℕ → Bool) → Option ℕ → Outcome Faults
  insert_priv r block name cb (some n) = ok r
  insert_priv r block name cb none = do
    (n, r) ← fault_inject_insert r block name
    ok (set r n (record (r.items n) { callback = cb }))

  unfoldable pub fault_inject_register_priv :
      Faults → Option ℕ → Bytes → Option (ℕ → ℕ → Bool) → Outcome Faults
  fault_inject_register_priv r block name cb =
      insert_priv r block name cb (fault_inject_find r name)

  abbrev pub erase_found : Faults → Option ℕ → Option ℕ × Faults
  erase_found r none = (none, r)
  erase_found r (some n) = (some n, record r { tree = rb.erase r.tree n })

  unfoldable pub fault_inject_del : Faults → Bytes → Option ℕ × Faults
  fault_inject_del r name = erase_found r (rb.find_first (cmp_key r name) r.tree)

  -- The node that was taken out is given back to malloc.
  unfoldable pub fault_inject_unregister : Faults → Bytes → Faults
  fault_inject_unregister r name = (fault_inject_del r name).1

  -- The fault at `n` is enabled: its hits are counted, and it is returned if it strikes. The sleep is
  -- left out.
  unfoldable pub hit : Faults → ℕ → ℕ → Outcome (Option ℕ × Faults)
  hit r priv_arg n =
      let f = r.items n in
      let times = f.hit_times + 1 in
      let r = set r n (set_hits times f) in
      if leb (2 ^ 31) times
      then fault
      else if leb times f.after_times || ltb f.enable_times (times - f.after_times)
      then ok (none, r)
      else if allows f.callback priv_arg f.priv
      then ok (some n, r)
      else ok (none, r)

  unfoldable pub get_found : Faults → ℕ → Option ℕ → Outcome (Option ℕ × Faults)
  get_found r priv_arg none = ok (none, r)
  get_found r priv_arg (some n) =
      let struck = hit r priv_arg n in if (r.items n).enable then struck else ok (none, r)

  unfoldable pub fault_inject_cond_get : Faults → Bytes → ℕ → Outcome (Option ℕ × Faults)
  fault_inject_cond_get r name priv_arg = get_found r priv_arg (fault_inject_find r name)
