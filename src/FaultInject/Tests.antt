-- ===== src/FaultInject/Tests.antt =====
-- A fault that strikes at the third and the fourth call.
use cc_utils.Base.{
  ℕ, ◌+◌, ◌≡◌, ◌==◌, refl, true, ◌&&◌, Option, none, some, List, [], ◌∷◌, ltb, leb, if◌then◌else◌,
  arith,
}
use Prim.Native.Nat.{Ordering, lt, eq, gt}
use cc_utils.Base.Outcome.{ok}
use cc_utils.Base.Bytes.{Bytes}
use cc_utils.FaultInject.{
  RbTree, Fault, Faults, compare_bytes, fault_inject_find, fault_inject_cond_get,
}
use cc_utils.FaultInject.Strikes.{calls, fault_inject_cond_get-strikes}

-- A tree for the example: the list of its nodes.
abbrev search : (ℕ → Ordering) → List ℕ → Option ℕ
search cmp [] = none
search cmp (n ∷ nodes) =
    let rest = search cmp nodes in elim (cmp n) [ eq ↦ some n | lt ↦ rest | gt ↦ rest ]

abbrev without : List ℕ → ℕ → List ℕ
without [] n = []
without (m ∷ nodes) n = let rest = without nodes n in if m == n then rest else m ∷ rest

abbrev listed : RbTree
listed = record {
  Tree = List ℕ;
  root = [];
  find_first = search;
  add = λ cmp nodes n. n ∷ nodes;
  erase = without;
}

abbrev open_name : Bytes
open_name = b'o' ∷ b'p' ∷ []

abbrev two_strikes : Fault
two_strikes = record {
  name = open_name;
  enable = true;
  sleep_time = 0;
  after_times = 2;
  enable_times = 2;
  inject_err = 5;
  hit_times = 0;
  priv = 0;
  callback = none;
}

abbrev faults : Faults listed
faults = record {
  tree = 8 ∷ 9 ∷ [];
  items = λ n. if n == 9 then two_strikes else record two_strikes { name = b'x' ∷ [] };
}

two_strikes_found : fault_inject_find listed faults open_name ≡ some 9
unfolding fault_inject_find compare_bytes
two_strikes_found = refl

fault_inject_cond_get-strikes_example :
    (before after : Faults listed) × (calls listed 3 faults open_name 0 ≡ ok before)
    × (fault_inject_cond_get listed before open_name 0
        ≡ ok (if leb 2 3 && ltb 3 (2 + 2) then some 9 else none, after))
    × ((after.items 9).hit_times ≡ 3 + 1)
fault_inject_cond_get-strikes_example =
    fault_inject_cond_get-strikes listed 3 faults open_name 0 9 two_strikes_found refl refl refl
      (omega arith)
