-- ===== src/Sl/Tests.antt =====
-- A list of three nodes.
use cc_utils.Base.{ℕ, ◌≡◌, refl, Option, none, some, [], ◌∷◌, ◌==◌, if◌then◌else◌, arith}
use cc_utils.Base.Outcome.{ok}
use cc_utils.Sl.{SlList, sl_del, sl_append, sl_free_all}
use cc_utils.Sl.Contents.{Lists, sl_del-Lists, sl_append-Lists, sl_free_all-Lists}

-- The nodes 4, 7 and 9, and the node 12 of another list.
abbrev three_nodes : SlList
three_nodes = record {
  first = some 4;
  next = λ n. if n == 4 then some 7 else if n == 7 then some 9 else none;
}

three_nodes-Lists : Lists three_nodes (4 ∷ 7 ∷ 9 ∷ [])
three_nodes-Lists = record {
  chain = (refl, (refl, (refl, refl)));
  distinct = ((refl, (refl, tt)), ((refl, tt), (tt, tt)));
}

sl_del-Lists_example : (l : SlList) × (sl_del 4 three_nodes 7 ≡ ok l) × Lists l (4 ∷ 9 ∷ [])
sl_del-Lists_example =
    sl_del-Lists 4 three_nodes (4 ∷ []) 7 (9 ∷ []) three_nodes-Lists (omega arith)

sl_append-Lists_example :
    (l : SlList) × (sl_append 4 three_nodes (some 12) ≡ ok (l, none))
    × Lists l (4 ∷ 7 ∷ 9 ∷ 12 ∷ [])
sl_append-Lists_example =
    sl_append-Lists 4 three_nodes (some 12) (4 ∷ 7 ∷ 9 ∷ []) (12 ∷ []) (refl, (refl, (refl, refl)))
      (refl, refl) ((refl, (refl, (refl, tt))), ((refl, (refl, tt)), ((refl, tt), (tt, tt))))
      (omega arith)

abbrev no_effect : (ℕ → Option ℕ) → ℕ → ℕ → Option ℕ
no_effect next node = next

sl_free_all-Lists_example :
    (l : SlList) × (sl_free_all no_effect 4 three_nodes ≡ ok (l, 4 ∷ 7 ∷ 9 ∷ [])) × Lists l []
sl_free_all-Lists_example =
    sl_free_all-Lists no_effect 4 three_nodes (4 ∷ 7 ∷ 9 ∷ []) (λ next n m apart. refl)
      three_nodes-Lists (omega arith)
