-- ===== src/Dtq/Tests.antt =====
-- A ring of two nodes.
use cc_utils.Base.{◌≡◌, refl, none, some, [], ◌∷◌, ◌==◌, if◌then◌else◌}
use cc_utils.Base.Outcome.{ok}
use cc_utils.Dtq.{Memory, dtq_del, dtq_add_head, dtq_del_tail}
use cc_utils.Dtq.Contents.{Rings, dtq_del-Rings, dtq_add_head-Rings, dtq_del_tail-Rings}

-- The nodes 4 and 7 of the list at 1.
abbrev two_nodes : Memory
two_nodes = record {
  next = λ n. if n == 1 then some 4 else if n == 4 then some 7 else if n == 7 then some 1 else none;
  prev = λ n. if n == 1 then some 7 else if n == 7 then some 4 else if n == 4 then some 1 else none;
}

two_nodes-Rings : Rings two_nodes 1 (4 ∷ 7 ∷ [])
two_nodes-Rings = record {
  forward = (refl, (refl, refl));
  backward = (refl, (refl, refl));
  distinct = ((refl, (refl, tt)), ((refl, tt), (tt, tt)));
}

dtq_del-Rings_example : (m : Memory) × (dtq_del two_nodes 4 ≡ ok m) × Rings m 1 (7 ∷ [])
dtq_del-Rings_example = dtq_del-Rings two_nodes 1 [] 4 (7 ∷ []) two_nodes-Rings

dtq_add_head-Rings_example :
    (m : Memory) × (dtq_add_head two_nodes 1 9 ≡ ok m) × Rings m 1 (9 ∷ 4 ∷ 7 ∷ [])
dtq_add_head-Rings_example =
    dtq_add_head-Rings two_nodes 1 (4 ∷ 7 ∷ []) 9 two_nodes-Rings (refl, (refl, (refl, tt)))

dtq_del_tail-Rings_example :
    (m : Memory) × (dtq_del_tail two_nodes 1 ≡ ok (some 7, m)) × Rings m 1 (4 ∷ [])
dtq_del_tail-Rings_example = dtq_del_tail-Rings two_nodes 1 (4 ∷ []) 7 two_nodes-Rings
