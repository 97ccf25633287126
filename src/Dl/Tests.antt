-- ===== src/Dl/Tests.antt =====
-- A list of two nodes at 1.
use cc_utils.Base.{refl, none, some, [], ◌∷◌, ◌==◌, if◌then◌else◌}
use cc_utils.Dl.{Links, dl_del}
use cc_utils.Dl.Contents.{Linked, dl_del-Linked}

abbrev two_nodes : Links
two_nodes = record {
  next = λ n. if n == 1 then some 4 else if n == 4 then some 7 else none;
  prev = λ n. if n == 4 then some 1 else if n == 7 then some 4 else none;
}

two_nodes-Linked : Linked two_nodes 1 (4 ∷ 7 ∷ [])
two_nodes-Linked = record {
  chain = (refl, (refl, refl));
  backs = (refl, (refl, tt));
  distinct = ((refl, (refl, tt)), ((refl, tt), (tt, tt)));
}

dl_del-Linked_example : Linked (dl_del two_nodes 4) 1 (7 ∷ [])
dl_del-Linked_example = dl_del-Linked two_nodes 1 [] 4 (7 ∷ []) two_nodes-Linked
