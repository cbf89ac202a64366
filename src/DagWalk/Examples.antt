-- ===== src/DagWalk/Examples.antt =====
-- Tests and instances for lib/src/dag_walk.rs: a node 3 with the parents 1 and 2, which have the parent 0.
use jj.Prelude.{ℕ, ◌≡◌, refl, some, List, [], ◌∷◌, arith, if◌then◌else◌, nat_eq, ◌==◌, beq_iff}
use jj.Prelude.Outcome.{done, panic}
use jj.DagWalk.{
  push_all, topo_loop, topo_starts, topo_order_reverse, bfs_next, bfs_all, bfs, remove_node,
  remove_nodes, remove_neighbors, heads, leaves_round, leaves_loop, leaves, common_round,
  common_node_loop, closest_common_node,
}
use jj.DagWalk.Dag.{IsDag}
use jj.DagWalk.Topo.{IsTopoOrder, topo_order_reverse_lem}

abbrev id_of : ℕ → ℕ
id_of n = n

abbrev parents : ℕ → List ℕ
parents n = if n == 3 then 1 ∷ 2 ∷ [] else if n == 2 then 0 ∷ [] else if n == 1 then 0 ∷ [] else []

abbrev nodes : List ℕ
nodes = 3 ∷ 2 ∷ 1 ∷ 0 ∷ []

diamond : IsDag id_of parents nodes id_of
diamond = record {
  one_node = λ x y h. h;
  closed = λ n x h i. ground arith;
  falls = λ n x h i. ground (arith);
}

topo_order_reverse_lem_example :
    (result : List ℕ) × (topo_order_reverse id_of parents 10 (3 ∷ []) ≡ done result)
    × IsTopoOrder id_of parents nodes id_of diamond (3 ∷ []) result
topo_order_reverse_lem_example =
    topo_order_reverse_lem id_of parents nodes id_of diamond 10 (3 ∷ []) (omega arith)
      (λ x h. ground (arith, beq_iff 3 x))

topo_order_reverse_diamond :
    topo_order_reverse id_of parents 10 (3 ∷ []) ≡ done (3 ∷ 1 ∷ 2 ∷ 0 ∷ [])
unfolding topo_order_reverse topo_starts topo_loop push_all
topo_order_reverse_diamond = refl

abbrev round : ℕ → List ℕ
round n = if n == 0 then 1 ∷ [] else 0 ∷ []

topo_order_reverse_cycle : topo_order_reverse id_of round 10 (0 ∷ []) ≡ panic
unfolding topo_order_reverse topo_starts topo_loop push_all
topo_order_reverse_cycle = refl

heads_diamond : heads id_of parents 10 (1 ∷ 3 ∷ []) ≡ done (3 ∷ [])
unfolding heads bfs bfs_all bfs_next remove_neighbors remove_nodes remove_node
heads_diamond = refl

leaves_diamond : leaves id_of parents 10 (3 ∷ []) ≡ done (0 ∷ [])
unfolding leaves leaves_loop leaves_round remove_nodes remove_node
leaves_diamond = refl

closest_common_node_diamond : closest_common_node id_of parents 10 (1 ∷ []) (2 ∷ []) ≡ done (some 0)
unfolding closest_common_node common_node_loop common_round
closest_common_node_diamond = refl
