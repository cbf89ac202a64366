-- ===== src/DagWalk.antt =====
-- lib/src/dag_walk.rs: walks over a graph that is given by the neighbors of a node. A set of nodes is
-- told apart by their ids: two nodes with one id are one node. Fuel bounds the rounds of a loop.
pub mod Topo
pub mod TopoSteps
pub mod Dag
pub mod Order
pub mod Examples
use jj.Prelude.{
  ℕ, zero, suc, Bool, true, false, Option, none, some, List, [], ◌∷◌, ◌++◌, if◌then◌else◌, is_empty,
  Eq, ◌==◌, map,
}
use jj.Prelude.Outcome.{Outcome, done, panic, out_of_fuel, ◌>>=◌}
use jj.Prelude.Sets
use mathlib.Core.List.{reverse}

-- `stack.push((neighbor, false))` for all neighbors.
unfoldable pub push_all {ℓ} : {T : Type ℓ} → List T → List (T × Bool) → List (T × Bool)
push_all [] stack = stack
push_all (neighbor ∷ neighbors) stack = push_all neighbors ((neighbor, false) ∷ stack)

-- The variables of `topo_order_reverse`. What is pushed on a `Vec` that is reversed at the end is
-- put at the head.
pub record TopoState {ℓ κ} (T : Type ℓ) (ID : Type κ) : Type (ℓ ⊔ κ) where
  pub visiting : List ID
  pub emitted : List ID
  pub result : List T

-- One of the loops over the work of `leaves`: the new work, the visited ids, the leaves and the
-- nodes that are none.
pub record LeavesState {ℓ κ} (T : Type ℓ) (ID : Type κ) : Type (ℓ ⊔ κ) where
  pub new_work : List T
  pub visited : List ID
  pub leaves : List T
  pub non_leaves : List T

module _ {ℓ κ} {T : Type ℓ} {ID : Type κ} ⦃e : Eq ID⦄ (id_fn : T → ID)
    (neighbors_fn : T → List T) where
  -- `BfsIter`: the work, a stack with its top first, and the ids that were visited, are the
  -- arguments. The node that `next` returns, and the new state; `none` is the end.
  unfoldable pub bfs_next : List T → List ID → Option (T × List T × List ID)
  bfs_next [] visited = none
  bfs_next (c ∷ work) visited =
      let skipped = bfs_next work visited in
      if Sets.contains visited (id_fn c)
      then skipped
      else some (c, reverse (neighbors_fn c) ++ work, id_fn c ∷ visited)

  -- All that an iterator returns.
  unfoldable pub bfs_all : ℕ → List T → List ID → Outcome (List T)
  bfs_all zero work visited = out_of_fuel
  bfs_all (suc fuel) work visited = elim (bfs_next work visited) [
    | none ↦ done []
    | some (c, work', visited') ↦ bfs_all fuel work' visited' >>= λ rest. done (c ∷ rest)
  ]

  -- `bfs`, run to its end.
  unfoldable pub bfs : ℕ → List T → Outcome (List T)
  bfs fuel start = bfs_all fuel (reverse start) []

  -- `reachable.remove(neighbor)`
  unfoldable pub remove_node : ID → List T → List T
  remove_node id [] = []
  remove_node id (x ∷ xs) =
      let rest = x ∷ remove_node id xs in if id_fn x == id then remove_node id xs else rest

  unfoldable pub remove_nodes : List T → List T → List T
  remove_nodes [] reachable = reachable
  remove_nodes (neighbor ∷ neighbors) reachable =
      remove_nodes neighbors (remove_node (id_fn neighbor) reachable)

  -- What the walk of `heads` removes.
  unfoldable pub remove_neighbors : List T → List T → List T
  remove_neighbors [] reachable = reachable
  remove_neighbors (node ∷ nodes) reachable =
      remove_neighbors nodes (remove_nodes (neighbors_fn node) reachable)

  unfoldable pub heads : ℕ → List T → Outcome (List T)
  heads fuel start = bfs fuel start >>= λ nodes. done (remove_neighbors nodes start)

  -- The `while let` loop.
  unfoldable pub topo_loop : ℕ → List (T × Bool) → TopoState T ID → Outcome (TopoState T ID)
  topo_loop zero stack s = out_of_fuel
  topo_loop (suc fuel) [] s = done s
  topo_loop (suc fuel) ((node, neighbors_visited) ∷ stack) s =
      let id = id_fn node in
      elim (Sets.contains s.emitted id) [
        | true ↦ topo_loop fuel stack s
        | false ↦ elim neighbors_visited [
          | false ↦ elim (Sets.contains s.visiting id) [
            | true ↦ panic
            | false ↦
                topo_loop fuel (push_all (neighbors_fn node) ((node, true) ∷ stack))
                  (record s { visiting = id ∷ s.visiting })
          ]
          | true ↦ topo_loop fuel stack (record {
            visiting = Sets.remove id s.visiting;
            emitted = id ∷ s.emitted;
            result = node ∷ s.result;
          })
        ]
      ]

  -- The loop over the start nodes.
  unfoldable pub topo_starts : ℕ → List T → TopoState T ID → Outcome (TopoState T ID)
  topo_starts fuel [] s = done s
  topo_starts fuel (start_node ∷ start_nodes) s =
      topo_loop fuel ((start_node, false) ∷ []) s >>= λ s'. topo_starts fuel start_nodes s'

  unfoldable pub topo_order_reverse : ℕ → List T → Outcome (List T)
  topo_order_reverse fuel start =
      topo_starts fuel (reverse start) (record { visiting = []; emitted = []; result = [] })
      >>= λ s. done s.result

  unfoldable pub leaves_round : List T → LeavesState T ID → LeavesState T ID
  leaves_round [] s = s
  leaves_round (c ∷ work) s =
      let neighbors = neighbors_fn c in
      leaves_round work (
        if Sets.contains s.visited (id_fn c) then s else record {
          new_work = s.new_work ++ neighbors;
          visited = id_fn c ∷ s.visited;
          leaves = c ∷ s.leaves;
          non_leaves = if is_empty neighbors then s.non_leaves else c ∷ s.non_leaves;
        })

  unfoldable pub leaves_loop : ℕ → LeavesState T ID → Outcome (LeavesState T ID)
  leaves_loop zero s = out_of_fuel
  leaves_loop (suc fuel) s = elim s.new_work [
    | [] ↦ done s
    | c ∷ work ↦ leaves_loop fuel (leaves_round (c ∷ work) (record s { new_work = [] }))
  ]

  unfoldable pub leaves : ℕ → List T → Outcome (List T)
  leaves fuel start =
      leaves_loop fuel (record { new_work = start; visited = []; leaves = start; non_leaves = [] })
      >>= λ s. done (remove_nodes s.non_leaves s.leaves)

  -- One side's loop over its work in `closest_common_node`: the node that is found, or the new work
  -- and the visited ids.
  unfoldable pub common_round : List T → List T → List ID → List ID → Option T × List T × List ID
  common_round [] new_work visited others = (none, new_work, visited)
  common_round (node ∷ work) new_work visited others =
      let id = id_fn node in
      let rest =
        common_round work
          (if Sets.contains visited id then new_work else new_work ++ neighbors_fn node)
          (if Sets.contains visited id then visited else id ∷ visited) others in
      if Sets.contains others id then (some node, new_work, visited) else rest

  unfoldable pub common_node_loop : ℕ → List T → List T → List ID → List ID → Outcome (Option T)
  common_node_loop zero work1 work2 visited1 visited2 = out_of_fuel
  common_node_loop (suc fuel) work1 work2 visited1 visited2 = elim (work1 ++ work2) [
    | [] ↦ done none
    | _ ∷ _ ↦
        let (found1, new_work1, visited1') = common_round work1 [] visited1 visited2 in
        elim found1 [
          | some node ↦ done (some node)
          | none ↦
              let (found2, new_work2, visited2') = common_round work2 [] visited2 visited1' in
              elim found2 [
                | some node ↦ done (some node)
                | none ↦ common_node_loop fuel new_work1 new_work2 visited1' visited2'
              ]
        ]
  ]

  unfoldable pub closest_common_node : ℕ → List T → List T → Outcome (Option T)
  closest_common_node fuel set1 set2 = common_node_loop fuel set1 set2 [] []
