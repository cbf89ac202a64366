-- ===== src/Index/Composite.antt =====
-- `CompositeIndex` of lib/src/index.rs: what is asked of a whole stack of files, by commit ids. An id
-- that is not in the index is a panic.
use jj.Prelude.{
  ℕ, zero, suc, Bool, true, false, not, Option, none, some, List, [], ◌∷◌, if◌then◌else◌, leb,
  nat_eq,
}
use jj.Prelude.Outcome.{Outcome, done, out_of_fuel, unwrap, ◌>>=◌, map_all}
use jj.Prelude.Sets
use Prim.Native.Nat.{compare, Ordering}
use Prim.Native.Nat.Ordering.{lt, eq, gt}
use jj.OpStore.{CommitId}
use jj.Index.{
  CompositeIndex, commit_id_to_pos, entry_by_pos, entry_by_id, positions_of, commit_ids_of,
}
use jj.Index.Entry.{IndexPosition, IndexEntry}
use jj.Index.Walk.{is_ancestor_pos, common_ancestors_pos, heads_pos}

module _ (fuel : ℕ) (self : CompositeIndex) where
  unfoldable pub is_ancestor : CommitId → CommitId → Outcome Bool
  is_ancestor ancestor_id descendant_id = do
    ancestor ← commit_id_to_pos self ancestor_id
    ancestor_pos ← unwrap ancestor
    descendant ← commit_id_to_pos self descendant_id
    descendant_pos ← unwrap descendant
    is_ancestor_pos (entry_by_pos self) fuel ancestor_pos descendant_pos

  unfoldable pub common_ancestors : List CommitId → List CommitId → Outcome (List CommitId)
  common_ancestors set1 set2 = do
    pos1 ← positions_of self set1
    pos2 ← positions_of self set2
    positions ← common_ancestors_pos (entry_by_pos self) fuel pos1 pos2
    commit_ids_of self positions

  unfoldable pub heads : List CommitId → Outcome (List CommitId)
  heads candidate_ids = do
    candidates ← positions_of self candidate_ids
    positions ← heads_pos (entry_by_pos self) fuel (Sets.collect candidates)
    commit_ids_of self positions

-- `sort` by `IndexEntryByPosition`.
unfoldable pub insert_by_position : IndexEntry → List IndexEntry → List IndexEntry
insert_by_position x [] = x ∷ []
insert_by_position x (y ∷ ys) =
    let rest = y ∷ insert_by_position x ys in if leb x.pos y.pos then x ∷ y ∷ ys else rest

unfoldable pub sort_by_position : List IndexEntry → List IndexEntry
sort_by_position [] = []
sort_by_position (x ∷ xs) = insert_by_position x (sort_by_position xs)

unfoldable pub topo_order : CompositeIndex → List CommitId → Outcome (List IndexEntry)
topo_order self input = do
  entries ← map_all (λ id. entry_by_id self id >>= unwrap) input
  done (sort_by_position entries)

pub record RevWalkWorkItem : Type 0 where
  pub entry : IndexEntry
  pub wanted : Bool

-- The derived order: by position, then unwanted before wanted.
unfoldable pub item_cmp : RevWalkWorkItem → RevWalkWorkItem → Ordering
item_cmp a b = elim (compare a.entry.pos b.entry.pos) [
  | lt ↦ lt
  | gt ↦ gt
  | eq ↦ if not a.wanted then (if b.wanted then lt else eq) else (if b.wanted then eq else gt)
]

-- `BinaryHeap::pop`: the greatest item, and the others.
unfoldable pub pop_item : List RevWalkWorkItem → Option (RevWalkWorkItem × List RevWalkWorkItem)
pop_item [] = none
pop_item (x ∷ xs) = elim (pop_item xs) [
  | none ↦ some (x, [])
  | some (last, rest) ↦ elim (item_cmp x last) [ lt ↦ some (last, x ∷ rest) | _ ↦ some (x, xs) ]
]

-- `RevWalk`, less the index, which stays the same.
pub record RevWalk : Type 0 where
  pub items : List RevWalkWorkItem
  pub wanted_boundary_set : List IndexPosition
  pub unwanted_boundary_set : List IndexPosition

module _ (entry_by_pos : IndexPosition → Outcome IndexEntry) where
  unfoldable pub add_wanted : RevWalk → IndexPosition → Outcome RevWalk
  add_wanted self pos = elim (Sets.contains self.wanted_boundary_set pos) [
    | true ↦ done self
    | false ↦ entry_by_pos pos >>= λ entry. done (record self {
      items = record { entry = entry; wanted = true } ∷ self.items;
      wanted_boundary_set = pos ∷ self.wanted_boundary_set;
    })
  ]

  unfoldable pub add_unwanted : RevWalk → IndexPosition → Outcome RevWalk
  add_unwanted self pos = elim (Sets.contains self.unwanted_boundary_set pos) [
    | true ↦ done self
    | false ↦ entry_by_pos pos >>= λ entry. done (record self {
      items = record { entry = entry; wanted = false } ∷ self.items;
      unwanted_boundary_set = pos ∷ self.unwanted_boundary_set;
    })
  ]

  unfoldable pub add_all_wanted : RevWalk → List IndexPosition → Outcome RevWalk
  add_all_wanted self [] = done self
  add_all_wanted self (pos ∷ positions) =
      add_wanted self pos >>= λ self'. add_all_wanted self' positions

  unfoldable pub add_all_unwanted : RevWalk → List IndexPosition → Outcome RevWalk
  add_all_unwanted self [] = done self
  add_all_unwanted self (pos ∷ positions) =
      add_unwanted self pos >>= λ self'. add_all_unwanted self' positions

  -- The new state, and what `next` returns.
  unfoldable pub next : ℕ → RevWalk → Outcome (RevWalk × Option IndexEntry)
  next zero self = out_of_fuel
  next (suc fuel) self = elim (pop_item self.items) [
    | none ↦ done (self, none)
    | some (item, rest) ↦ elim item.wanted [
      | true ↦
          let self' = record self {
            items = rest;
            wanted_boundary_set = Sets.remove item.entry.pos self.wanted_boundary_set;
          } in
          elim (Sets.contains self.unwanted_boundary_set item.entry.pos) [
            | true ↦ next fuel self'
            | false ↦ add_all_wanted self' item.entry.entry.parent_positions >>= λ walk.
                done (walk, some item.entry)
          ]
      | false ↦
          let self' = record self {
            items = rest;
            unwanted_boundary_set = Sets.remove item.entry.pos self.unwanted_boundary_set;
          } in
          add_all_unwanted self' item.entry.entry.parent_positions >>= λ walk. next fuel walk
    ]
  ]

unfoldable pub walk_revs : CompositeIndex → List CommitId → List CommitId → Outcome RevWalk
walk_revs self wanted unwanted = do
  wanted_positions ← positions_of self wanted
  walk ←
      add_all_wanted (entry_by_pos self)
        (record { items = []; wanted_boundary_set = []; unwanted_boundary_set = [] })
        wanted_positions
  unwanted_positions ← positions_of self unwanted
  add_all_unwanted (entry_by_pos self) walk unwanted_positions
