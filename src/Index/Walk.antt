-- ===== src/Index/Walk.antt =====
-- The walks over the commits in lib/src/index.rs. They read the index by the position of an entry,
-- which is their parameter; a panic of that is one of theirs. Fuel bounds the rounds of a walk.
use jj.Prelude.{
  ℕ, zero, suc, Bool, true, false, Option, none, some, List, [], ◌∷◌, ◌++◌, if◌then◌else◌, ltb, leb,
  nat_eq, nat_beq,
}
use jj.Prelude.Outcome.{Outcome, done, out_of_fuel, ◌>>=◌, map_all}
use jj.Prelude.Sets
use Prim.Native.Nat.{compare, Ordering}
use Prim.Native.Nat.Ordering.{lt, eq, gt}
use mathlib.Core.List.{reverse}
use jj.Index.Entry.{IndexPosition, IndexEntry}

-- The order of `IndexEntryByGeneration`.
unfoldable pub generation_cmp : IndexEntry → IndexEntry → Ordering
generation_cmp a b = elim (compare a.entry.generation_number b.entry.generation_number) [
  | lt ↦ lt
  | gt ↦ gt
  | eq ↦ compare a.pos b.pos
]

-- The greatest entry, and the others: `pop` of a heap, or `pop_last` of a set.
unfoldable pub pop_last : List IndexEntry → Option (IndexEntry × List IndexEntry)
pop_last [] = none
pop_last (x ∷ xs) = elim (pop_last xs) [
  | none ↦ some (x, [])
  | some (last, rest) ↦ elim (generation_cmp x last) [
    | lt ↦ some (last, x ∷ rest)
    | _ ↦ some (x, xs)
  ]
]

-- `BTreeSet::insert` of entries.
unfoldable pub set_insert : IndexEntry → List IndexEntry → List IndexEntry
set_insert x [] = x ∷ []
set_insert x (y ∷ ys) = elim (generation_cmp x y) [ eq ↦ y ∷ ys | _ ↦ y ∷ set_insert x ys ]

unfoldable pub set_extend : List IndexEntry → List IndexEntry → List IndexEntry
set_extend [] items = items
set_extend (x ∷ xs) items = set_extend xs (set_insert x items)

module _ (entry_by_pos : IndexPosition → Outcome IndexEntry) where
  -- `IndexEntry::parents`, which asks the segment of the entry: parents are never in a later one.
  unfoldable pub parents : IndexEntry → Outcome (List IndexEntry)
  parents entry = map_all entry_by_pos entry.entry.parent_positions

  -- The loop of `is_ancestor_pos`. The work is a stack, its top first.
  unfoldable pub is_ancestor_loop :
      ℕ → IndexPosition → ℕ → List IndexPosition → List IndexPosition → Outcome Bool
  is_ancestor_loop zero ancestor_pos ancestor_generation work visited = out_of_fuel
  is_ancestor_loop (suc fuel) ancestor_pos ancestor_generation [] visited = done false
  is_ancestor_loop (suc fuel) ancestor_pos ancestor_generation (descendant_pos ∷ work) visited =
      entry_by_pos descendant_pos >>= λ descendant. elim (nat_beq descendant_pos ancestor_pos) [
        | true ↦ done true
        | false ↦ elim (Sets.contains visited descendant.pos) [
          | true ↦ is_ancestor_loop fuel ancestor_pos ancestor_generation work visited
          | false ↦ elim (leb descendant.entry.generation_number ancestor_generation) [
            | true ↦
                is_ancestor_loop fuel ancestor_pos ancestor_generation work
                  (descendant.pos ∷ visited)
            | false ↦
                is_ancestor_loop fuel ancestor_pos ancestor_generation
                  (reverse descendant.entry.parent_positions ++ work) (descendant.pos ∷ visited)
          ]
        ]
      ]

  unfoldable pub is_ancestor_pos : ℕ → IndexPosition → IndexPosition → Outcome Bool
  is_ancestor_pos fuel ancestor_pos descendant_pos = entry_by_pos ancestor_pos >>= λ ancestor.
      is_ancestor_loop fuel ancestor_pos ancestor.entry.generation_number (descendant_pos ∷ []) []

  -- The first loop of `heads_pos`, with the least generation and the work collected so far.
  unfoldable pub heads_start :
      ℕ → List IndexEntry → List IndexPosition → Outcome (ℕ × List IndexEntry)
  heads_start min_generation work [] = done (min_generation, work)
  heads_start min_generation work (pos ∷ candidates) = do
    entry ← entry_by_pos pos
    parent_entries ← parents entry
    let generation = entry.entry.generation_number
    heads_start (if ltb generation min_generation then generation else min_generation)
        (parent_entries ++ work) candidates

  unfoldable pub heads_loop :
      ℕ
      → ℕ
      → List IndexEntry
      → List IndexPosition
      → List IndexPosition
      → Outcome (List IndexPosition)
  heads_loop zero min_generation work visited candidate_positions = out_of_fuel
  heads_loop (suc fuel) min_generation work visited candidate_positions = elim (pop_last work) [
    | none ↦ done candidate_positions
    | some (item, rest) ↦ elim (Sets.contains visited item.pos) [
      | true ↦ heads_loop fuel min_generation rest visited candidate_positions
      | false ↦ elim (ltb item.entry.generation_number min_generation) [
        | true ↦ done candidate_positions
        | false ↦ parents item >>= λ parent_entries.
            heads_loop fuel min_generation (parent_entries ++ rest) (item.pos ∷ visited)
              (Sets.remove item.pos candidate_positions)
      ]
    ]
  ]

  -- `u32::MAX` is the least generation of no commits.
  unfoldable pub heads_pos : ℕ → List IndexPosition → Outcome (List IndexPosition)
  heads_pos fuel candidate_positions = do
    (min_generation, work) ← heads_start 4_294_967_295 [] candidate_positions
    heads_loop fuel min_generation work [] candidate_positions

  -- The loop of `common_ancestors_pos`, with the positions found so far.
  unfoldable pub common_loop :
      ℕ → List IndexEntry → List IndexEntry → List IndexPosition → Outcome (List IndexPosition)
  common_loop zero items1 items2 result = out_of_fuel
  common_loop (suc fuel) items1 items2 result = elim (pop_last items1) [
    | none ↦ done result
    | some (entry1, rest1) ↦ elim (pop_last items2) [
      | none ↦ done result
      | some (entry2, rest2) ↦ elim (generation_cmp entry1 entry2) [
        | gt ↦ parents entry1 >>= λ parent_entries.
            common_loop fuel (set_extend parent_entries rest1) items2 result
        | lt ↦ parents entry2 >>= λ parent_entries.
            common_loop fuel items1 (set_extend parent_entries rest2) result
        | eq ↦ common_loop fuel rest1 rest2 (Sets.insert entry1.pos result)
      ]
    ]
  ]

  unfoldable pub common_ancestors_pos :
      ℕ → List IndexPosition → List IndexPosition → Outcome (List IndexPosition)
  common_ancestors_pos fuel set1 set2 = do
    entries1 ← map_all entry_by_pos set1
    entries2 ← map_all entry_by_pos set2
    result ← common_loop fuel (set_extend entries1 []) (set_extend entries2 []) []
    heads_pos fuel result
