-- ===== src/Tree/Examples.antt =====
-- Tests and instances for lib/src/tree.rs, with a store of no objects, where a tree's id is the list
-- of its number of entries.
use jj.Prelude.{◌-◌}
use jj.Prelude.Counts.{count}
use jj.Backend.{ConflictPart, Conflict, part_eq}
use jj.Tree.{simplify_conflict}
use jj.Tree.Simplify.{count-simplify_conflict}
use jj.Prelude.{
  ℕ, ◌≡◌, refl, none, some, [], ◌∷◌, inl, inr, length, false, list_eq, nat_eq, option_eq,
}
use jj.Prelude.Order.{Ordering-cases}
use jj.Prelude.BTree
use jj.RepoPath.{RepoPathComponent}
use jj.Backend
use jj.Backend.{TreeValue, value_eq, component_ord, normal}
use jj.Files.{MergeResult}
use jj.Tree.{ok, err, Tree, Store, diff_loop, diff_entries, merge_trees}
use jj.Tree.DiffEntries.{find, find-diff_loop, changed}
use jj.Tree.MergeEntries.{merge_trees_writes}

abbrev store : Store
store = record {
  empty_tree_id = 0 ∷ [];
  get_tree = λ dir id. err;
  read_conflict = λ path id. err;
  read_file = λ path id. err;
  write_file = λ path content. err;
  write_conflict = λ path conflict. err;
  write_tree = λ dir tree. ok (length tree.entries ∷ []);
}

abbrev name_a : RepoPathComponent
name_a = record { value = b'a' ∷ [] }

abbrev name_b : RepoPathComponent
name_b = record { value = b'b' ∷ [] }

abbrev file : ℕ → TreeValue
file n = normal (n ∷ []) false

abbrev old_entries : BTree.BTree RepoPathComponent TreeValue
old_entries = (name_a, file 1) ∷ []

abbrev new_entries : BTree.BTree RepoPathComponent TreeValue
new_entries = (name_a, file 2) ∷ []

abbrev more_entries : BTree.BTree RepoPathComponent TreeValue
more_entries = (name_a, file 2) ∷ (name_b, file 3) ∷ []

abbrev root_tree : ℕ → BTree.BTree RepoPathComponent TreeValue → Tree
root_tree id entries = record {
  dir = record { components = [] };
  id = id ∷ [];
  contents = record { entries = entries };
}

diff_changed_and_added :
    diff_entries (root_tree 1 old_entries) (root_tree 2 more_entries)
    ≡ (name_a, some (file 1), some (file 2)) ∷ (name_b, none, some (file 3)) ∷ []
unfolding diff_entries diff_loop component_ord
diff_changed_and_added = refl

find-diff_loop_example :
    find (diff_loop old_entries more_entries) name_b
    ≡ changed (BTree.get old_entries name_b) (BTree.get more_entries name_b)
unfolding component_ord
find-diff_loop_example =
    find-diff_loop old_entries more_entries name_b (tt, tt) ((refl, tt), (tt, tt))

merge_trees_writes_example :
    (new_tree : Backend.Tree) × (merge_trees store
        (λ removes adds. MergeResult.conflict [])
        1
        (root_tree 1 old_entries)
        (root_tree 0 old_entries)
        (root_tree 2 new_entries)
      ≡ store.write_tree (record { components = [] }) new_tree)
    × ((n : RepoPathComponent) → Backend.value new_tree n ≡ BTree.get new_entries n)
unfolding Backend.value BTree.get
merge_trees_writes_example =
    merge_trees_writes store (λ removes adds. MergeResult.conflict []) 0 (root_tree 1 old_entries)
      (root_tree 0 old_entries) (root_tree 2 new_entries) (BTree.get new_entries) (tt, tt) (tt, tt)
      (tt, tt) refl refl refl
      (λ n. elim (Ordering-cases (component_ord.cmp n name_a)) [
        | inl e ↦ rw (e, BTree.get) refl
        | inr (inl e) ↦ rw (e, BTree.get) refl
        | inr (inr e) ↦ rw (e, BTree.get) refl
      ])

abbrev part : ℕ → ConflictPart
part n = record { value = file n }

count-simplify_conflict_example :
    (simple : Conflict) × (simplify_conflict store
        (λ removes adds. MergeResult.conflict [])
        (record { components = [] })
        (record { removes = part 1 ∷ []; adds = part 1 ∷ part 2 ∷ [] })
      ≡ ok simple)
    × ((p : ConflictPart)
        → (count p simple.adds ≡ count p (part 1 ∷ part 2 ∷ []) - count p (part 1 ∷ []))
          × (count p simple.removes ≡ count p (part 1 ∷ []) - count p (part 1 ∷ part 2 ∷ [])))
count-simplify_conflict_example =
    count-simplify_conflict store (λ removes adds. MergeResult.conflict [])
      (record { components = [] }) (record { removes = part 1 ∷ []; adds = part 1 ∷ part 2 ∷ [] })
      (refl, (refl, tt)) (refl, tt)
