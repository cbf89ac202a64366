-- ===== src/Index/Mutable.antt =====
-- `MutableIndex` of lib/src/index.rs: commits are added to an index, one at a time, or those of
-- another index.
use jj.Prelude.{
  ℕ, zero, suc, ◌+◌, ◌*◌, ◌-◌, true, false, List, [], ◌∷◌, ◌++◌, if◌then◌else◌, ltb, length,
  list_eq, nat_eq, ◌==◌,
}
use jj.Prelude.Outcome.{Outcome, done, unwrap, ◌>>=◌}
use jj.Prelude.Order.{text_ord}
use jj.Prelude.BTree
use mathlib.Core.List.{reverse}
use jj.OpStore.{CommitId}
use jj.Backend.Commits.{ChangeId, Commit}
use jj.Index.Entry.{IndexPosition, GraphEntry, IndexEntry}
use jj.Index.Walk.{parents}
use jj.Index.{
  as_u32, ReadonlyIndex, MutableIndex, CompositeIndex, readonly_segment, mutable_composite,
  num_commits, entry_by_pos, entry_by_id, has_id,
}

unfoldable pub full : MutableIndex
full = record { parent_files = []; num_parent_commits = 0; graph = []; lookup = [] }

unfoldable pub file_num_commits : ReadonlyIndex → ℕ
file_num_commits file = as_u32 (file.num_parent_commits + length file.graph)

-- On a file with the files below it.
unfoldable pub incremental : ReadonlyIndex → List ReadonlyIndex → MutableIndex
incremental file files = record {
  parent_files = file ∷ files;
  num_parent_commits = file_num_commits file;
  graph = [];
  lookup = [];
}

-- The loop over the parents.
unfoldable pub add_parents : CompositeIndex → GraphEntry → List CommitId → Outcome GraphEntry
add_parents index entry [] = done entry
add_parents index entry (parent_id ∷ parent_ids) = do
  found ← entry_by_id index parent_id
  parent_entry ← unwrap found
  let next_generation = as_u32 (parent_entry.entry.generation_number + 1)
  add_parents index
      (record entry {
        generation_number =
            if ltb entry.generation_number next_generation
            then next_generation
            else entry.generation_number;
        parent_positions = entry.parent_positions ++ parent_entry.pos ∷ [];
      })
      parent_ids

-- The new entry is pushed.
unfoldable pub push_entry : MutableIndex → GraphEntry → MutableIndex
push_entry self entry = record self {
  lookup =
      BTree.insert entry.commit_id (as_u32 (as_u32 (length self.graph) + self.num_parent_commits))
        self.lookup;
  graph = self.graph ++ entry ∷ [];
}

unfoldable pub add_commit_data :
    MutableIndex → CommitId → ChangeId → List CommitId → Outcome MutableIndex
add_commit_data self commit_id change_id parent_ids =
    has_id (mutable_composite self) commit_id >>= λ known. elim known [
      | true ↦ done self
      | false ↦
          let blank : GraphEntry = record {
            commit_id = commit_id;
            change_id = change_id;
            generation_number = 0;
            parent_positions = [];
          } in
          add_parents (mutable_composite self) blank parent_ids >>= λ entry.
          done (push_entry self entry)
    ]

-- A commit of the backend with its id.
unfoldable pub add_commit : MutableIndex → CommitId → Commit → Outcome MutableIndex
add_commit self id commit = add_commit_data self id commit.change_id commit.parents

unfoldable pub commit_ids : List IndexEntry → List CommitId
commit_ids [] = []
commit_ids (e ∷ es) = e.entry.commit_id ∷ commit_ids es

-- The loop of `add_commits_from`, over `count` positions from `pos` on.
unfoldable pub add_from : ℕ → IndexPosition → CompositeIndex → MutableIndex → Outcome MutableIndex
add_from zero pos other self = done self
add_from (suc count) pos other self = do
  entry ← entry_by_pos other pos
  parent_entries ← parents (entry_by_pos other) entry
  self' ←
      add_commit_data self entry.entry.commit_id entry.entry.change_id (commit_ids parent_entries)
  add_from count (suc pos) other self'

unfoldable pub add_commits_from : MutableIndex → CompositeIndex → Outcome MutableIndex
add_commits_from self other =
    let first = other.segment.num_parent_commits in
    add_from (num_commits other - first) first other self

unfoldable pub add_files : MutableIndex → List (List ReadonlyIndex) → Outcome MutableIndex
add_files self [] = done self
add_files self ([] ∷ stacks) = add_files self stacks
add_files self ((file ∷ files) ∷ stacks) =
    add_commits_from self (record { segment = readonly_segment file; parent_files = files })
    >>= λ self'. add_files self' stacks

-- The loop of `merge_in`: the files to add, each with the files below it.
unfoldable pub files_to_add : List ReadonlyIndex → List ReadonlyIndex → List (List ReadonlyIndex)
files_to_add own [] = []
files_to_add [] (o ∷ other) = (o ∷ other) ∷ files_to_add [] other
files_to_add (w ∷ own) (o ∷ other) = elim (w.name == o.name) [
  | true ↦ []
  | false ↦ elim (ltb (file_num_commits w) (file_num_commits o)) [
    | true ↦ (o ∷ other) ∷ files_to_add (w ∷ own) other
    | false ↦ files_to_add own (o ∷ other)
  ]
]

-- `other` is a file with the files below it.
unfoldable pub merge_in : MutableIndex → List ReadonlyIndex → Outcome MutableIndex
merge_in self other = add_files self (reverse (files_to_add self.parent_files other))

-- The loop of `maybe_squash_with_ancestors`: the index to start from, and the files to squash.
unfoldable pub squash_loop : ℕ → List ReadonlyIndex → MutableIndex × List (List ReadonlyIndex)
squash_loop num_new_commits [] = (full, [])
squash_loop num_new_commits (file ∷ files) =
    elim (ltb (as_u32 (2 * num_new_commits)) (length file.graph)) [
      | true ↦ (incremental file files, [])
      | false ↦
          let (squashed, to_squash) =
            squash_loop (as_u32 (num_new_commits + length file.graph)) files in
          (squashed, (file ∷ files) ∷ to_squash)
    ]

unfoldable pub maybe_squash_with_ancestors : MutableIndex → Outcome MutableIndex
maybe_squash_with_ancestors self =
    let (squashed, files_to_squash) = squash_loop (as_u32 (length self.graph)) self.parent_files in
    elim files_to_squash [
      | [] ↦ done self
      | stack ∷ stacks ↦ add_files squashed (reverse (stack ∷ stacks)) >>= λ squashed'.
          add_commits_from squashed' (mutable_composite self)
    ]
