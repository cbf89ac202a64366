-- ===== src/Tree.antt =====
-- lib/src/tree.rs: the differences between two trees, and the three-way merge of trees. The store
-- (lib/src/store.rs, over a backend) is a parameter, the record of what the merge calls; so is the
-- merge of file contents (`merge` of Files).
pub mod DiffEntries
pub mod MergeEntries
pub mod Simplify
pub mod Summary
pub mod Examples
use jj.Prelude.{
  ℕ, zero, suc, Bool, true, false, not, ◌&&◌, ◌||◌, Option, none, some, List, [], ◌∷◌, ◌++◌,
  if◌then◌else◌, is_empty, length, nat_beq, ◌==◌, list_eq, nat_eq, option_eq,
}
use jj.Prelude.Int.{ℤ, pos, inc, dec, is_positive}
use Prim.Native.Nat.Ordering.{lt, eq, gt}
use jj.Prelude.BTree.{BTree}
use jj.RepoPath.{RepoPath, RepoPathComponent, component_eq, path_eq, join}
use jj.Backend
use jj.Backend.{
  FileId, TreeId, ConflictId, TreeValue, value_eq, ConflictPart, part_eq, Conflict, component_ord,
}
use jj.Cancel.{cancel_pairs}
use jj.Files.{Bytes, MergeResult}

-- `panic` is a failed assertion; `out_of_fuel` a recursion deeper than the fuel.
pub data Result {ℓ} (A : Type ℓ) : Type ℓ where
  ok : A → Result A
  err panic out_of_fuel : Result A

infixl 5 ◌>>=◌
abbrev pub ◌>>=◌ {ℓ κ} : {A : Type ℓ} {B : Type κ} → Result A → (A → Result B) → Result B
ok a >>= f = f a
err >>= f = err
panic >>= f = panic
out_of_fuel >>= f = out_of_fuel

pub record Tree : Type 0 where
  pub dir : RepoPath
  pub id : TreeId
  pub contents : Backend.Tree

-- What the merge calls of the store. Objects are addressed by their content, so that writing is a
-- function to the id.
pub record Store : Type 0 where
  pub empty_tree_id : TreeId
  pub get_tree : RepoPath → TreeId → Result Tree
  pub read_conflict : RepoPath → ConflictId → Result Conflict
  pub read_file : RepoPath → FileId → Result Bytes
  pub write_file : RepoPath → Bytes → Result FileId
  pub write_conflict : RepoPath → Conflict → Result ConflictId
  pub write_tree : RepoPath → Backend.Tree → Result TreeId

-- A name, and the values before and after.
abbrev pub EntryDiff : Type 0
EntryDiff = RepoPathComponent × Option TreeValue × Option TreeValue

-- All that `TreeEntryDiffIterator::next` returns, from the entries that the iterators have left.
unfoldable pub diff_loop :
    BTree RepoPathComponent TreeValue → BTree RepoPathComponent TreeValue → List EntryDiff
diff_loop [] [] = []
diff_loop ((n1, before) ∷ it1) [] = (n1, some before, none) ∷ diff_loop it1 []
diff_loop [] ((n2, after) ∷ it2) = (n2, none, some after) ∷ diff_loop [] it2
diff_loop ((n1, before) ∷ it1) ((n2, after) ∷ it2) = elim (component_ord.cmp n1 n2) [
  | lt ↦ (n1, some before, none) ∷ diff_loop it1 ((n2, after) ∷ it2)
  | gt ↦ (n2, none, some after) ∷ diff_loop ((n1, before) ∷ it1) it2
  | eq ↦
      let rest = diff_loop it1 it2 in
      if not (before == after) then (n1, some before, some after) ∷ rest else rest
]

unfoldable pub diff_entries : Tree → Tree → List EntryDiff
diff_entries tree1 tree2 = diff_loop tree1.contents.entries tree2.contents.entries

unfoldable pub maybe_tree_id : Option TreeValue → TreeId → Option TreeId
maybe_tree_id none empty_tree_id = some empty_tree_id
maybe_tree_id (some (TreeValue.tree id)) empty_tree_id = some id
maybe_tree_id (some (TreeValue.normal id executable)) empty_tree_id = none
maybe_tree_id (some (TreeValue.symlink id)) empty_tree_id = none
maybe_tree_id (some (TreeValue.git_submodule id)) empty_tree_id = none
maybe_tree_id (some (TreeValue.conflict id)) empty_tree_id = none

-- The counters and the file ids of the first two loops of `try_resolve_file_conflict`.
pub record Parts : Type 0 where
  pub exec_delta : ℤ
  pub regular_delta : ℤ
  pub file_ids : List FileId

-- One of these loops; `step` is `+= 1` or `-= 1`. `none` is the early return on a part that is no
-- file.
unfoldable pub scan_parts : (ℤ → ℤ) → Parts → List ConflictPart → Option Parts
scan_parts step acc [] = some acc
scan_parts step acc (part ∷ parts) = elim part.value [
  | TreeValue.normal id executable ↦
      scan_parts step
        (record {
          exec_delta = if executable then step acc.exec_delta else acc.exec_delta;
          regular_delta = if executable then acc.regular_delta else step acc.regular_delta;
          file_ids = acc.file_ids ++ id ∷ [];
        })
        parts
  | _ ↦ none
]

-- Whether the resolved file is executable, if that can be told.
unfoldable pub resolve_executable : ℤ → ℤ → Option Bool
resolve_executable exec_delta regular_delta =
    if is_positive exec_delta && not (is_positive regular_delta)
    then some true
    else if is_positive regular_delta && not (is_positive exec_delta)
    then some false
    else none

abbrev pub part_of : Option TreeValue → List ConflictPart
part_of none = []
part_of (some value) = record { value = value } ∷ []

-- `new_tree.remove` or `new_tree.set`
unfoldable pub put : Backend.Tree → RepoPathComponent → Option TreeValue → Backend.Tree
put new_tree basename none = Backend.remove new_tree basename
put new_tree basename (some value) = Backend.set new_tree basename value

module _ (store : Store) (merge : List Bytes → List Bytes → MergeResult) where
  unfoldable pub read_contents : RepoPath → List FileId → Result (List Bytes)
  read_contents filename [] = ok []
  read_contents filename (id ∷ ids) = do
    content ← store.read_file filename id
    rest ← read_contents filename ids
    ok (content ∷ rest)

  -- The part of `try_resolve_file_conflict` behind the check of the parts.
  unfoldable pub resolve_contents :
      RepoPath → List FileId → List FileId → Bool → Result (Option (Bytes × Bool))
  resolve_contents filename removed_file_ids added_file_ids executable = do
    removed_contents ← read_contents filename removed_file_ids
    added_contents ← read_contents filename added_file_ids
    ok (elim (merge removed_contents added_contents) [
      | MergeResult.resolved merged_content ↦ some (merged_content, executable)
      | MergeResult.conflict _ ↦ none
    ])

  unfoldable pub try_resolve_file_conflict : RepoPath → Conflict → Result (Option (Bytes × Bool))
  try_resolve_file_conflict filename conflict =
      let start : Parts = record { exec_delta = pos 0; regular_delta = pos 0; file_ids = [] } in
      elim (scan_parts dec start conflict.removes) [
        | none ↦ ok none
        | some removed ↦ elim (scan_parts inc (record removed { file_ids = [] }) conflict.adds) [
          | none ↦ ok none
          | some added ↦ elim (resolve_executable added.exec_delta added.regular_delta) [
            | none ↦ ok none
            | some executable ↦ resolve_contents filename removed.file_ids added.file_ids executable
          ]
        ]
      ]

  unfoldable pub conflict_part_to_conflict : RepoPath → ConflictPart → Result Conflict
  conflict_part_to_conflict path part = elim part.value [
    | TreeValue.conflict id ↦ store.read_conflict path id
    | _ ↦ ok (record { removes = []; adds = part ∷ [] })
  ]

  -- The loop that expands the adds, from the removes and adds collected so far.
  unfoldable pub expand_adds :
      RepoPath → List ConflictPart → List ConflictPart → List ConflictPart → Result Conflict
  expand_adds path new_removes new_adds [] = ok (record { removes = new_removes; adds = new_adds })
  expand_adds path new_removes new_adds (part ∷ parts) = elim part.value [
    | TreeValue.conflict id ↦ conflict_part_to_conflict path part >>= λ c.
        expand_adds path (new_removes ++ c.removes) (new_adds ++ c.adds) parts
    | _ ↦ expand_adds path new_removes (new_adds ++ part ∷ []) parts
  ]

  -- The loop that expands the removes, whose conflicts are turned round.
  unfoldable pub expand_removes :
      RepoPath → List ConflictPart → List ConflictPart → List ConflictPart → Result Conflict
  expand_removes path new_removes new_adds [] =
      ok (record { removes = new_removes; adds = new_adds })
  expand_removes path new_removes new_adds (part ∷ parts) = elim part.value [
    | TreeValue.conflict id ↦ conflict_part_to_conflict path part >>= λ c.
        expand_removes path (new_removes ++ c.adds) (new_adds ++ c.removes) parts
    | _ ↦ expand_removes path (new_removes ++ part ∷ []) new_adds parts
  ]

  unfoldable pub simplify_conflict : RepoPath → Conflict → Result Conflict
  simplify_conflict path conflict = do
    c1 ← expand_adds path [] [] conflict.adds
    c2 ← expand_removes path c1.removes c1.adds conflict.removes
    let (adds, removes) = cancel_pairs c2.adds c2.removes
    ok (record { removes = removes; adds = adds })

  -- The file that the parts merge to, or the conflict.
  unfoldable pub write_value : RepoPath → Conflict → Result (Option TreeValue)
  write_value filename conflict = do
    resolved ← try_resolve_file_conflict filename conflict
    elim resolved [
      | some (merged_content, executable) ↦ store.write_file filename merged_content >>= λ id.
          ok (some (TreeValue.normal id executable))
      | none ↦ store.write_conflict filename conflict >>= λ id. ok (some (TreeValue.conflict id))
    ]

  -- The end of `merge_tree_value`, on the simplified conflict.
  unfoldable pub value_of_conflict : RepoPath → Conflict → Result (Option TreeValue)
  value_of_conflict filename conflict = elim conflict.adds [
    | [] ↦ ok none
    | add ∷ more ↦
        if is_empty conflict.removes && nat_beq (length (add ∷ more)) 1
        then ok (some add.value)
        else write_value filename conflict
  ]

  -- `merge_tree_value` where one of the values is neither a tree nor missing.
  unfoldable pub merge_values :
      RepoPath
      → RepoPathComponent
      → Option TreeValue
      → Option TreeValue
      → Option TreeValue
      → Result (Option TreeValue)
  merge_values dir basename maybe_base maybe_side1 maybe_side2 = do
    let filename = join dir basename
    conflict ←
        simplify_conflict filename (record {
          removes = part_of maybe_base;
          adds = part_of maybe_side1 ++ part_of maybe_side2;
        })
    value_of_conflict filename conflict

  -- `merge_tree_value` where all three are trees or missing.
  unfoldable pub merge_subtrees :
      (Tree → Tree → Tree → Result TreeId)
      → RepoPath
      → TreeId
      → TreeId
      → TreeId
      → Result (Option TreeValue)
  merge_subtrees merge_trees subdir base_id side1_id side2_id = do
    base_tree ← store.get_tree subdir base_id
    side1_tree ← store.get_tree subdir side1_id
    side2_tree ← store.get_tree subdir side2_id
    merged_tree_id ← merge_trees side1_tree base_tree side2_tree
    ok (
        if merged_tree_id == store.empty_tree_id
        then none
        else some (TreeValue.tree merged_tree_id))

  unfoldable pub merge_tree_value :
      (Tree → Tree → Tree → Result TreeId)
      → RepoPath
      → RepoPathComponent
      → Option TreeValue
      → Option TreeValue
      → Option TreeValue
      → Result (Option TreeValue)
  merge_tree_value merge_trees dir basename maybe_base maybe_side1 maybe_side2 =
      let values = merge_values dir basename maybe_base maybe_side1 maybe_side2 in
      elim (maybe_tree_id maybe_base store.empty_tree_id) [
        | none ↦ values
        | some base_id ↦ elim (maybe_tree_id maybe_side1 store.empty_tree_id) [
          | none ↦ values
          | some side1_id ↦ elim (maybe_tree_id maybe_side2 store.empty_tree_id) [
            | none ↦ values
            | some side2_id ↦
                merge_subtrees merge_trees (join dir basename) base_id side1_id side2_id
          ]
        ]
      ]

  -- The loop of `merge_trees` over the differences between the base and side 2.
  unfoldable pub merge_loop :
      (Tree → Tree → Tree → Result TreeId)
      → RepoPath
      → Tree
      → Backend.Tree
      → List EntryDiff
      → Result Backend.Tree
  merge_loop merge_trees dir side1_tree new_tree [] = ok new_tree
  merge_loop merge_trees dir side1_tree new_tree ((basename, maybe_base, maybe_side2) ∷ diffs) =
      let maybe_side1 = Backend.value side1_tree.contents basename in
      elim (maybe_side1 == maybe_base) [
        | true ↦ merge_loop merge_trees dir side1_tree (put new_tree basename maybe_side2) diffs
        | false ↦ elim (maybe_side1 == maybe_side2) [
          | true ↦ merge_loop merge_trees dir side1_tree new_tree diffs
          | false ↦
              merge_tree_value merge_trees dir basename maybe_base maybe_side1 maybe_side2
              >>= λ new_value.
                  merge_loop merge_trees dir side1_tree (put new_tree basename new_value) diffs
        ]
      ]

  -- `merge_trees` where neither side has the id of the base or of the other side.
  unfoldable pub merge_changed :
      (Tree → Tree → Tree → Result TreeId) → Tree → Tree → Tree → Result TreeId
  merge_changed merge_trees side1_tree base_tree side2_tree = do
    new_tree ←
        merge_loop merge_trees base_tree.dir side1_tree side1_tree.contents
          (diff_entries base_tree side2_tree)
    store.write_tree base_tree.dir new_tree

  -- The fuel bounds the depth of the trees.
  unfoldable pub merge_trees : ℕ → Tree → Tree → Tree → Result TreeId
  merge_trees zero side1_tree base_tree side2_tree = out_of_fuel
  merge_trees (suc fuel) side1_tree base_tree side2_tree =
      if not (side1_tree.dir == base_tree.dir && side2_tree.dir == base_tree.dir)
      then panic
      else if base_tree.id == side1_tree.id
      then ok side2_tree.id
      else if base_tree.id == side2_tree.id || side1_tree.id == side2_tree.id
      then ok side1_tree.id
      else merge_changed (merge_trees fuel) side1_tree base_tree side2_tree
