-- ===== src/Refs.antt =====
-- lib/src/refs.rs: three-way merge of what a ref points to, and what pushing a branch does. Of the
-- commit index (lib/src/index.rs) only `is_ancestor` is asked: it is a parameter here, which answers for
-- all ids. The source panics on an id that the index lacks.
pub mod Pairs
pub mod Merge
pub mod Survive
pub mod Push
pub mod Examples
use jj.Prelude.{
  ℕ, zero, suc, Bool, true, false, not, ◌&&◌, ◌||◌, Option, none, some, List, [], ◌∷◌, ◌++◌,
  if◌then◌else◌, length, is_empty, remove_at, ◌==◌, list_eq, nat_eq, option_eq,
}
use jj.Prelude.Maps
use jj.RepoPath.{Text}
use jj.OpStore.{CommitId, RefTarget, normal, conflict, target_eq, adds, removes, BranchTarget}

-- What `find_pair_to_remove` returns: the index of a remove, if any, and that of an add.
abbrev pub Pair : Type 0
Pair = Option ℕ × ℕ

-- The inner loop of the first pass, over the removes from an index on.
unfoldable pub find_remove : CommitId → ℕ → List CommitId → Option ℕ
find_remove add remove_index [] = none
find_remove add remove_index (remove ∷ removes) =
    if add == remove then some remove_index else find_remove add (suc remove_index) removes

-- The outer loop of the first pass, over the adds from an index on.
unfoldable pub find_equal : List CommitId → ℕ → List CommitId → Option Pair
find_equal removes add_index [] = none
find_equal removes add_index (add ∷ adds) = elim (find_remove add 0 removes) [
  | some remove_index ↦ some (some remove_index, add_index)
  | none ↦ find_equal removes (suc add_index) adds
]

-- `if let Some(remove_index) = maybe_remove_index { removes.remove(remove_index); }`
unfoldable pub remove_maybe : Option ℕ → List CommitId → List CommitId
remove_maybe none removes = removes
remove_maybe (some remove_index) removes = remove_at remove_index removes

-- The terms of a target, of each kind; a missing target has none.
abbrev pub adds_of : Option RefTarget → List CommitId
adds_of none = []
adds_of (some target) = adds target

abbrev pub removes_of : Option RefTarget → List CommitId
removes_of none = []
removes_of (some target) = removes target

-- The end of `merge_ref_targets`.
unfoldable pub target_of_terms : List CommitId → List CommitId → Option RefTarget
target_of_terms [] removes = none
target_of_terms (add ∷ []) [] = some (normal add)
target_of_terms adds removes = some (conflict removes adds)

module _ (is_ancestor : CommitId → CommitId → Bool) where
  -- `first_add_is_ancestor`; `none` is `continue`.
  unfoldable pub first_add_is_ancestor : CommitId → CommitId → Option Bool
  first_add_is_ancestor add1 add2 =
      if add1 == add2 || is_ancestor add1 add2
      then some true
      else if is_ancestor add2 add1
      then some false
      else none

  -- The innermost loop: a remove that is an ancestor of the add that is to go.
  unfoldable pub find_base : CommitId → ℕ → List CommitId → Option ℕ
  find_base add remove_index [] = none
  find_base add remove_index (remove ∷ removes) =
      if is_ancestor remove add then some remove_index else find_base add (suc remove_index) removes

  -- What the body of the second pass does with the add that is an ancestor of the other.
  unfoldable pub drop_add : List CommitId → CommitId → ℕ → Option Pair
  drop_add [] add add_index = some (none, add_index)
  drop_add (remove ∷ removes) add add_index = elim (find_base add 0 (remove ∷ removes)) [
    | none ↦ none
    | some remove_index ↦ some (some remove_index, add_index)
  ]

  -- The body of the second pass for one pair of adds.
  unfoldable pub check_pair : List CommitId → CommitId → ℕ → CommitId → ℕ → Option Pair
  check_pair removes add1 add_index1 add2 add_index2 = elim (first_add_is_ancestor add1 add2) [
    | none ↦ none
    | some true ↦ drop_add removes add1 add_index1
    | some false ↦ drop_add removes add2 add_index2
  ]

  -- The second pass, over the later adds of one add.
  unfoldable pub find_related : List CommitId → CommitId → ℕ → ℕ → List CommitId → Option Pair
  find_related removes add1 add_index1 add_index2 [] = none
  find_related removes add1 add_index1 add_index2 (add2 ∷ adds) =
      elim (check_pair removes add1 add_index1 add2 add_index2) [
        | some pair ↦ some pair
        | none ↦ find_related removes add1 add_index1 (suc add_index2) adds
      ]

  unfoldable pub find_redundant : List CommitId → ℕ → List CommitId → Option Pair
  find_redundant removes add_index1 [] = none
  find_redundant removes add_index1 (add1 ∷ adds) =
      elim (find_related removes add1 add_index1 (suc add_index1) adds) [
        | some pair ↦ some pair
        | none ↦ find_redundant removes (suc add_index1) adds
      ]

  unfoldable pub find_pair_to_remove : List CommitId → List CommitId → Option Pair
  find_pair_to_remove adds removes = elim (find_equal removes 0 adds) [
    | some pair ↦ some pair
    | none ↦ find_redundant removes 0 adds
  ]

  -- The `while let` loop, on the adds and the removes.
  unfoldable pub reduce : ℕ → List CommitId → List CommitId → List CommitId × List CommitId
  reduce zero adds removes = (adds, removes)
  reduce (suc fuel) adds removes = elim (find_pair_to_remove adds removes) [
    | none ↦ (adds, removes)
    | some (maybe_remove_index, add_index) ↦
        reduce fuel (remove_at add_index adds) (remove_maybe maybe_remove_index removes)
  ]

  unfoldable pub merge_terms : List CommitId → List CommitId → Option RefTarget
  merge_terms adds removes =
      let (adds', removes') = reduce (length adds) adds removes in target_of_terms adds' removes'

  unfoldable pub merge_ref_targets :
      Option RefTarget → Option RefTarget → Option RefTarget → Option RefTarget
  merge_ref_targets left base right =
      if left == base || left == right
      then right
      else if base == right
      then left
      else merge_terms (adds_of left ++ (removes_of base ++ adds_of right))
          (removes_of left ++ (adds_of base ++ removes_of right))

pub record BranchPushUpdate : Type 0 where
  pub old_target : Option CommitId
  pub new_target : Option CommitId

-- `panic` is the last arm of the `match`.
pub data BranchPushAction : Type 0 where
  update : BranchPushUpdate → BranchPushAction
  already_matches local_conflicted remote_conflicted panic : BranchPushAction

-- The `match` on the remote and the local target.
unfoldable pub classify_targets : Option RefTarget → Option RefTarget → BranchPushAction
classify_targets remote (some (conflict removes adds)) = local_conflicted
classify_targets (some (conflict removes adds)) local = remote_conflicted
classify_targets (some (normal old)) (some (normal new)) =
    update (record { old_target = some old; new_target = some new })
classify_targets (some (normal old)) none =
    update (record { old_target = some old; new_target = none })
classify_targets none (some (normal new)) =
    update (record { old_target = none; new_target = some new })
classify_targets none none = panic

unfoldable pub classify_branch_push_action : BranchTarget → Text → BranchPushAction
classify_branch_push_action branch_target remote_name =
    let maybe_remote_target = Maps.get branch_target.remote_targets remote_name in
    if branch_target.local_target == maybe_remote_target
    then already_matches
    else classify_targets maybe_remote_target branch_target.local_target
