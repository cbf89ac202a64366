-- ===== src/Files.antt =====
-- lib/src/files.rs: the merge of file contents, and the lines of a diff. The diff of the inputs
-- (lib/src/diff.rs) is a parameter: it gives the hunks in which the inputs match or differ.
pub mod Resolve
pub mod Merge
pub mod Lines
pub mod Content
pub mod Pieces
pub mod Collect
pub mod Examples
use jj.Prelude.{
  ℕ, suc, Bool, true, false, ◌&&◌, Option, none, some, List, [], ◌∷◌, ◌++◌, if◌then◌else◌, ltb,
  length, is_empty, take, drop, nat_beq, nat_eq, list_eq,
}
use jj.Prelude.Sets
use jj.Cancel.{cancel_pairs}
pub use jj.Diff.Hunk.{Bytes, DiffHunk, matching, different}

-- The conflict's removes and adds.
pub data MergeHunk : Type 0 where
  resolved : Bytes → MergeHunk
  conflict : List Bytes → List Bytes → MergeHunk

pub data MergeResult : Type 0 where
  resolved : Bytes → MergeResult
  conflict : List MergeHunk → MergeResult

-- `added_parts[0]`, in branches where there is one.
abbrev pub first_part : List Bytes → Bytes
first_part [] = []
first_part (p ∷ ps) = p

-- The `if` ladder on the parts that are left; `none` is its last branch, the conflict.
unfoldable pub resolve_left : List Bytes → List Bytes → Option Bytes
resolve_left added_parts removed_parts =
    let distinct_removes = Sets.collect removed_parts in
    let distinct_adds = Sets.collect added_parts in
    if is_empty removed_parts && is_empty added_parts
    then some []
    else if is_empty distinct_removes && nat_beq (length distinct_adds) 1
    then some (first_part added_parts)
    else if nat_beq (length distinct_removes) 1 && is_empty distinct_adds
    then some []
    else if nat_beq (length distinct_removes) 1
        && (nat_beq (length distinct_adds) 1
            && nat_beq (length added_parts) (suc (length removed_parts)))
    then some (first_part added_parts)
    else none

-- What a hunk whose parts differ is resolved to.
unfoldable pub resolve_parts : List Bytes → List Bytes → Option Bytes
resolve_parts removes adds =
    let (added_parts, removed_parts) = cancel_pairs adds removes in
    resolve_left added_parts removed_parts

-- `if !resolved_hunk.is_empty() { merge_hunks.push(Resolved(resolved_hunk)) }`
unfoldable pub push_resolved : Bytes → List MergeHunk → List MergeHunk
push_resolved resolved_hunk merge_hunks =
    if is_empty resolved_hunk
    then merge_hunks
    else merge_hunks ++ MergeHunk.resolved resolved_hunk ∷ []

-- The end of `merge`.
unfoldable pub finish : Bytes → List MergeHunk → MergeResult
finish resolved_hunk [] = MergeResult.resolved resolved_hunk
finish resolved_hunk (h ∷ hs) = MergeResult.conflict (push_resolved resolved_hunk (h ∷ hs))

-- The loop over the hunks. `emit` is `adds.len() > removes.len()`.
unfoldable pub merge_loop : ℕ → Bool → Bytes → List MergeHunk → List DiffHunk → MergeResult
merge_loop num_removes emit resolved_hunk merge_hunks [] = finish resolved_hunk merge_hunks
merge_loop num_removes emit resolved_hunk merge_hunks (matching content ∷ hunks) =
    merge_loop num_removes emit (if emit then resolved_hunk ++ content else resolved_hunk)
      merge_hunks hunks
merge_loop num_removes emit resolved_hunk merge_hunks (different parts ∷ hunks) =
    let removes = take num_removes parts in
    let adds = drop num_removes parts in
    elim (resolve_parts removes adds) [
      | some content ↦ merge_loop num_removes emit (resolved_hunk ++ content) merge_hunks hunks
      | none ↦
          merge_loop num_removes emit []
            (push_resolved resolved_hunk merge_hunks ++ MergeHunk.conflict removes adds ∷ []) hunks
    ]

module _ (diff_hunks : List Bytes → List DiffHunk) where
  unfoldable pub merge : List Bytes → List Bytes → MergeResult
  merge removes adds =
      merge_loop (length removes) (ltb (length removes) (length adds)) [] []
        (diff_hunks (removes ++ adds))
