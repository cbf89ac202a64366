-- ===== src/Tree/Summary.antt =====
-- lib/src/tree.rs: the kinds of differences, and their summary. What the iterator over the
-- differences of two trees returns is an argument, and so is the sorting of the standard library.
use jj.Prelude.{Bool, ◌&&◌, Option, none, some, List, [], ◌∷◌, ◌++◌, is_empty}
use jj.RepoPath.{RepoPath}
use jj.Backend.{TreeValue}

pub data Diff {ℓ} (T : Type ℓ) : Type ℓ where
  modified : T → T → Diff T
  added removed : T → Diff T

abbrev pub as_options {ℓ} : {T : Type ℓ} → Diff T → Option T × Option T
as_options (modified left right) = (some left, some right)
as_options (added right) = (none, some right)
as_options (removed left) = (some left, none)

pub record DiffSummary : Type 0 where
  pub modified : List RepoPath
  pub added : List RepoPath
  pub removed : List RepoPath

abbrev pub summary_is_empty : DiffSummary → Bool
summary_is_empty self = is_empty self.modified && (is_empty self.added && is_empty self.removed)

-- The loop that fills the three lists.
abbrev pub collect_diffs : DiffSummary → List (RepoPath × Diff TreeValue) → DiffSummary
collect_diffs acc [] = acc
collect_diffs acc ((file, Diff.modified left right) ∷ diffs) =
    collect_diffs (record acc { modified = acc.modified ++ file ∷ [] }) diffs
collect_diffs acc ((file, Diff.added right) ∷ diffs) =
    collect_diffs (record acc { added = acc.added ++ file ∷ [] }) diffs
collect_diffs acc ((file, Diff.removed left) ∷ diffs) =
    collect_diffs (record acc { removed = acc.removed ++ file ∷ [] }) diffs

abbrev pub diff_summary :
    (List RepoPath → List RepoPath) → List (RepoPath × Diff TreeValue) → DiffSummary
diff_summary sort diffs =
    let all = collect_diffs (record { modified = []; added = []; removed = [] }) diffs in
    record { modified = sort all.modified; added = sort all.added; removed = sort all.removed }
