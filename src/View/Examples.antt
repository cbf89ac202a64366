-- ===== src/View/Examples.antt =====
-- Tests and instances for lib/src/view.rs.
use jj.Prelude.{◌≡◌, refl, none, some, [], ◌∷◌, nat_eq, list_eq, option_eq}
use jj.Prelude.Maps
use jj.OpStore.{target_eq, default_branch_target}
use jj.Refs.{merge_ref_targets}
use jj.Refs.Examples.{unrelated, commit}
use jj.View.{
  View, RefName, local_branch, remote_branch, tag, get_branch, name_eq, get_ref, set_or_remove_ref,
  merge_single_ref, remove_local_branch, set_branch, remove_branch,
}
use jj.View.Laws.{get_ref-set_or_remove_ref}
use jj.View.Built.{empty_view}
use jj.View.MergeRef.{get_ref-merge_single_ref}

abbrev main_branch : RefName
main_branch = local_branch (b'm' ∷ [])

abbrev sample : View
sample = record {
  view_data = record {
    head_ids = (2 ∷ []) ∷ [];
    public_head_ids = [];
    branches = (b'm' ∷ [], record { local_target = some (commit 2); remote_targets = [] }) ∷ [];
    tags = [];
    git_refs = [];
    git_head = none;
    wc_commit_ids = [];
  };
}

-- Removing the only target of a branch removes the branch.
remove_last_target : (set_or_remove_ref sample main_branch none).view_data.branches ≡ []
unfolding set_or_remove_ref remove_local_branch set_branch remove_branch Maps.get Maps.insert
    Maps.remove
remove_last_target = refl

get_ref-set_or_remove_ref_example :
    get_ref (set_or_remove_ref sample main_branch none) (tag (b'm' ∷ []))
    ≡ get_ref sample (tag (b'm' ∷ []))
get_ref-set_or_remove_ref_example =
    get_ref-set_or_remove_ref sample main_branch (tag (b'm' ∷ [])) none

get_ref-merge_single_ref_example :
    get_ref
      (merge_single_ref unrelated sample main_branch (some (commit 2)) (some (commit 3)))
      main_branch
    ≡ merge_ref_targets unrelated (get_ref sample main_branch) (some (commit 2)) (some (commit 3))
get_ref-merge_single_ref_example =
    get_ref-merge_single_ref unrelated sample main_branch (some (commit 2)) (some (commit 3))
      main_branch

-- A branch is set on both sides, merged with a side that moved it, and removed locally.
abbrev edited : View
edited =
    set_or_remove_ref
      (merge_single_ref unrelated
        (set_or_remove_ref (set_or_remove_ref empty_view main_branch (some (commit 2)))
          (remote_branch (b'm' ∷ []) (b'o' ∷ [])) (some (commit 2)))
        main_branch (some (commit 2)) (some (commit 3)))
      main_branch none

-- A whole branch that is set to no target is listed all the same.
listed_nowhere :
    get_branch (set_branch empty_view (b'm' ∷ []) default_branch_target) (b'm' ∷ [])
    ≡ some default_branch_target
unfolding get_branch set_branch Maps.insert Maps.get
listed_nowhere = refl
