-- ===== src/View/Built.antt =====
-- The views that the operations of lib/src/view.rs build from an empty view.
use jj.Prelude.{list_eq, nat_eq, Bool, ◌≡◌, true, Option}
use jj.Prelude.Maps
use jj.RepoPath.{Text}
use jj.OpStore.{CommitId, WorkspaceId, RefTarget, BranchTarget, default_view}
use jj.View.{
  View, RefName, set_wc_commit, remove_wc_commit, add_head, remove_head, add_public_head,
  remove_public_head, set_branch, remove_branch, set_git_head, clear_git_head, set_or_remove_ref,
  merge_single_ref,
}
use jj.View.Present.{exists_somewhere}

abbrev pub empty_view : View
empty_view = record { view_data = default_view }

-- Setting or removing a ref stands for the operations on local and remote branches, tags and git refs
-- that it calls. A whole branch is set only to a target that exists somewhere.
pub data IsBuilt (is_ancestor : CommitId → CommitId → Bool) : View → Type 0 where
  start : IsBuilt is_ancestor empty_view
  ref :
      {v : View}
      → IsBuilt is_ancestor v
      → (name : RefName) (target : Option RefTarget)
      → IsBuilt is_ancestor (set_or_remove_ref v name target)
  merged :
      {v : View}
      → IsBuilt is_ancestor v
      → (name : RefName) (base other : Option RefTarget)
      → IsBuilt is_ancestor (merge_single_ref is_ancestor v name base other)
  branch :
      {v : View}
      → IsBuilt is_ancestor v
      → (name : Text) (b : BranchTarget) → exists_somewhere b ≡ true
      → IsBuilt is_ancestor (set_branch v name b)
  no_branch :
      {v : View}
      → IsBuilt is_ancestor v
      → (name : Text) → IsBuilt is_ancestor (remove_branch v name)
  head : {v : View} → IsBuilt is_ancestor v → (id : CommitId) → IsBuilt is_ancestor (add_head v id)
  no_head :
      {v : View} → IsBuilt is_ancestor v → (id : CommitId) → IsBuilt is_ancestor (remove_head v id)
  public_head :
      {v : View}
      → IsBuilt is_ancestor v
      → (id : CommitId) → IsBuilt is_ancestor (add_public_head v id)
  no_public_head :
      {v : View}
      → IsBuilt is_ancestor v
      → (id : CommitId) → IsBuilt is_ancestor (remove_public_head v id)
  wc_commit :
      {v : View}
      → IsBuilt is_ancestor v
      → (workspace : WorkspaceId) (id : CommitId)
      → IsBuilt is_ancestor (set_wc_commit v workspace id)
  no_wc_commit :
      {v : View}
      → IsBuilt is_ancestor v
      → (workspace : WorkspaceId) → IsBuilt is_ancestor (remove_wc_commit v workspace)
  git_head :
      {v : View} → IsBuilt is_ancestor v → (id : CommitId) → IsBuilt is_ancestor (set_git_head v id)
  no_git_head : {v : View} → IsBuilt is_ancestor v → IsBuilt is_ancestor (clear_git_head v)
