-- ===== src/View.antt =====
-- lib/src/view.rs: the view of a repository, and the operations on it. A method that takes
-- `&mut self` returns the new view.
pub mod Laws
pub mod Present
pub mod MergeRef
pub mod Built
pub mod Examples
use jj.Prelude.{
  Bool, true, false, ◌&&◌, ◌≡◌, ◌↔◌, Option, none, some, List, [], ◌∷◌, if◌then◌else◌, is_empty,
  arith, Eq, ◌==◌, list_eq, nat_eq, option_eq, list_beq_iff, not,
}
use jj.Prelude.Maps
use jj.Prelude.Maps.{Map}
use jj.Prelude.Sets
use jj.RepoPath.{Text}
use jj.OpStore
use jj.OpStore.{CommitId, WorkspaceId, RefTarget, target_eq, BranchTarget, default_branch_target}
use jj.Refs.{merge_ref_targets}

pub data RefName : Type 0 where
  local_branch : Text → RefName
  remote_branch : Text → Text → RefName
  tag : Text → RefName
  git_ref : Text → RefName

-- The derived `==`.
abbrev pub name_beq : RefName → RefName → Bool
name_beq (local_branch a) (local_branch b) = a == b
name_beq (remote_branch a r) (remote_branch b s) = a == b && r == s
name_beq (tag a) (tag b) = a == b
name_beq (git_ref a) (git_ref b) = a == b
name_beq _ _ = false

pub name_beq_iff : (a b : RefName) → (name_beq a b ≡ true) ↔ (a ≡ b)
name_beq_iff (local_branch a) (local_branch b) = ground (arith, list_beq_iff a b)
name_beq_iff (remote_branch a r) (remote_branch b s) =
    ground (arith, list_beq_iff a b, list_beq_iff r s)
name_beq_iff (tag a) (tag b) = ground (arith, list_beq_iff a b)
name_beq_iff (git_ref a) (git_ref b) = ground (arith, list_beq_iff a b)
name_beq_iff _ _ = ground arith

instance abbrev pub name_eq : Eq RefName
name_eq = record { beq = name_beq; beq_iff = name_beq_iff }

pub record View : Type 0 where
  pub view_data : OpStore.View

unfoldable pub get_wc_commit_id : View → WorkspaceId → Option CommitId
get_wc_commit_id self workspace_id = Maps.get self.view_data.wc_commit_ids workspace_id

-- The loop of `workspaces_for_wc_commit_id`, with the result pushed so far at the front.
unfoldable pub workspaces_with : CommitId → Map WorkspaceId CommitId → List WorkspaceId
workspaces_with commit_id [] = []
workspaces_with commit_id ((workspace_id, wc_commit_id) ∷ m) =
    let rest = workspaces_with commit_id m in
    if wc_commit_id == commit_id then workspace_id ∷ rest else rest

unfoldable pub workspaces_for_wc_commit_id : View → CommitId → List WorkspaceId
workspaces_for_wc_commit_id self commit_id = workspaces_with commit_id self.view_data.wc_commit_ids

-- `values().contains(commit_id)`
unfoldable pub values_contain : CommitId → Map WorkspaceId CommitId → Bool
values_contain commit_id [] = false
values_contain commit_id ((workspace_id, wc_commit_id) ∷ m) =
    if wc_commit_id == commit_id then true else values_contain commit_id m

unfoldable pub is_wc_commit_id : View → CommitId → Bool
is_wc_commit_id self commit_id = values_contain commit_id self.view_data.wc_commit_ids

abbrev with_data : OpStore.View → View
with_data d = record { view_data = d }

unfoldable pub set_wc_commit : View → WorkspaceId → CommitId → View
set_wc_commit self workspace_id commit_id =
    let d = self.view_data in
    with_data (record d { wc_commit_ids = Maps.insert workspace_id commit_id d.wc_commit_ids })

unfoldable pub remove_wc_commit : View → WorkspaceId → View
remove_wc_commit self workspace_id =
    let d = self.view_data in
    with_data (record d { wc_commit_ids = Maps.remove workspace_id d.wc_commit_ids })

unfoldable pub add_head : View → CommitId → View
add_head self head_id =
    let d = self.view_data in with_data (record d { head_ids = Sets.insert head_id d.head_ids })

unfoldable pub remove_head : View → CommitId → View
remove_head self head_id =
    let d = self.view_data in with_data (record d { head_ids = Sets.remove head_id d.head_ids })

unfoldable pub add_public_head : View → CommitId → View
add_public_head self head_id =
    let d = self.view_data in
    with_data (record d { public_head_ids = Sets.insert head_id d.public_head_ids })

unfoldable pub remove_public_head : View → CommitId → View
remove_public_head self head_id =
    let d = self.view_data in
    with_data (record d { public_head_ids = Sets.remove head_id d.public_head_ids })

unfoldable pub get_branch : View → Text → Option BranchTarget
get_branch self name = Maps.get self.view_data.branches name

unfoldable pub set_branch : View → Text → BranchTarget → View
set_branch self name target =
    let d = self.view_data in with_data (record d { branches = Maps.insert name target d.branches })

unfoldable pub remove_branch : View → Text → View
remove_branch self name =
    let d = self.view_data in with_data (record d { branches = Maps.remove name d.branches })

unfoldable pub get_local_branch : View → Text → Option RefTarget
get_local_branch self name = elim (Maps.get self.view_data.branches name) [
  | none ↦ none
  | some branch_target ↦ branch_target.local_target
]

-- `entry(name).or_default()` is the branch, or the default.
unfoldable pub set_local_branch : View → Text → RefTarget → View
set_local_branch self name target =
    let branch = Maps.get_or self.view_data.branches name default_branch_target in
    set_branch self name (record branch { local_target = some target })

unfoldable pub remove_local_branch : View → Text → View
remove_local_branch self name = elim (Maps.get self.view_data.branches name) [
  | none ↦ self
  | some branch ↦
      let self' = set_branch self name (record branch { local_target = none }) in
      if is_empty branch.remote_targets then remove_branch self' name else self'
]

unfoldable pub get_remote_branch : View → Text → Text → Option RefTarget
get_remote_branch self name remote_name = elim (Maps.get self.view_data.branches name) [
  | none ↦ none
  | some branch_target ↦ Maps.get branch_target.remote_targets remote_name
]

unfoldable pub set_remote_branch : View → Text → Text → RefTarget → View
set_remote_branch self name remote_name target =
    let branch = Maps.get_or self.view_data.branches name default_branch_target in
    set_branch self name
      (record branch { remote_targets = Maps.insert remote_name target branch.remote_targets })

abbrev pub is_none : Option RefTarget → Bool
is_none none = true
is_none (some target) = false

unfoldable pub remove_remote_branch : View → Text → Text → View
remove_remote_branch self name remote_name = elim (Maps.get self.view_data.branches name) [
  | none ↦ self
  | some branch ↦
      let remotes = Maps.remove remote_name branch.remote_targets in
      let self' = set_branch self name (record branch { remote_targets = remotes }) in
      if is_empty remotes && is_none branch.local_target then remove_branch self' name else self'
]

unfoldable pub get_tag : View → Text → Option RefTarget
get_tag self name = Maps.get self.view_data.tags name

unfoldable pub set_tag : View → Text → RefTarget → View
set_tag self name target =
    let d = self.view_data in with_data (record d { tags = Maps.insert name target d.tags })

unfoldable pub remove_tag : View → Text → View
remove_tag self name =
    let d = self.view_data in with_data (record d { tags = Maps.remove name d.tags })

unfoldable pub set_git_ref : View → Text → RefTarget → View
set_git_ref self name target =
    let d = self.view_data in with_data (record d { git_refs = Maps.insert name target d.git_refs })

unfoldable pub remove_git_ref : View → Text → View
remove_git_ref self name =
    let d = self.view_data in with_data (record d { git_refs = Maps.remove name d.git_refs })

unfoldable pub set_git_head : View → CommitId → View
set_git_head self head_id =
    let d = self.view_data in with_data (record d { git_head = some head_id })

unfoldable pub clear_git_head : View → View
clear_git_head self = let d = self.view_data in with_data (record d { git_head = none })

unfoldable pub get_ref : View → RefName → Option RefTarget
get_ref self (local_branch name) = get_local_branch self name
get_ref self (remote_branch branch remote) = get_remote_branch self branch remote
get_ref self (tag name) = get_tag self name
get_ref self (git_ref name) = Maps.get self.view_data.git_refs name

unfoldable pub set_or_remove_ref : View → RefName → Option RefTarget → View
set_or_remove_ref self (local_branch name) (some target) = set_local_branch self name target
set_or_remove_ref self (remote_branch branch remote) (some target) =
    set_remote_branch self branch remote target
set_or_remove_ref self (tag name) (some target) = set_tag self name target
set_or_remove_ref self (git_ref name) (some target) = set_git_ref self name target
set_or_remove_ref self (local_branch name) none = remove_local_branch self name
set_or_remove_ref self (remote_branch branch remote) none = remove_remote_branch self branch remote
set_or_remove_ref self (tag name) none = remove_tag self name
set_or_remove_ref self (git_ref name) none = remove_git_ref self name

unfoldable pub merge_single_ref :
    (CommitId → CommitId → Bool) → View → RefName → Option RefTarget → Option RefTarget → View
merge_single_ref is_ancestor self ref_name base_target other_target =
    let self_target = get_ref self ref_name in
    let new_target = merge_ref_targets is_ancestor self_target base_target other_target in
    if not (base_target == other_target)
    then (if not (new_target == self_target)
        then set_or_remove_ref self ref_name new_target
        else self)
    else self
