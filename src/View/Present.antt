-- ===== src/View/Present.antt =====
-- Setting and removing refs of a view in lib/src/view.rs, and branches that exist nowhere.
use jj.Prelude.{
  ◌≡◌, inl, inr, Bool, true, ◌&&◌, not, Option, none, some, arith, is_empty, Option-cases, list_eq,
  nat_eq,
}
use jj.Prelude.Maps
use jj.RepoPath.{Text}
use jj.OpStore.{RefTarget, BranchTarget, default_branch_target}
use jj.View.{
  View, RefName, local_branch, remote_branch, tag, git_ref, set_or_remove_ref, set_local_branch,
  remove_local_branch, set_remote_branch, remove_remote_branch, set_tag, remove_tag, set_git_ref,
  remove_git_ref, is_none,
}
use jj.View.Laws.{branch_of, branch_of-set_branch, branch_of-drop}

-- The branch has a local target or a target on some remote.
abbrev pub exists_somewhere : BranchTarget → Bool
exists_somewhere b = not (is_empty b.remote_targets && is_none b.local_target)

abbrev pub IsPresent : View → Type 0
IsPresent v =
    (name : Text) (b : BranchTarget) → branch_of v name ≡ some b → exists_somewhere b ≡ true

module _ (v : View) (present : IsPresent v) (name : Text) where
  set_local-IsPresent : (t : RefTarget) → IsPresent (set_local_branch v name t)
  unfolding set_local_branch
  set_local-IsPresent t other b h =
      let branch = Maps.get_or v.view_data.branches name default_branch_target in
      ground (
        arith,
        branch_of-set_branch v name other (record branch { local_target = some t }),
        present other b,
      )

  set_remote-IsPresent :
      (remote : Text) (t : RefTarget) → IsPresent (set_remote_branch v name remote t)
  unfolding set_remote_branch
  set_remote-IsPresent remote t other b h =
      let branch = Maps.get_or v.view_data.branches name default_branch_target in
      let remotes = Maps.insert remote t branch.remote_targets in
      ground (
        arith,
        branch_of-set_branch v name other (record branch { remote_targets = remotes }),
        Maps.is_empty-insert remote t branch.remote_targets,
        present other b,
      )

  remove_local-IsPresent : IsPresent (remove_local_branch v name)
  unfolding remove_local_branch
  remove_local-IsPresent other b h = elim (Option-cases (branch_of v name)) [
    | inl e ↦ ground (arith, present other b)
    | inr (b0, e) ↦
        let b' = record b0 { local_target = none } in
        ground (
          arith,
          branch_of-set_branch v name other b',
          branch_of-drop v name other b',
          present other b,
        )
  ]

  remove_remote-IsPresent : (remote : Text) → IsPresent (remove_remote_branch v name remote)
  unfolding remove_remote_branch
  remove_remote-IsPresent remote other b h = elim (Option-cases (branch_of v name)) [
    | inl e ↦ ground (arith, present other b)
    | inr (b0, e) ↦
        let b' = record b0 { remote_targets = Maps.remove remote b0.remote_targets } in
        ground (
          arith,
          branch_of-set_branch v name other b',
          branch_of-drop v name other b',
          present other b,
        )
  ]

-- Setting or removing any ref keeps the view free of branches that exist nowhere.
pub set_or_remove_ref-IsPresent :
    (v : View) (name : RefName) (target : Option RefTarget)
    → IsPresent v
    → IsPresent (set_or_remove_ref v name target)
unfolding set_or_remove_ref set_tag set_git_ref remove_tag remove_git_ref
set_or_remove_ref-IsPresent v (local_branch a) (some t) h = set_local-IsPresent v h a t
set_or_remove_ref-IsPresent v (remote_branch a r) (some t) h = set_remote-IsPresent v h a r t
set_or_remove_ref-IsPresent v (tag a) (some t) h = h
set_or_remove_ref-IsPresent v (git_ref a) (some t) h = h
set_or_remove_ref-IsPresent v (local_branch a) none h = remove_local-IsPresent v h a
set_or_remove_ref-IsPresent v (remote_branch a r) none h = remove_remote-IsPresent v h a r
set_or_remove_ref-IsPresent v (tag a) none h = h
set_or_remove_ref-IsPresent v (git_ref a) none h = h
