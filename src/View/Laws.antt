-- ===== src/View/Laws.antt =====
-- Reading a ref of lib/src/view.rs after setting or removing one.
use jj.Prelude.{
  ◌≡◌, refl, ap, inl, inr, Option-cases, ◌&&◌, Option, none, some, arith, if◌then◌else◌, ◌==◌,
  beq_iff, list_eq, nat_eq,
}
use jj.Prelude.Maps
use jj.RepoPath.{Text}
use jj.OpStore.{RefTarget, BranchTarget, default_branch_target}
use jj.View.{
  View, RefName, local_branch, remote_branch, tag, git_ref, name_eq, get_ref, set_or_remove_ref,
  set_branch, remove_branch, get_local_branch, set_local_branch, remove_local_branch,
  get_remote_branch, set_remote_branch, remove_remote_branch, get_tag, set_tag, remove_tag,
  set_git_ref, remove_git_ref,
}

abbrev pub branch_of : View → Text → Option BranchTarget
branch_of v name = Maps.get v.view_data.branches name

module _ (v : View) (name other : Text) where
  pub branch_of-set_branch :
      (b : BranchTarget)
      → branch_of (set_branch v name b) other
        ≡ (if name == other then some b else branch_of v other)
  unfolding set_branch
  branch_of-set_branch b = Maps.get-insert name other b v.view_data.branches

  -- A branch that is set and then removed is gone, and the others are as before.
  pub branch_of-drop :
      (b : BranchTarget)
      → branch_of (remove_branch (set_branch v name b) name) other
        ≡ (if name == other then none else branch_of v other)
  unfolding remove_branch
  branch_of-drop b = ground (
    arith,
    Maps.get-remove name other (set_branch v name b).view_data.branches,
    branch_of-set_branch b,
  )

  local-set_local :
      (t : RefTarget)
      → get_local_branch (set_local_branch v name t) other
        ≡ (if name == other then some t else get_local_branch v other)
  unfolding get_local_branch set_local_branch
  local-set_local t =
      let branch = Maps.get_or v.view_data.branches name default_branch_target in
      ground (arith, branch_of-set_branch (record branch { local_target = some t }))

  remote-set_local :
      (remote : Text) (t : RefTarget)
      → get_remote_branch (set_local_branch v name t) other remote
        ≡ get_remote_branch v other remote
  unfolding get_remote_branch set_local_branch Maps.get_or
  remote-set_local remote t =
      let branch = Maps.get_or v.view_data.branches name default_branch_target in
      ground (
        arith,
        branch_of-set_branch (record branch { local_target = some t }),
        beq_iff name other,
        Maps.get-nil {V = RefTarget} remote,
      )

  local-remove_local :
      get_local_branch (remove_local_branch v name) other
      ≡ (if name == other then none else get_local_branch v other)
  unfolding get_local_branch remove_local_branch
  local-remove_local = elim (Option-cases (branch_of v name)) [
    | inl e ↦ ground (arith, beq_iff name other)
    | inr (b, e) ↦
        let b' = record b { local_target = none } in
        ground (arith, branch_of-set_branch b', branch_of-drop b')
  ]

  remote-remove_local :
      (remote : Text)
      → get_remote_branch (remove_local_branch v name) other remote
        ≡ get_remote_branch v other remote
  unfolding get_remote_branch remove_local_branch
  remote-remove_local remote = elim (Option-cases (branch_of v name)) [
    | inl e ↦ ground (arith, beq_iff name other)
    | inr (b, e) ↦
        let b' = record b { local_target = none } in
        ground (
          arith,
          branch_of-set_branch b',
          branch_of-drop b',
          beq_iff name other,
          Maps.get_of_is_empty b.remote_targets remote,
        )
  ]

  local-set_remote :
      (remote : Text) (t : RefTarget)
      → get_local_branch (set_remote_branch v name remote t) other ≡ get_local_branch v other
  unfolding get_local_branch set_remote_branch Maps.get_or
  local-set_remote remote t =
      let branch = Maps.get_or v.view_data.branches name default_branch_target in
      ground (
        arith,
        branch_of-set_branch
            (record branch { remote_targets = Maps.insert remote t branch.remote_targets }),
        beq_iff name other,
      )

  remote-set_remote :
      (remote remote' : Text) (t : RefTarget)
      → get_remote_branch (set_remote_branch v name remote t) other remote'
        ≡ (if name == other && remote == remote' then some t else get_remote_branch v other remote')
  unfolding get_remote_branch set_remote_branch Maps.get_or
  remote-set_remote remote remote' t =
      let branch = Maps.get_or v.view_data.branches name default_branch_target in
      ground (
        arith,
        branch_of-set_branch
            (record branch { remote_targets = Maps.insert remote t branch.remote_targets }),
        Maps.get-insert remote remote' t branch.remote_targets,
        beq_iff name other,
        Maps.get-nil {V = RefTarget} remote',
      )

  local-remove_remote :
      (remote : Text)
      → get_local_branch (remove_remote_branch v name remote) other ≡ get_local_branch v other
  unfolding get_local_branch remove_remote_branch
  local-remove_remote remote = elim (Option-cases (branch_of v name)) [
    | inl e ↦ ground (arith, beq_iff name other)
    | inr (b, e) ↦
        let b' = record b { remote_targets = Maps.remove remote b.remote_targets } in
        ground (arith, branch_of-set_branch b', branch_of-drop b', beq_iff name other)
  ]

  remote-remove_remote :
      (remote remote' : Text)
      → get_remote_branch (remove_remote_branch v name remote) other remote'
        ≡ (if name == other && remote == remote' then none else get_remote_branch v other remote')
  unfolding get_remote_branch remove_remote_branch
  remote-remove_remote remote remote' = elim (Option-cases (branch_of v name)) [
    | inl e ↦ ground (arith, beq_iff name other)
    | inr (b, e) ↦
        let b' = record b { remote_targets = Maps.remove remote b.remote_targets } in
        ground (
          arith,
          branch_of-set_branch b',
          branch_of-drop b',
          beq_iff name other,
          Maps.get-remove remote remote' b.remote_targets,
          Maps.get_of_is_empty b'.remote_targets remote',
        )
  ]

module _ (v : View) where
  get_ref-set :
      (name other : RefName) (t : RefTarget)
      → get_ref (set_or_remove_ref v name (some t)) other
        ≡ (if name == other then some t else get_ref v other)
  unfolding get_ref set_or_remove_ref
  get_ref-set (local_branch a) (local_branch b) t = local-set_local v a b t
  get_ref-set (local_branch a) (remote_branch b r) t = remote-set_local v a b r t
  get_ref-set (local_branch a) (tag b) t = unfold set_local_branch set_branch get_tag in refl
  get_ref-set (local_branch a) (git_ref b) t = unfold set_local_branch set_branch in refl
  get_ref-set (remote_branch a r) (local_branch b) t = local-set_remote v a b r t
  get_ref-set (remote_branch a r) (remote_branch b s) t = remote-set_remote v a b r s t
  get_ref-set (remote_branch a r) (tag b) t = unfold set_remote_branch set_branch get_tag in refl
  get_ref-set (remote_branch a r) (git_ref b) t = unfold set_remote_branch set_branch in refl
  get_ref-set (tag a) (local_branch b) t = unfold set_tag get_local_branch in refl
  get_ref-set (tag a) (remote_branch b s) t = unfold set_tag get_remote_branch in refl
  get_ref-set (tag a) (tag b) t = unfold set_tag get_tag in Maps.get-insert a b t v.view_data.tags
  get_ref-set (tag a) (git_ref b) t = unfold set_tag in refl
  get_ref-set (git_ref a) (local_branch b) t = unfold set_git_ref get_local_branch in refl
  get_ref-set (git_ref a) (remote_branch b s) t = unfold set_git_ref get_remote_branch in refl
  get_ref-set (git_ref a) (tag b) t = unfold set_git_ref get_tag in refl
  get_ref-set (git_ref a) (git_ref b) t =
      unfold set_git_ref in Maps.get-insert a b t v.view_data.git_refs

  -- What `remove_local_branch` and `remove_remote_branch` leave alone.
  record OnlyBranches (w : View) : Type 0 where
    tags : w.view_data.tags ≡ v.view_data.tags
    git_refs : w.view_data.git_refs ≡ v.view_data.git_refs

  remove_local-OnlyBranches : (name : Text) → OnlyBranches (remove_local_branch v name)
  unfolding remove_local_branch set_branch remove_branch
  remove_local-OnlyBranches name = ground arith

  remove_remote-OnlyBranches :
      (name remote : Text) → OnlyBranches (remove_remote_branch v name remote)
  unfolding remove_remote_branch set_branch remove_branch
  remove_remote-OnlyBranches name remote = ground arith

  get_ref-remove :
      (name other : RefName)
      → get_ref (set_or_remove_ref v name none) other
        ≡ (if name == other then none else get_ref v other)
  unfolding get_ref set_or_remove_ref get_tag
  get_ref-remove (local_branch a) (local_branch b) = local-remove_local v a b
  get_ref-remove (local_branch a) (remote_branch b r) = remote-remove_local v a b r
  get_ref-remove (local_branch a) (tag b) =
      ap (λ m. Maps.get m b) (remove_local-OnlyBranches a).tags
  get_ref-remove (local_branch a) (git_ref b) =
      ap (λ m. Maps.get m b) (remove_local-OnlyBranches a).git_refs
  get_ref-remove (remote_branch a r) (local_branch b) = local-remove_remote v a b r
  get_ref-remove (remote_branch a r) (remote_branch b s) = remote-remove_remote v a b r s
  get_ref-remove (remote_branch a r) (tag b) =
      ap (λ m. Maps.get m b) (remove_remote-OnlyBranches a r).tags
  get_ref-remove (remote_branch a r) (git_ref b) =
      ap (λ m. Maps.get m b) (remove_remote-OnlyBranches a r).git_refs
  get_ref-remove (tag a) (local_branch b) = unfold remove_tag get_local_branch in refl
  get_ref-remove (tag a) (remote_branch b s) = unfold remove_tag get_remote_branch in refl
  get_ref-remove (tag a) (tag b) = unfold remove_tag in Maps.get-remove a b v.view_data.tags
  get_ref-remove (tag a) (git_ref b) = unfold remove_tag in refl
  get_ref-remove (git_ref a) (local_branch b) = unfold remove_git_ref get_local_branch in refl
  get_ref-remove (git_ref a) (remote_branch b s) = unfold remove_git_ref get_remote_branch in refl
  get_ref-remove (git_ref a) (tag b) = unfold remove_git_ref in refl
  get_ref-remove (git_ref a) (git_ref b) =
      unfold remove_git_ref in Maps.get-remove a b v.view_data.git_refs

  -- After `set_or_remove_ref` the named ref has exactly the given target, or none, and every other
  -- ref, of whatever kind, is as it was.
  pub get_ref-set_or_remove_ref :
      (name other : RefName) (target : Option RefTarget)
      → get_ref (set_or_remove_ref v name target) other
        ≡ (if name == other then target else get_ref v other)
  get_ref-set_or_remove_ref name other none = get_ref-remove name other
  get_ref-set_or_remove_ref name other (some t) = get_ref-set name other t
