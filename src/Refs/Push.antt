-- ===== src/Refs/Push.antt =====
-- `classify_branch_push_action` of lib/src/refs.rs.
use jj.Prelude.{
  ◌≡◌, refl, ◌≢◌, inl, inr, Option, none, some, Bool-cases, ◌==◌, beq_iff, list_eq, nat_eq,
  option_eq,
}
use jj.Prelude.Maps
use jj.RepoPath.{Text}
use jj.OpStore.{CommitId, RefTarget, normal, conflict, target_eq, BranchTarget}
use jj.Refs.{
  BranchPushAction, update, already_matches, local_conflicted, remote_conflicted, panic,
  classify_targets, classify_branch_push_action,
}

-- The commit of a target that is no conflict.
abbrev pub commit_of : Option RefTarget → Option CommitId
commit_of none = none
commit_of (some (normal id)) = some id
commit_of (some (conflict removes adds)) = none

abbrev pub IsResolved : Option RefTarget → Type 0
IsResolved none = Unit {0}
IsResolved (some (normal id)) = Unit {0}
IsResolved (some (conflict removes adds)) = ⊥

-- What each answer says of the local and of the remote target.
abbrev pub Describes : BranchPushAction → Option RefTarget → Option RefTarget → Type 0
Describes (update u) local remote =
    (local ≢ remote)
    × IsResolved local
    × IsResolved remote
    × (u.old_target ≡ commit_of remote)
    × (u.new_target ≡ commit_of local)
Describes already_matches local remote = local ≡ remote
Describes local_conflicted local remote = (local ≢ remote) × (IsResolved local → ⊥)
Describes remote_conflicted local remote =
    (local ≢ remote) × IsResolved local × (IsResolved remote → ⊥)
Describes panic local remote = ⊥

classify-Describes :
    (local remote : Option RefTarget)
    → local ≢ remote
    → Describes (classify_targets remote local) local remote
unfolding classify_targets
classify-Describes none none n = n refl
classify-Describes none (some (normal b)) n = (n, tt, tt, refl, refl)
classify-Describes none (some (conflict r a)) n = (n, tt, λ h. h)
classify-Describes (some (normal a)) none n = (n, tt, tt, refl, refl)
classify-Describes (some (normal a)) (some (normal b)) n = (n, tt, tt, refl, refl)
classify-Describes (some (normal a)) (some (conflict r s)) n = (n, tt, λ h. h)
classify-Describes (some (conflict r s)) none n = (n, λ h. h)
classify-Describes (some (conflict r s)) (some (normal b)) n = (n, λ h. h)
classify-Describes (some (conflict r s)) (some (conflict r' s')) n = (n, λ h. h)

-- The classification is right on every branch, and never panics: `AlreadyMatches` means that the
-- two targets are equal; otherwise a conflict on either side, the local one first, is reported; and
-- an update goes from the commit on the remote, if any, to the local commit, if any.
pub classify_branch_push_action-Describes :
    (b : BranchTarget) (remote_name : Text)
    → Describes
        (classify_branch_push_action b remote_name)
        b.local_target
        (Maps.get b.remote_targets remote_name)
unfolding classify_branch_push_action
classify_branch_push_action-Describes b remote_name =
    let remote = Maps.get b.remote_targets remote_name in
    let (same, back) = beq_iff b.local_target remote in
    elim (Bool-cases (b.local_target == remote)) [
      | inl e ↦ rw e (same e)
      | inr e ↦ rw e (classify-Describes b.local_target remote (λ k. cc (e, back k)))
    ]
