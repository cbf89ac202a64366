-- ===== src/Refs/Examples.antt =====
-- Tests and instances for lib/src/refs.rs, over an index in which a commit is an ancestor of a
-- commit with a larger id.
use jj.Prelude.{
  ℕ, ◌≡◌, refl, ◌⊎◌, inl, Bool, true, false, some, [], ◌∷◌, arith, ltb, list_eq, nat_eq,
}
use jj.Prelude.Maps
use jj.OpStore.{CommitId, RefTarget, normal, conflict, adds, removes, BranchTarget}
use jj.Refs.{
  find_remove, find_equal, find_pair_to_remove, find_redundant, find_related, check_pair,
  first_add_is_ancestor, drop_add, find_base, reduce, remove_maybe, adds_of, target_of_terms,
  merge_terms, merge_ref_targets, update, classify_targets, classify_branch_push_action,
}
use jj.Refs.Merge.{IsWellFormed, Yields, merge_ref_targets-IsWellFormed}
use jj.Refs.Survive.{IsCovered, removed, merge_ref_targets_covers}
use jj.Refs.Push.{Describes, classify_branch_push_action-Describes}

abbrev pub older : CommitId → CommitId → Bool
older (a ∷ []) (b ∷ []) = ltb a b
older _ _ = false

older_trans : (a b c : CommitId) → older a b ≡ true → older b c ≡ true → older a c ≡ true
older_trans [] b c h k = cc
older_trans (a ∷ []) [] c h k = cc
older_trans (a ∷ []) (b ∷ []) [] h k = cc
older_trans (a ∷ []) (b ∷ []) (c ∷ []) h k = ground arith
older_trans (a ∷ []) (b ∷ []) (c ∷ _ ∷ _) h k = cc
older_trans (a ∷ []) (b ∷ _ ∷ _) c h k = cc
older_trans (a ∷ _ ∷ _) b c h k = cc

-- Unrelated commits.
abbrev pub unrelated : CommitId → CommitId → Bool
unrelated a b = false

abbrev pub commit : ℕ → RefTarget
commit n = normal (n ∷ [])

-- Both sides moved the ref, to unrelated commits.
merge_conflict :
    merge_ref_targets unrelated (some (commit 2)) (some (commit 1)) (some (commit 3))
    ≡ some (conflict ((1 ∷ []) ∷ []) ((2 ∷ []) ∷ (3 ∷ []) ∷ []))
unfolding merge_ref_targets merge_terms reduce find_pair_to_remove find_equal find_remove
    find_redundant find_related check_pair first_add_is_ancestor target_of_terms adds removes
merge_conflict = refl

-- Both sides moved the ref forward, one further than the other.
merge_forward :
    merge_ref_targets older (some (commit 2)) (some (commit 1)) (some (commit 3)) ≡ some (commit 3)
unfolding merge_ref_targets merge_terms reduce find_pair_to_remove find_equal find_remove
    find_redundant find_related check_pair drop_add find_base remove_maybe first_add_is_ancestor
    target_of_terms adds removes
merge_forward = refl

merge_ref_targets-IsWellFormed_example :
    Yields IsWellFormed
      (merge_ref_targets unrelated (some (commit 2)) (some (commit 1)) (some (commit 3)))
merge_ref_targets-IsWellFormed_example =
    merge_ref_targets-IsWellFormed unrelated (commit 2) (commit 1) (commit 3) tt tt tt

merge_ref_targets_covers_example :
    IsCovered older older_trans
      (2 ∷ [])
      (adds_of (merge_ref_targets older (some (commit 2)) (some (commit 1)) (some (commit 3))))
    ⊎ IsCovered older older_trans
        (2 ∷ [])
        (removed older older_trans (some (commit 2)) (some (commit 1)) (some (commit 3)))
unfolding adds
merge_ref_targets_covers_example =
    merge_ref_targets_covers older older_trans (some (commit 2)) (some (commit 1)) (some (commit 3))
      (2 ∷ []) (inl refl)

abbrev branch : BranchTarget
branch = record { local_target = some (commit 2); remote_targets = (b'o' ∷ [], commit 1) ∷ [] }

push_update :
    classify_branch_push_action branch (b'o' ∷ [])
    ≡ update (record { old_target = some (1 ∷ []); new_target = some (2 ∷ []) })
unfolding classify_branch_push_action classify_targets Maps.get
push_update = refl

classify_branch_push_action-Describes_example :
    Describes
      (classify_branch_push_action branch (b'o' ∷ []))
      branch.local_target
      (Maps.get branch.remote_targets (b'o' ∷ []))
classify_branch_push_action-Describes_example =
    classify_branch_push_action-Describes branch (b'o' ∷ [])
