-- ===== src/View/MergeRef.antt =====
-- `merge_single_ref` of lib/src/view.rs.
use jj.Prelude.{
  ◌≡◌, inl, inr, Bool, Option, arith, if◌then◌else◌, Bool-cases, ◌==◌, beq_iff, list_eq, nat_eq,
  option_eq,
}
use jj.OpStore.{CommitId, RefTarget, target_eq}
use jj.Refs.{merge_ref_targets}
use jj.View.{View, RefName, name_eq, get_ref, merge_single_ref}
use jj.View.Laws.{get_ref-set_or_remove_ref}
use jj.View.Present.{IsPresent, set_or_remove_ref-IsPresent}

module _ (is_ancestor : CommitId → CommitId → Bool) (v : View) (name : RefName)
    (base other : Option RefTarget) where
  -- Merging one ref sets it to the three-way merge of its targets, leaves it alone if the other
  -- side did not change it, and leaves every other ref alone.
  pub get_ref-merge_single_ref :
      (n : RefName)
      → get_ref (merge_single_ref is_ancestor v name base other) n ≡ (
          if name == n
          then (if base == other
              then get_ref v n
              else merge_ref_targets is_ancestor (get_ref v name) base other)
          else get_ref v n)
  unfolding merge_single_ref
  get_ref-merge_single_ref n =
      let new_target = merge_ref_targets is_ancestor (get_ref v name) base other in
      ground (
        arith,
        get_ref-set_or_remove_ref v name n new_target,
        beq_iff name n,
        beq_iff new_target (get_ref v name),
      )

  pub merge_single_ref-IsPresent :
      IsPresent v → IsPresent (merge_single_ref is_ancestor v name base other)
  unfolding merge_single_ref
  merge_single_ref-IsPresent h =
      let new_target = merge_ref_targets is_ancestor (get_ref v name) base other in
      let set = set_or_remove_ref-IsPresent v name new_target h in
      elim (Bool-cases (base == other)) [
        | inl e ↦ rw e h
        | inr e ↦ elim (Bool-cases (new_target == get_ref v name)) [
          | inl f ↦ rw (e, f) h
          | inr f ↦ rw (e, f) set
        ]
      ]
