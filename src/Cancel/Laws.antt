-- ===== src/Cancel/Laws.antt =====
-- The pairs that are cancelled from a conflict in lib/src/files.rs and lib/src/tree.rs.
use jj.Prelude.{
  ◌+◌, ◌-◌, ◌≡◌, inl, inr, true, false, List, [], ◌∷◌, ◌++◌, arith, Option-cases, remove_at, Eq,
  beq_iff,
}
use jj.Prelude.Sets
use jj.Prelude.Counts.{count, position, count-append, count-remove_at, count_absent, contains-count}
use jj.Cancel.{cancel_loop, cancel_pairs}

module _ {ℓ} {A : Type ℓ} ⦃e : Eq A⦄ where
  -- What is left of the count of a value on each side.
  record Leaves (c : A) (kept adds removes : List A) (result : List A × List A) : Type 0 where
    added : count c result.0 ≡ count c kept + (count c adds - count c removes)
    removed : count c result.1 ≡ count c removes - count c adds

  loop-Leaves :
      (c : A) (kept adds removes : List A)
      → Leaves c kept adds removes (cancel_loop kept adds removes)
  unfolding cancel_loop
  loop-Leaves c kept [] removes = record { added = omega arith; removed = omega arith }
  loop-Leaves c kept (a ∷ adds) removes = elim (Option-cases (position a removes)) [
    | inl none_left ↦
        let rest = loop-Leaves c (kept ++ a ∷ []) adds removes in
        let absent = count_absent a removes none_left in
        rw (none_left, cancel_loop)
          (record {
            added = ground (arith, rest.added, count-append c kept (a ∷ []), absent, beq_iff a c);
            removed = ground (arith, rest.removed, absent, beq_iff a c);
          })
    | inr (i, found) ↦
        let rest = loop-Leaves c kept adds (remove_at i removes) in
        let one = count-remove_at a c removes i found in
        rw (found, cancel_loop)
          (record {
            added = ground (arith, rest.added, one);
            removed = ground (arith, rest.removed, one);
          })
  ]

  -- Cancelling leaves each value on the side where it stood more often, as often as it stood there
  -- more.
  pub count-cancel_pairs :
      (c : A) (adds removes : List A)
      → (count c (cancel_pairs adds removes).0 ≡ count c adds - count c removes)
        × (count c (cancel_pairs adds removes).1 ≡ count c removes - count c adds)
  unfolding cancel_pairs
  count-cancel_pairs c adds removes =
      let l = loop-Leaves c [] adds removes in (omega (arith, l.added), l.removed)

  -- No value is left on both sides.
  pub cancel_pairs_disjoint :
      (adds removes : List A) (c : A)
      → Sets.contains (cancel_pairs adds removes).0 c ≡ true
      → Sets.contains (cancel_pairs adds removes).1 c ≡ false
  cancel_pairs_disjoint adds removes c h =
      let (plus, minus) = count-cancel_pairs c adds removes in
      ground (
        arith,
        plus,
        minus,
        contains-count c (cancel_pairs adds removes).0,
        contains-count c (cancel_pairs adds removes).1,
      )
