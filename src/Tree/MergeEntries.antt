-- ===== src/Tree/MergeEntries.antt =====
-- The entries of the tree that `merge_trees` of lib/src/tree.rs writes.
use jj.Prelude.{
  ℕ, suc, ◌&&◌, ◌||◌, list_eq, nat_eq, ◌≡◌, refl, sym, ◌∙◌, ◌⊎◌, inl, inr, ◌≢◌, true, false, Option,
  none, some, List, [], ◌∷◌, arith, if◌then◌else◌, Bool-cases, ◌==◌, beq_iff, option_eq, eq_of_beq,
  beq_of_ne,
}
use jj.Prelude.BTree
use jj.Prelude.BTree.{IsSorted}
use jj.RepoPath.{RepoPath, RepoPathComponent, component_eq, path_eq}
use jj.Backend
use jj.Backend.{TreeId, TreeValue, value_eq, component_ord}
use jj.Files.{Bytes, MergeResult}
use jj.Tree.{
  Result, ok, Tree, Store, EntryDiff, diff_entries, diff_loop, merge_tree_value, put, merge_loop,
  merge_changed, merge_trees,
}
use jj.Tree.DiffEntries.{find, find-diff_loop, changed, AllDiffs, diff_loop-AllDiffs}

-- Removing or setting a value, seen under any name.
value-put :
    (t : Backend.Tree) (k n : RepoPathComponent) (v : Option TreeValue)
    → IsSorted t.entries
    → Backend.value (put t k v) n ≡ (if k == n then v else Backend.value t n)
unfolding put Backend.value Backend.set Backend.remove
value-put t k n none s = ground (
  arith,
  BTree.get-remove k n t.entries s,
  component_ord.eq_of_cmp n k,
  component_ord.cmp_refl n,
  beq_iff k n,
)
value-put t k n (some v) s = ground (
  arith,
  BTree.get-insert k n v t.entries s,
  component_ord.eq_of_cmp n k,
  component_ord.cmp_refl n,
  beq_iff k n,
)

put-IsSorted :
    (t : Backend.Tree) (k : RepoPathComponent) (v : Option TreeValue)
    → IsSorted t.entries
    → IsSorted (put t k v).entries
unfolding put Backend.set Backend.remove
put-IsSorted t k none s = BTree.remove-IsSorted k t.entries s
put-IsSorted t k (some v) s = BTree.insert-IsSorted k v t.entries s

module _ (store : Store) (merge : List Bytes → List Bytes → MergeResult)
    (merge_trees : Tree → Tree → Tree → Result TreeId) (dir : RepoPath) where
  -- The value where the base and side 2 differ.
  abbrev pub changed_value :
      RepoPathComponent
      → Option TreeValue
      → Option TreeValue
      → Option TreeValue
      → Result (Option TreeValue)
  changed_value n base side1 side2 =
      if side1 == base
      then ok side2
      else if side1 == side2
      then ok side1
      else merge_tree_value store merge merge_trees dir n base side1 side2

  -- The three-way merge of the values under one name: a side that is unchanged yields to the other,
  -- equal sides give that side, and the rest is left to `merge_tree_value`.
  abbrev pub merged_value :
      RepoPathComponent
      → Option TreeValue
      → Option TreeValue
      → Option TreeValue
      → Result (Option TreeValue)
  merged_value n base side1 side2 =
      if base == side2 then ok side1 else changed_value n base side1 side2

  merged_changed :
      (n : RepoPathComponent) (base side1 side2 r : Option TreeValue)
      → merged_value n base side1 side2 ≡ ok r
      → base ≢ side2
      → changed_value n base side1 side2 ≡ ok r
  merged_changed n base side1 side2 r h ne = rw (beq_of_ne base side2 ne) at h

  merged_unchanged :
      (n : RepoPathComponent) (base side1 side2 r : Option TreeValue)
      → merged_value n base side1 side2 ≡ ok r
      → changed base side2 ≡ none
      → side1 ≡ r
  merged_unchanged n base side1 side2 r h e = elim (Bool-cases (base == side2)) [
    | inl f ↦ let kept : ok side1 ≡ ok r = rw f at h in cc
    | inr f ↦
        let both : Option (Option TreeValue × Option TreeValue) = some (base, side2) in
        let failed : both ≡ none = rw f at e in cc
  ]

  module _ (side1 : Tree) (result : RepoPathComponent → Option TreeValue) where
    abbrev Resolves : RepoPathComponent → Option TreeValue → Option TreeValue → Type 0
    Resolves n base side2 =
        changed_value n base (Backend.value side1.contents n) side2 ≡ ok (result n)

    -- Every name has the value of side 1 or the merged one.
    abbrev IsPartial : Backend.Tree → Type 0
    IsPartial t =
        (n : RepoPathComponent)
        → (Backend.value t n ≡ Backend.value side1.contents n) ⊎ (Backend.value t n ≡ result n)

    record Ends (t : Backend.Tree) (diffs : List EntryDiff) : Type 0 where
      new_tree : Backend.Tree
      ends : merge_loop store merge merge_trees dir side1 t diffs ≡ ok new_tree
      values :
          (n : RepoPathComponent)
          → (Backend.value new_tree n ≡ result n)
            ⊎ ((Backend.value new_tree n ≡ Backend.value t n) × (find diffs n ≡ none))

    -- `t'` is `t` with the merged value under one name.
    abbrev Puts : RepoPathComponent → Backend.Tree → Backend.Tree → Type 0
    Puts k t t' =
        (n : RepoPathComponent)
        → Backend.value t' n ≡ (if k == n then result k else Backend.value t n)

    at_same_name :
        (k n : RepoPathComponent) (t t' : Backend.Tree)
        → Puts k t t'
        → k ≡ n
        → Backend.value t' n ≡ result n
    at_same_name k n t t' u e = ground (arith, u n, beq_iff k n)

    at_other_name :
        (k n : RepoPathComponent) (t t' : Backend.Tree)
        → Puts k t t'
        → (k == n) ≡ false
        → Backend.value t' n ≡ Backend.value t n
    at_other_name k n t t' u e = u n ∙ rw e refl

    Puts-IsPartial :
        (k : RepoPathComponent) (t t' : Backend.Tree) → Puts k t t' → IsPartial t → IsPartial t'
    Puts-IsPartial k t t' u p n = elim (Bool-cases (k == n)) [
      | inl e ↦ inr (at_same_name k n t t' u (eq_of_beq k n e))
      | inr e ↦ elim (p n) [
        | inl q ↦ inl (at_other_name k n t t' u e ∙ q)
        | inr q ↦ inr (at_other_name k n t t' u e ∙ q)
      ]
    ]

    step-Ends :
        (k : RepoPathComponent) (base side2 : Option TreeValue) (t t' : Backend.Tree)
        (diffs : List EntryDiff)
        → merge_loop store merge merge_trees dir side1 t ((k, base, side2) ∷ diffs)
          ≡ merge_loop store merge merge_trees dir side1 t' diffs
        → Puts k t t'
        → Ends t' diffs
        → Ends t ((k, base, side2) ∷ diffs)
    step-Ends k base side2 t t' diffs e u rest = record {
      new_tree = rest.new_tree;
      ends = e ∙ rest.ends;
      values = λ n. elim (rest.values n) [
        | inl q ↦ inl q
        | inr (q, absent) ↦ elim (Bool-cases (k == n)) [
          | inl same ↦ inl (q ∙ at_same_name k n t t' u (eq_of_beq k n same))
          | inr other ↦ inr (q ∙ at_other_name k n t t' u other, rw other absent)
        ]
      ];
    }

    put-Puts :
        (k : RepoPathComponent) (v : Option TreeValue) (t : Backend.Tree)
        → IsSorted t.entries
        → ok v ≡ ok (result k)
        → Puts k t (put t k v)
    put-Puts k v t s e n = ground (arith, value-put t k n v s)

    same-Puts :
        (k : RepoPathComponent) (t : Backend.Tree) → Backend.value t k ≡ result k → Puts k t t
    same-Puts k t e n = ground (arith, beq_iff k n)

    kept_value :
        (k : RepoPathComponent) (t : Backend.Tree)
        → IsPartial t
        → ok (Backend.value side1.contents k) ≡ ok (result k)
        → Backend.value t k ≡ result k
    kept_value k t p e = elim (p k) [ inl q ↦ cc | inr q ↦ q ]

    loop-Ends :
        (t : Backend.Tree) (diffs : List EntryDiff)
        → IsSorted t.entries
        → IsPartial t
        → AllDiffs Resolves diffs
        → Ends t diffs
    unfolding merge_loop
    loop-Ends t [] s p a = record { new_tree = t; ends = refl; values = λ n. inr (refl, refl) }
    loop-Ends t ((k, base, side2) ∷ diffs) s p a =
        elim (Bool-cases (Backend.value side1.contents k == base)) [
          | inl e ↦
              let u = put-Puts k side2 t s (rw e at a.0) in
              step-Ends k base side2 t (put t k side2) diffs (rw (e, merge_loop) refl) u (
                loop-Ends (put t k side2) diffs (put-IsSorted t k side2 s)
                  (Puts-IsPartial k t (put t k side2) u p) a.1)
          | inr e ↦ elim (Bool-cases (Backend.value side1.contents k == side2)) [
            | inl f ↦
                let kept : ok (Backend.value side1.contents k) ≡ ok (result k) = rw (e, f) at a.0 in
                step-Ends k base side2 t t diffs (rw (e, f, merge_loop) refl)
                  (same-Puts k t (kept_value k t p kept)) (loop-Ends t diffs s p a.1)
            | inr f ↦
                let merged : merge_tree_value store merge merge_trees dir k base
                      (Backend.value side1.contents k) side2
                    ≡ ok (result k) =
                  rw (e, f) at a.0 in
                let u = put-Puts k (result k) t s refl in
                step-Ends k base side2 t (put t k (result k)) diffs
                  (rw (e, f, merged, merge_loop) refl) u
                  (loop-Ends (put t k (result k)) diffs (put-IsSorted t k (result k) s)
                    (Puts-IsPartial k t (put t k (result k)) u p) a.1)
          ]
        ]

  -- The loop over the differences between a base and side 2 ends if the three-way merge of the
  -- values under each name does, and its tree has the merged value under every name.
  merge_loop-merged_value :
      (side1 base side2 : Tree) (result : RepoPathComponent → Option TreeValue)
      → IsSorted side1.contents.entries
      → IsSorted base.contents.entries
      → IsSorted side2.contents.entries
      → ((n : RepoPathComponent)
          → merged_value n
              (Backend.value base.contents n)
              (Backend.value side1.contents n)
              (Backend.value side2.contents n)
            ≡ ok (result n))
      → (new_tree : Backend.Tree) × (merge_loop store merge merge_trees dir side1 side1.contents
            (diff_entries base side2)
          ≡ ok new_tree)
        × ((n : RepoPathComponent) → Backend.value new_tree n ≡ result n)
  unfolding diff_entries Backend.value
  merge_loop-merged_value side1 base side2 result s1 s0 s2 h =
      let e0 = base.contents.entries in
      let e2 = side2.contents.entries in
      let ends =
        loop-Ends side1 result side1.contents (diff_loop e0 e2) s1 (λ n. inl refl)
          (diff_loop-AllDiffs (Resolves side1 result) e0 e2 s0 s2 (λ n before after p q ne.
            rw (sym p, sym q)
              (merged_changed n (BTree.get e0 n) (Backend.value side1.contents n) (BTree.get e2 n)
                (result n) (h n) (λ e. ne (sym p ∙ e ∙ q))))) in
      (
        ends.new_tree,
        ends.ends,
        λ n. elim (ends.values n) [
          | inl q ↦ q
          | inr (q, absent) ↦
              q
              ∙ merged_unchanged n (BTree.get e0 n) (Backend.value side1.contents n)
                  (BTree.get e2 n) (result n) (h n) (sym (find-diff_loop e0 e2 n s0 s2) ∙ absent)
        ],
      )

-- Where the sides and the base are trees of one directory, and no two of them have the same id,
-- `merge_trees` writes one tree: if the three-way merge of the values under each name ends (in which
-- subtrees are merged with one step of fuel less), then the tree has the merged value under every
-- name.
pub merge_trees_writes :
    (store : Store) (merge : List Bytes → List Bytes → MergeResult) (fuel : ℕ)
    (side1 base side2 : Tree) (result : RepoPathComponent → Option TreeValue)
    → IsSorted side1.contents.entries
    → IsSorted base.contents.entries
    → IsSorted side2.contents.entries
    → (side1.dir == base.dir && side2.dir == base.dir) ≡ true
    → (base.id == side1.id) ≡ false
    → (base.id == side2.id || side1.id == side2.id) ≡ false
    → ((n : RepoPathComponent)
        → merged_value store merge
            (merge_trees store merge fuel)
            base.dir
            n
            (Backend.value base.contents n)
            (Backend.value side1.contents n)
            (Backend.value side2.contents n)
          ≡ ok (result n))
    → (new_tree : Backend.Tree) × (merge_trees store merge (suc fuel) side1 base side2
        ≡ store.write_tree base.dir new_tree)
      × ((n : RepoPathComponent) → Backend.value new_tree n ≡ result n)
unfolding merge_trees merge_changed
merge_trees_writes store merge fuel side1 base side2 result s1 s0 s2 dirs changed1 changed2 h =
    let (new_tree, ends, values) =
      merge_loop-merged_value store merge (merge_trees store merge fuel) base.dir side1 base side2
        result s1 s0 s2 h in
    (new_tree, rw (dirs, changed1, changed2, ends, merge_trees, merge_changed) refl, values)
