-- ===== src/Tree/DiffEntries.antt =====
-- `diff_entries` of lib/src/tree.rs lists exactly the names whose values differ, in order.
use jj.Prelude.{
  ◌≡◌, refl, inl, inr, Bool, true, false, not, Option, none, some, List, [], ◌∷◌, arith,
  if◌then◌else◌, Bool-cases, ◌==◌, beq_iff, ne_of_beq, option_eq, ◌≢◌,
}
use Prim.Native.Nat.Ordering.{lt, eq, gt}
use jj.Prelude.Order.{Ordering-cases}
use jj.Prelude.BTree
use jj.Prelude.BTree.{BTree, IsSorted, IsBelow, IsBelow-trans}
use jj.RepoPath.{RepoPathComponent, component_eq}
use jj.Backend.{TreeValue, value_eq, component_ord}
use jj.Tree.{EntryDiff, diff_loop}

-- The values before and after under a name.
abbrev pub find : List EntryDiff → RepoPathComponent → Option (Option TreeValue × Option TreeValue)
find [] n = none
find ((m, before, after) ∷ diffs) n = if m == n then some (before, after) else find diffs n

abbrev pub changed :
    Option TreeValue → Option TreeValue → Option (Option TreeValue × Option TreeValue)
changed before after = if before == after then none else some (before, after)

abbrev Entries : Type 0
Entries = BTree RepoPathComponent TreeValue

module _ (n k : RepoPathComponent) where
  -- The Boolean test and the comparison agree.
  beq_cmp : (k == n) ≡ elim (component_ord.cmp n k) [ eq ↦ true | _ ↦ false ]
  beq_cmp = ground (arith, beq_iff k n, component_ord.eq_of_cmp n k, component_ord.cmp_refl n)

get-nil : (n : RepoPathComponent) → BTree.get {V = TreeValue} [] n ≡ none
unfolding BTree.get
get-nil n = refl

-- A name below the first one is not found.
get_low :
    (n j : RepoPathComponent) (w : TreeValue) (fs : Entries)
    → component_ord.cmp n j ≡ lt
    → BTree.get ((j, w) ∷ fs) n ≡ none
unfolding BTree.get
get_low n j w fs h = rw (h, BTree.get)

module _ (k j : RepoPathComponent) (v w : TreeValue) (es fs : Entries) where
  -- The three cases of two entries that are not the last ones.
  removed_first :
      component_ord.cmp k j ≡ lt
      → diff_loop ((k, v) ∷ es) ((j, w) ∷ fs) ≡ (k, some v, none) ∷ diff_loop es ((j, w) ∷ fs)
  unfolding diff_loop
  removed_first e = rw (e, diff_loop)

  added_first :
      component_ord.cmp k j ≡ gt
      → diff_loop ((k, v) ∷ es) ((j, w) ∷ fs) ≡ (j, none, some w) ∷ diff_loop ((k, v) ∷ es) fs
  unfolding diff_loop
  added_first e = rw (e, diff_loop)

  both_first :
      component_ord.cmp k j ≡ eq
      → diff_loop ((k, v) ∷ es) ((j, w) ∷ fs)
        ≡ (if not (v == w) then (k, some v, some w) ∷ diff_loop es fs else diff_loop es fs)
  unfolding diff_loop
  both_first e = rw (e, diff_loop)

find-if :
    (n k : RepoPathComponent) (x y : Option TreeValue) (b : Bool) (l : List EntryDiff)
    → find (if b then (k, x, y) ∷ l else l) n
      ≡ (if b then (if k == n then some (x, y) else find l n) else find l n)
find-if n k x y true l = refl
find-if n k x y false l = refl

-- In the differences of two sorted lists of entries, a name has the values before and after, if
-- these differ, and is not listed otherwise.
pub find-diff_loop :
    (es fs : Entries) (n : RepoPathComponent)
    → IsSorted es
    → IsSorted fs
    → find (diff_loop es fs) n ≡ changed (BTree.get es n) (BTree.get fs n)
unfolding diff_loop
find-diff_loop [] [] n s t = simp get-nil
find-diff_loop ((k, v) ∷ es) [] n s t =
    ground (arith, find-diff_loop es [] n, BTree.get-cons k n v es, get-nil n, beq_cmp n k)
find-diff_loop [] ((j, w) ∷ fs) n s t =
    ground (arith, find-diff_loop [] fs n, BTree.get-cons j n w fs, get-nil n, beq_cmp n j)
find-diff_loop ((k, v) ∷ es) ((j, w) ∷ fs) n s t = elim (Ordering-cases (component_ord.cmp k j)) [
  | inl e ↦
      let rest = find-diff_loop es ((j, w) ∷ fs) n s.1 t in
      rw (removed_first k j v w es fs e) (
        ground (
          arith,
          rest,
          BTree.get-cons k n v es s.0,
          get_low n j w fs,
          beq_cmp n k,
          component_ord.eq_of_cmp n k,
        ))
  | inr (inl e) ↦
      let rest = find-diff_loop es fs n s.1 t.1 in
      rw
        (both_first k j v w es fs e, find-if n k (some v) (some w) (not (v == w)) (diff_loop es fs))
        (ground (
          arith,
          rest,
          BTree.get-cons k n v es s.0,
          BTree.get-cons j n w fs t.0,
          BTree.get-IsBelow k es s.0,
          BTree.get-IsBelow j fs t.0,
          beq_cmp n k,
          component_ord.eq_of_cmp k j,
          component_ord.eq_of_cmp n k,
          beq_iff v w,
        ))
  | inr (inr e) ↦
      let rest = find-diff_loop ((k, v) ∷ es) fs n s t.1 in
      rw (added_first k j v w es fs e) (
        ground (
          arith,
          rest,
          BTree.get-cons j n w fs t.0,
          get_low n k v es,
          beq_cmp n j,
          component_ord.eq_of_cmp n j,
          component_ord.lt_of_gt k j,
        ))
]

get_head :
    (k : RepoPathComponent) (v : TreeValue) (es : Entries) → BTree.get ((k, v) ∷ es) k ≡ some v
unfolding BTree.get
get_head k v es = rw (component_ord.cmp_refl k, BTree.get)

module _ (Q : RepoPathComponent → Option TreeValue → Option TreeValue → Type 0) where
  abbrev pub AllDiffs : List EntryDiff → Type 0
  AllDiffs [] = Unit {0}
  AllDiffs ((n, before, after) ∷ diffs) = Q n before after × AllDiffs diffs

  -- What holds of the values under every name where these differ.
  abbrev pub Differing : Entries → Entries → Type 0
  Differing es fs =
      (n : RepoPathComponent) (before after : Option TreeValue)
      → BTree.get es n ≡ before
      → BTree.get fs n ≡ after
      → before ≢ after
      → Q n before after

  module _ (k : RepoPathComponent) (v : TreeValue) (es fs : Entries) (b : IsBelow k es) where
    -- Without its first entry a tree still differs only where it did, if the other lacks that name.
    Differing-left : BTree.get fs k ≡ none → Differing ((k, v) ∷ es) fs → Differing es fs
    Differing-left low h n before after p q ne =
        h n before after
          (ground (
            arith,
            BTree.get-cons k n v es b,
            BTree.get-IsBelow k es b,
            component_ord.eq_of_cmp n k,
          ))
          q ne

    Differing-right : BTree.get fs k ≡ none → Differing fs ((k, v) ∷ es) → Differing fs es
    Differing-right low h n before after p q ne =
        h n before after p
          (ground (
            arith,
            BTree.get-cons k n v es b,
            BTree.get-IsBelow k es b,
            component_ord.eq_of_cmp n k,
          ))
          ne

  Differing-both :
      (k j : RepoPathComponent) (v w : TreeValue) (es fs : Entries)
      → IsBelow k es
      → IsBelow j fs
      → component_ord.cmp k j ≡ eq
      → Differing ((k, v) ∷ es) ((j, w) ∷ fs)
      → Differing es fs
  Differing-both k j v w es fs b c e h n before after p q ne =
      h n before after
        (ground (
          arith,
          BTree.get-cons k n v es b,
          BTree.get-IsBelow k es b,
          BTree.get-IsBelow j fs c,
          component_ord.eq_of_cmp n k,
          component_ord.eq_of_cmp k j,
        ))
        (ground (
          arith,
          BTree.get-cons j n w fs c,
          BTree.get-IsBelow k es b,
          BTree.get-IsBelow j fs c,
          component_ord.eq_of_cmp n j,
          component_ord.eq_of_cmp k j,
        ))
        ne

  AllDiffs-if :
      (k : RepoPathComponent) (v w : TreeValue) (l : List EntryDiff)
      → (v ≢ w → Q k (some v) (some w))
      → AllDiffs l
      → AllDiffs (if not (v == w) then (k, some v, some w) ∷ l else l)
  AllDiffs-if k v w l q a = elim (Bool-cases (v == w)) [
    | inl e ↦ rw e a
    | inr e ↦ rw e (q (ne_of_beq v w e), a)
  ]

  -- Every difference that is listed has the values under its name, which differ.
  pub diff_loop-AllDiffs :
      (es fs : Entries) → IsSorted es → IsSorted fs → Differing es fs → AllDiffs (diff_loop es fs)
  unfolding diff_loop
  diff_loop-AllDiffs [] [] s t h = tt
  diff_loop-AllDiffs ((k, v) ∷ es) [] s t h = (
    h k (some v) none (get_head k v es) (get-nil k) (λ e. cc),
    diff_loop-AllDiffs es [] s.1 t (Differing-left k v es [] s.0 (get-nil k) h),
  )
  diff_loop-AllDiffs [] ((j, w) ∷ fs) s t h = (
    h j none (some w) (get-nil j) (get_head j w fs) (λ e. cc),
    diff_loop-AllDiffs [] fs s t.1 (Differing-right j w fs [] t.0 (get-nil j) h),
  )
  diff_loop-AllDiffs ((k, v) ∷ es) ((j, w) ∷ fs) s t h =
      elim (Ordering-cases (component_ord.cmp k j)) [
        | inl e ↦
            let low = get_low k j w fs e in
            rw (removed_first k j v w es fs e) (
              h k (some v) none (get_head k v es) low (λ e. cc),
              diff_loop-AllDiffs es ((j, w) ∷ fs) s.1 t
                  (Differing-left k v es ((j, w) ∷ fs) s.0 low h),
            )
        | inr (inl e) ↦
            let same = component_ord.eq_of_cmp k j e in
            rw (both_first k j v w es fs e) (
              AllDiffs-if k v w (diff_loop es fs)
                (λ ne.
                  h k (some v) (some w) (get_head k v es) (rw same (get_head j w fs)) (λ e. ne cc))
                (diff_loop-AllDiffs es fs s.1 t.1 (Differing-both k j v w es fs s.0 t.0 e h)))
        | inr (inr e) ↦
            let low = get_low j k v es (component_ord.lt_of_gt k j e) in
            rw (added_first k j v w es fs e) (
              h j none (some w) low (get_head j w fs) (λ e. cc),
              diff_loop-AllDiffs ((k, v) ∷ es) fs s t.1
                  (Differing-right j w fs ((k, v) ∷ es) t.0 low h),
            )
      ]
