-- ===== src/Refs/Merge.antt =====
-- `merge_ref_targets` of lib/src/refs.rs: its loop, and what a merged target holds.
use jj.Prelude.{
  ℕ, zero, suc, ◌≤◌, ◌<◌, ◌≡◌, refl, ap, inl, inr, Bool, true, false, ◌||◌, Option, none, some,
  List, [], ◌∷◌, ◌++◌, arith, Bool-cases, Option-cases, length, length-append, remove_at,
  length-remove_at, lt-length_of_get_elem?, ◌==◌, list_eq, nat_eq, option_eq, some-injective,
}
use jj.Prelude.Sets
use jj.OpStore.{CommitId, RefTarget, normal, conflict, target_eq, adds, removes}
use jj.Refs.{
  find_pair_to_remove, remove_maybe, reduce, target_of_terms, merge_terms, merge_ref_targets,
}
use jj.Refs.Pairs.{
  Justified, cancels, subsumed, find_pair_to_remove-Justified, find_pair_to_remove-none,
}

-- One more add than removes.
abbrev pub IsBalanced : List CommitId → List CommitId → Type 0
IsBalanced plus minus = length plus ≡ suc (length minus)

-- A target that needs no further simplification: a conflict has at least two adds, one more than
-- removes, and no commit on both sides.
abbrev pub IsWellFormed : RefTarget → Type 0
IsWellFormed (normal id) = Unit {0}
IsWellFormed (conflict minus plus) =
    IsBalanced plus minus
    × (2 ≤ length plus)
    × ((c : CommitId) → Sets.contains plus c ≡ true → Sets.contains minus c ≡ false)

abbrev pub Yields : (RefTarget → Type 0) → Option RefTarget → Type 0
Yields P none = ⊥
Yields P (some t) = P t

target_of_terms-IsWellFormed :
    (plus minus : List CommitId)
    → IsBalanced plus minus
    → ((c : CommitId) → Sets.contains plus c ≡ true → Sets.contains minus c ≡ false)
    → Yields IsWellFormed (target_of_terms plus minus)
unfolding target_of_terms
target_of_terms-IsWellFormed [] minus b d = omega arith
target_of_terms-IsWellFormed (a ∷ []) [] b d = tt
target_of_terms-IsWellFormed (a ∷ []) (m ∷ minus) b d = absurd (omega arith)
target_of_terms-IsWellFormed (a ∷ c ∷ plus) minus b d = (b, omega arith, d)

IsBalanced-of_target : (t : RefTarget) → IsWellFormed t → IsBalanced (adds t) (removes t)
unfolding adds removes
IsBalanced-of_target (normal id) w = refl
IsBalanced-of_target (conflict minus plus) w = w.0

IsBalanced-sum :
    (left base right : RefTarget)
    → IsBalanced (adds left) (removes left)
    → IsBalanced (adds base) (removes base)
    → IsBalanced (adds right) (removes right)
    → IsBalanced
        (adds left ++ (removes base ++ adds right))
        (removes left ++ (adds base ++ removes right))
IsBalanced-sum left base right l b r = omega (
  arith,
  length-append (adds left) (removes base ++ adds right),
  length-append (removes base) (adds right),
  length-append (removes left) (adds base ++ removes right),
  length-append (adds base) (removes right),
)

module _ (is_ancestor : CommitId → CommitId → Bool) where
  Justified-lt :
      (plus minus : List CommitId) (m : Option ℕ) (j : ℕ)
      → Justified is_ancestor plus minus m j
      → j < length plus
  Justified-lt plus minus m j (cancels r a e g h) = lt-length_of_get_elem? plus j a g
  Justified-lt plus minus m j (subsumed l a b n g h rel base) = lt-length_of_get_elem? plus j a g

  -- A round removes one add: the fuel, the number of adds, is enough to reach a state in which
  -- there is no pair to remove, and whatever each justified removal keeps holds there.
  pub reduce_rule {ℓ} :
      (P : List CommitId → List CommitId → Type ℓ)
      → ((plus minus : List CommitId) (m : Option ℕ) (j : ℕ)
          → Justified is_ancestor plus minus m j
          → P plus minus
          → P (remove_at j plus) (remove_maybe m minus))
      → (fuel : ℕ) (plus minus : List CommitId) → length plus ≤ fuel
      → P plus minus
      → P (reduce is_ancestor fuel plus minus).0 (reduce is_ancestor fuel plus minus).1
        × (find_pair_to_remove is_ancestor
              (reduce is_ancestor fuel plus minus).0
              (reduce is_ancestor fuel plus minus).1
            ≡ none)
  unfolding reduce
  reduce_rule P keep zero plus minus h p =
      elim (Option-cases (find_pair_to_remove is_ancestor plus minus)) [
        | inl e ↦ (p, e)
        | inr ((m, j), e) ↦ absurd (
            omega (
              arith,
              Justified-lt plus minus m j
                  (find_pair_to_remove-Justified is_ancestor plus minus m j e),
            ))
      ]
  reduce_rule P keep (suc fuel) plus minus h p =
      elim (Option-cases (find_pair_to_remove is_ancestor plus minus)) [
        | inl e ↦ rw (e, reduce) (p, e)
        | inr ((m, j), e) ↦
            let ok = find_pair_to_remove-Justified is_ancestor plus minus m j e in
            rw (e, reduce)
              (reduce_rule P keep fuel (remove_at j plus) (remove_maybe m minus)
                (omega (arith, length-remove_at j plus, Justified-lt plus minus m j ok))
                (keep plus minus m j ok p))
      ]

  keep-IsBalanced :
      (plus minus : List CommitId) (m : Option ℕ) (j : ℕ)
      → Justified is_ancestor plus minus m j
      → IsBalanced plus minus
      → IsBalanced (remove_at j plus) (remove_maybe m minus)
  unfolding remove_maybe
  keep-IsBalanced plus minus none j (cancels r a e g h) b = cc
  keep-IsBalanced plus minus (some r) j (cancels r' a e g h) b =
      let same : r ≡ r' = some-injective _ _ e in
      omega (
        arith,
        length-remove_at j plus,
        lt-length_of_get_elem? plus j a g,
        length-remove_at r minus,
        lt-length_of_get_elem? minus r' a h,
      )
  keep-IsBalanced plus minus none j (subsumed l a c n g h rel base) b = absurd (
      n (
        omega (
          arith,
          lt-length_of_get_elem? plus j a g,
          lt-length_of_get_elem? plus l c h,
          ap length base,
        )))
  keep-IsBalanced plus minus (some r) j (subsumed l a c n g h rel (x, at_r, anc)) b = omega (
    arith,
    length-remove_at j plus,
    lt-length_of_get_elem? plus j a g,
    length-remove_at r minus,
    lt-length_of_get_elem? minus r x at_r,
  )

  merge_terms-IsWellFormed :
      (plus minus : List CommitId)
      → IsBalanced plus minus
      → Yields IsWellFormed (merge_terms is_ancestor plus minus)
  unfolding merge_terms
  merge_terms-IsWellFormed plus minus b =
      let (kept, ends) =
        reduce_rule IsBalanced keep-IsBalanced (length plus) plus minus (omega arith) b in
      let (plus', minus') = reduce is_ancestor (length plus) plus minus in
      target_of_terms-IsWellFormed plus' minus' kept
        (find_pair_to_remove-none is_ancestor plus' minus' ends)

  -- Merging three targets that are present and well formed gives such a target.
  pub merge_ref_targets-IsWellFormed :
      (left base right : RefTarget)
      → IsWellFormed left
      → IsWellFormed base
      → IsWellFormed right
      → Yields IsWellFormed (merge_ref_targets is_ancestor (some left) (some base) (some right))
  unfolding merge_ref_targets
  merge_ref_targets-IsWellFormed left base right l b r =
      elim (Bool-cases (some left == some base || some left == some right)) [
        | inl e ↦ rw e r
        | inr e ↦ elim (Bool-cases (some base == some right)) [
          | inl f ↦ rw (e, f) l
          | inr f ↦
              rw (e, f)
                (merge_terms-IsWellFormed _ _ (
                  IsBalanced-sum left base right (IsBalanced-of_target left l)
                    (IsBalanced-of_target base b) (IsBalanced-of_target right r)))
        ]
      ]
