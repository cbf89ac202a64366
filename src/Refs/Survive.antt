-- ===== src/Refs/Survive.antt =====
-- No commit is lost by `merge_ref_targets` of lib/src/refs.rs.
use jj.Prelude.{
  ℕ, ◌≡◌, refl, sym, ◌∙◌, ◌⊎◌, inl, inr, Bool, true, Option, none, some, List, [], ◌∷◌, ◌++◌, arith,
  Bool-cases, length, get_elem?, remove_at, ◌==◌, eq_of_beq, list_eq, nat_eq, option_eq, subst,
  some-injective,
}
use jj.Prelude.Sets
use jj.OpStore.{CommitId, RefTarget, target_eq, adds}
use jj.Refs.{
  remove_maybe, reduce, adds_of, removes_of, target_of_terms, merge_terms, merge_ref_targets,
}
use jj.Refs.Pairs.{Justified, cancels, subsumed}
use jj.Refs.Merge.{reduce_rule}

module _ (is_ancestor : CommitId → CommitId → Bool)
    (trans : (a b c : CommitId)
      → is_ancestor a b ≡ true
      → is_ancestor b c ≡ true
      → is_ancestor a c ≡ true) where
  -- Some commit of the list is the given one or a descendant of it.
  abbrev pub IsCovered : CommitId → List CommitId → Type 0
  IsCovered c list =
      (d : CommitId) × (Sets.contains list d ≡ true) × ((c ≡ d) ⊎ (is_ancestor c d ≡ true))

  below_trans :
      (c a b : CommitId)
      → (c ≡ a) ⊎ (is_ancestor c a ≡ true)
      → (a ≡ b) ⊎ (is_ancestor a b ≡ true)
      → (c ≡ b) ⊎ (is_ancestor c b ≡ true)
  below_trans c a b (inl e) (inl f) = inl (e ∙ f)
  below_trans c a b (inl e) (inr g) = inr (subst (λ x. is_ancestor x b ≡ true) (sym e) g)
  below_trans c a b (inr g) (inl f) = inr (subst (λ x. is_ancestor c x ≡ true) f g)
  below_trans c a b (inr g) (inr h) = inr (trans c a b g h)

  module _ (plus0 minus0 : List CommitId) where
    record Keeps (plus minus : List CommitId) : Type 0 where
      covered :
          (c : CommitId) → Sets.contains plus0 c ≡ true → IsCovered c plus ⊎ IsCovered c minus0
      old : (r : CommitId) → Sets.contains minus r ≡ true → Sets.contains minus0 r ≡ true

    remove_maybe-old :
        (m : Option ℕ) (minus : List CommitId)
        → ((r : CommitId) → Sets.contains minus r ≡ true → Sets.contains minus0 r ≡ true)
        → (r : CommitId) → Sets.contains (remove_maybe m minus) r ≡ true
        → Sets.contains minus0 r ≡ true
    unfolding remove_maybe
    remove_maybe-old none minus old r h = old r h
    remove_maybe-old (some i) minus old r h = old r (Sets.contains-remove_at minus i r h)

    -- The add that goes was cancelled by a remove, or has a descendant that stays.
    gone :
        (plus minus : List CommitId) (m : Option ℕ) (j : ℕ)
        → Justified is_ancestor plus minus m j
        → ((r : CommitId) → Sets.contains minus r ≡ true → Sets.contains minus0 r ≡ true)
        → (c d : CommitId) → get_elem? plus j ≡ some d
        → (c ≡ d) ⊎ (is_ancestor c d ≡ true)
        → IsCovered c (remove_at j plus) ⊎ IsCovered c minus0
    gone plus minus m j (cancels r a e g h) old c d at_j below =
        let same : a ≡ d = some-injective _ _ (sym g ∙ at_j) in
        inr
          (a, old a (Sets.contains-get_elem? minus r a h), below_trans c d a below (inl (sym same)))
    gone plus minus m j (subsumed l a b n g h rel base) old c d at_j below =
        let same : a ≡ d = some-injective _ _ (sym g ∙ at_j) in
        inl (
          b,
          Sets.contains-remove_at_ne plus j l b n h,
          below_trans c a b (below_trans c d a below (inl (sym same))) rel,
        )

    keep-Keeps :
        (plus minus : List CommitId) (m : Option ℕ) (j : ℕ)
        → Justified is_ancestor plus minus m j
        → Keeps plus minus
        → Keeps (remove_at j plus) (remove_maybe m minus)
    keep-Keeps plus minus m j why k = record {
      covered = λ c there. elim (k.covered c there) [
        | inr by_old ↦ inr by_old
        | inl (d, in_plus, below) ↦ elim (Sets.contains-remove_at_cases plus j d in_plus) [
          | inl at_j ↦ gone plus minus m j why k.old c d at_j below
          | inr stays ↦ inl (d, stays, below)
        ]
      ];
      old = remove_maybe-old m minus k.old;
    }

    reduce-Keeps :
        (c : CommitId)
        → Sets.contains plus0 c ≡ true
        → IsCovered c (reduce is_ancestor (length plus0) plus0 minus0).0 ⊎ IsCovered c minus0
    reduce-Keeps c there =
        let start : Keeps plus0 minus0 = record {
          covered = λ c h. inl (c, h, inl refl);
          old = λ r h. h;
        } in
        let (kept, _) =
          reduce_rule is_ancestor Keeps keep-Keeps (length plus0) plus0 minus0 (omega arith)
            start in
        kept.covered c there

  adds_of-target_of_terms :
      (plus minus : List CommitId) → adds_of (target_of_terms plus minus) ≡ plus
  unfolding target_of_terms adds
  adds_of-target_of_terms [] minus = refl
  adds_of-target_of_terms (a ∷ []) [] = refl
  adds_of-target_of_terms (a ∷ []) (m ∷ minus) = refl
  adds_of-target_of_terms (a ∷ b ∷ plus) minus = refl

  -- The commits whose removal the three inputs ask for.
  abbrev pub removed : Option RefTarget → Option RefTarget → Option RefTarget → List CommitId
  removed left base right = removes_of left ++ (adds_of base ++ removes_of right)

  merge_terms-covers :
      (plus minus : List CommitId) (c : CommitId)
      → Sets.contains plus c ≡ true
      → IsCovered c (adds_of (merge_terms is_ancestor plus minus)) ⊎ IsCovered c minus
  unfolding merge_terms
  merge_terms-covers plus minus c there =
      let (plus', minus') = reduce is_ancestor (length plus) plus minus in
      elim (reduce-Keeps plus minus c there) [
        | inl k ↦ inl (subst (IsCovered c) (sym (adds_of-target_of_terms plus' minus')) k)
        | inr k ↦ inr k
      ]

  -- A commit that either side pointed to is still one that the merged target points to, or an
  -- ancestor of one, unless the base pointed to it or one of the sides removed it, or such a
  -- commit is a descendant of it.
  pub merge_ref_targets_covers :
      (left base right : Option RefTarget) (c : CommitId)
      → (Sets.contains (adds_of left) c ≡ true) ⊎ (Sets.contains (adds_of right) c ≡ true)
      → IsCovered c (adds_of (merge_ref_targets is_ancestor left base right))
        ⊎ IsCovered c (removed left base right)
  unfolding merge_ref_targets
  merge_ref_targets_covers left base right c side = elim (Bool-cases (left == base)) [
    | inl e ↦ rw e (unchanged_left (eq_of_beq left base e) side)
    | inr e ↦ elim (Bool-cases (left == right)) [
      | inl f ↦ rw (e, f) (same_sides (eq_of_beq left right f) side)
      | inr f ↦ elim (Bool-cases (base == right)) [
        | inl g ↦ rw (e, f, g) (unchanged_right (eq_of_beq base right g) side)
        | inr g ↦ rw (e, f, g) (merge_terms-covers _ _ c (in_plus side))
      ]
    ]
  ]
    where
      in_base : Sets.contains (adds_of base) c ≡ true → IsCovered c (removed left base right)
      in_base h = (c, simp Sets.contains-append (ground (arith, h)), inl refl)

      unchanged_left :
          left ≡ base
          → (Sets.contains (adds_of left) c ≡ true) ⊎ (Sets.contains (adds_of right) c ≡ true)
          → IsCovered c (adds_of right) ⊎ IsCovered c (removed left base right)
      unchanged_left e (inl h) = inr (in_base (subst (λ t. Sets.contains (adds_of t) c ≡ true) e h))
      unchanged_left e (inr h) = inl (c, h, inl refl)

      same_sides :
          left ≡ right
          → (Sets.contains (adds_of left) c ≡ true) ⊎ (Sets.contains (adds_of right) c ≡ true)
          → IsCovered c (adds_of right) ⊎ IsCovered c (removed left base right)
      same_sides e (inl h) = inl (c, subst (λ t. Sets.contains (adds_of t) c ≡ true) e h, inl refl)
      same_sides e (inr h) = inl (c, h, inl refl)

      unchanged_right :
          base ≡ right
          → (Sets.contains (adds_of left) c ≡ true) ⊎ (Sets.contains (adds_of right) c ≡ true)
          → IsCovered c (adds_of left) ⊎ IsCovered c (removed left base right)
      unchanged_right e (inl h) = inl (c, h, inl refl)
      unchanged_right e (inr h) =
          inr (in_base (subst (λ t. Sets.contains (adds_of t) c ≡ true) (sym e) h))

      in_plus :
          (Sets.contains (adds_of left) c ≡ true) ⊎ (Sets.contains (adds_of right) c ≡ true)
          → Sets.contains (adds_of left ++ (removes_of base ++ adds_of right)) c ≡ true
      in_plus h = simp Sets.contains-append (ground (arith, h))
