-- ===== src/Refs/Pairs.antt =====
-- What `find_pair_to_remove` of lib/src/refs.rs finds.
use jj.Prelude.{
  ℕ, suc, ◌+◌, ◌≡◌, refl, ap, sym, ◌∙◌, ◌⊎◌, inl, inr, ◌≢◌, Bool, true, false, Option, none, some,
  List, [], ◌∷◌, arith, Bool-cases, Option-cases, get_elem?, ◌==◌, beq_iff, list_eq, nat_eq, subst,
  some-injective,
}
use jj.Prelude.Sets
use jj.OpStore.{CommitId}
use jj.Refs.{
  Pair, find_remove, find_equal, first_add_is_ancestor, find_base, drop_add, check_pair,
  find_related, find_redundant, find_pair_to_remove,
}

module _ (is_ancestor : CommitId → CommitId → Bool) where
  -- The remove that goes with a redundant add: none if there are no removes, else an ancestor of it.
  abbrev pub BaseOf : List CommitId → CommitId → Option ℕ → Type 0
  BaseOf removes a none = removes ≡ []
  BaseOf removes a (some r) =
      (c : CommitId) × (get_elem? removes r ≡ some c) × (is_ancestor c a ≡ true)

  -- Why an add, with or without a remove, may go.
  pub data Justified (adds removes : List CommitId) (m : Option ℕ) (j : ℕ) : Type 0 where
    cancels :
        (r : ℕ) (a : CommitId)
        → m ≡ some r
        → get_elem? adds j ≡ some a
        → get_elem? removes r ≡ some a
        → Justified adds removes m j
    subsumed :
        (l : ℕ) (a b : CommitId)
        → j ≢ l
        → get_elem? adds j ≡ some a
        → get_elem? adds l ≡ some b
        → (a ≡ b) ⊎ (is_ancestor a b ≡ true)
        → BaseOf removes a m
        → Justified adds removes m j

find_remove_found :
    (a : CommitId) (i : ℕ) (rs : List CommitId) (k : ℕ)
    → find_remove a i rs ≡ some k
    → (r : ℕ) × (k ≡ i + r) × (get_elem? rs r ≡ some a)
unfolding find_remove
find_remove_found a i [] k h = cc
find_remove_found a i (x ∷ rs) k h = elim (Bool-cases (a == x)) [
  | inl e ↦ (0, ground arith, ground (arith, beq_iff a x))
  | inr e ↦ let (r, f, g) = find_remove_found a (suc i) rs k (rw e at h) in (suc r, omega arith, g)
]

find_remove_finds :
    (a : CommitId) (i : ℕ) (rs : List CommitId)
    → find_remove a i rs ≡ none
    → Sets.contains rs a ≡ false
unfolding find_remove
find_remove_finds a i [] h = refl
find_remove_finds a i (x ∷ rs) h =
    ground (arith, find_remove_finds a (suc i) rs, beq_iff a x, beq_iff x a)

find_equal_found :
    (rs : List CommitId) (i : ℕ) (plus : List CommitId) (m : Option ℕ) (k : ℕ)
    → find_equal rs i plus ≡ some (m, k)
    → (j : ℕ) × (r : ℕ) × (a : CommitId) × (k ≡ i + j)
      × (m ≡ some r)
      × (get_elem? plus j ≡ some a)
      × (get_elem? rs r ≡ some a)
unfolding find_equal
find_equal_found rs i [] m k h = cc
find_equal_found rs i (a ∷ plus) m k h = elim (Option-cases (find_remove a 0 rs)) [
  | inl e ↦
      let (j, r, c, f, g, p, q) = find_equal_found rs (suc i) plus m k (rw (e, find_equal) at h) in
      (suc j, r, c, omega arith, g, p, q)
  | inr (n, e) ↦
      let (r, f, g) = find_remove_found a 0 rs n e in
      let found : ◌≡◌ {A = Option Pair} (some (some n, i)) (some (m, k)) =
        rw (e, find_equal) at h in
      (
        0,
        n,
        a,
        ground arith,
        ground arith,
        refl,
        subst (λ t. get_elem? rs t ≡ some a) (omega arith) g,
      )
]

-- Where the first pass finds nothing, no add is among the removes.
pub find_equal_finds :
    (rs : List CommitId) (i : ℕ) (plus : List CommitId)
    → find_equal rs i plus ≡ none
    → (c : CommitId) → Sets.contains plus c ≡ true
    → Sets.contains rs c ≡ false
unfolding find_equal
find_equal_finds rs i [] h c k = cc
find_equal_finds rs i (a ∷ plus) h c k = elim (Option-cases (find_remove a 0 rs)) [
  | inl e ↦ ground (
    arith,
    find_remove_finds a 0 rs e,
    beq_iff a c,
    find_equal_finds rs (suc i) plus (rw (e, find_equal) at h) c,
  )
  | inr (n, e) ↦
      let found : ◌≡◌ {A = Option Pair} (some (some n, i)) none = rw (e, find_equal) at h in cc
]

module _ (is_ancestor : CommitId → CommitId → Bool) where
  find_base_found :
      (a : CommitId) (i : ℕ) (rs : List CommitId) (k : ℕ)
      → find_base is_ancestor a i rs ≡ some k
      → (r : ℕ) × (c : CommitId) × (k ≡ i + r)
        × (get_elem? rs r ≡ some c)
        × (is_ancestor c a ≡ true)
  unfolding find_base
  find_base_found a i [] k h = cc
  find_base_found a i (x ∷ rs) k h = elim (Bool-cases (is_ancestor x a)) [
    | inl e ↦ (0, x, ground arith, refl, e)
    | inr e ↦
        let (r, c, f, g, q) = find_base_found a (suc i) rs k (rw e at h) in
        (suc r, c, omega arith, g, q)
  ]

  drop_add_found :
      (rs : List CommitId) (a : CommitId) (i : ℕ) (m : Option ℕ) (k : ℕ)
      → drop_add is_ancestor rs a i ≡ some (m, k)
      → (k ≡ i) × BaseOf is_ancestor rs a m
  unfolding drop_add
  drop_add_found [] a i none k h = (ground arith, refl)
  drop_add_found [] a i (some r) k h = absurd (ground arith)
  drop_add_found (x ∷ rs) a i m k h = elim (Option-cases (find_base is_ancestor a 0 (x ∷ rs))) [
    | inl e ↦ let found : ◌≡◌ {A = Option Pair} none (some (m, k)) = rw (e, drop_add) at h in cc
    | inr (n, e) ↦
        let found : ◌≡◌ {A = Option Pair} (some (some n, i)) (some (m, k)) =
          rw (e, drop_add) at h in
        let (r, c, f, g, q) = find_base_found a 0 (x ∷ rs) n e in
        let base : BaseOf is_ancestor (x ∷ rs) a (some n) =
          (c, subst (λ t. get_elem? (x ∷ rs) t ≡ some c) (omega arith) g, q) in
        let same : ◌≡◌ {A = Pair} (some n, i) (m, k) = some-injective _ _ found in
        (
          sym (ap (λ (t : Pair). t.1) same),
          subst (BaseOf is_ancestor (x ∷ rs) a) (ap (λ (t : Pair). t.0) same) base,
        )
  ]

  -- One of the two adds may go, since it is equal to the other or an ancestor of it.
  Either : List CommitId → CommitId → ℕ → CommitId → ℕ → Option ℕ → ℕ → Type 0
  Either rs a i b j m k =
      ((k ≡ i) × ((a ≡ b) ⊎ (is_ancestor a b ≡ true)) × BaseOf is_ancestor rs a m)
      ⊎ ((k ≡ j) × (is_ancestor b a ≡ true) × BaseOf is_ancestor rs b m)

  check_pair_found :
      (rs : List CommitId) (a : CommitId) (i : ℕ) (b : CommitId) (j : ℕ) (m : Option ℕ) (k : ℕ)
      → check_pair is_ancestor rs a i b j ≡ some (m, k)
      → Either rs a i b j m k
  unfolding check_pair first_add_is_ancestor Either
  check_pair_found rs a i b j m k h = elim (Bool-cases (a == b)) [
    | inl e ↦
        let (f, base) =
          drop_add_found rs a i m k (rw (e, check_pair, first_add_is_ancestor) at h) in
        inl (f, inl ((beq_iff a b).0 e), base)
    | inr e ↦ elim (Bool-cases (is_ancestor a b)) [
      | inl e2 ↦
          let (f, base) =
            drop_add_found rs a i m k (rw (e, e2, check_pair, first_add_is_ancestor) at h) in
          inl (f, inr e2, base)
      | inr e2 ↦ elim (Bool-cases (is_ancestor b a)) [
        | inl e3 ↦
            let (f, base) =
              drop_add_found rs b j m k (rw (e, e2, e3, check_pair, first_add_is_ancestor) at h) in
            inr (f, e3, base)
        | inr e3 ↦
            let found : ◌≡◌ {A = Option Pair} none (some (m, k)) =
              rw (e, e2, e3, check_pair, first_add_is_ancestor) at h in
            cc
      ]
    ]
  ]

  find_related_found :
      (rs : List CommitId) (a : CommitId) (i j : ℕ) (plus : List CommitId) (m : Option ℕ) (k : ℕ)
      → find_related is_ancestor rs a i j plus ≡ some (m, k)
      → (l : ℕ) × (b : CommitId) × (get_elem? plus l ≡ some b) × Either rs a i b (j + l) m k
  unfolding find_related
  find_related_found rs a i j [] m k h = cc
  find_related_found rs a i j (b ∷ plus) m k h =
      elim (Option-cases (check_pair is_ancestor rs a i b j)) [
        | inl e ↦
            let (l, c, g, q) =
              find_related_found rs a i (suc j) plus m k (rw (e, find_related) at h) in
            (suc l, c, g, subst (λ t. Either rs a i c t m k) (omega arith) q)
        | inr (p, e) ↦
            let found : some p ≡ some (m, k) = rw (e, find_related) at h in
            (
              0,
              b,
              refl,
              subst (λ t. Either rs a i b t m k) (omega arith)
                  (check_pair_found rs a i b j m k (e ∙ found)),
            )
      ]

  -- An add at one place that another add at another place makes redundant.
  Redundant : List CommitId → ℕ → List CommitId → Option ℕ → ℕ → Type 0
  Redundant rs i plus m k =
      (j : ℕ) × (l : ℕ) × (a : CommitId) × (b : CommitId) × (k ≡ i + j)
      × (j ≢ l)
      × (get_elem? plus j ≡ some a)
      × (get_elem? plus l ≡ some b)
      × ((a ≡ b) ⊎ (is_ancestor a b ≡ true))
      × BaseOf is_ancestor rs a m

  Redundant-of_Either :
      (rs : List CommitId) (a : CommitId) (i : ℕ) (plus : List CommitId) (l : ℕ) (b : CommitId)
      (m : Option ℕ) (k : ℕ)
      → get_elem? plus l ≡ some b
      → Either rs a i b (suc i + l) m k
      → Redundant rs i (a ∷ plus) m k
  unfolding Either Redundant
  Redundant-of_Either rs a i plus l b m k g (inl (f, rel, base)) =
      (0, suc l, a, b, omega arith, (omega arith), refl, g, rel, base)
  Redundant-of_Either rs a i plus l b m k g (inr (f, rel, base)) =
      (suc l, 0, b, a, omega arith, (omega arith), g, refl, inr rel, base)

  find_redundant_found :
      (rs : List CommitId) (i : ℕ) (plus : List CommitId) (m : Option ℕ) (k : ℕ)
      → find_redundant is_ancestor rs i plus ≡ some (m, k)
      → Redundant rs i plus m k
  unfolding find_redundant
  find_redundant_found rs i [] m k h = cc
  find_redundant_found rs i (a ∷ plus) m k h =
      elim (Option-cases (find_related is_ancestor rs a i (suc i) plus)) [
        | inl e ↦ shift (find_redundant_found rs (suc i) plus m k (rw (e, find_redundant) at h))
        | inr (p, e) ↦
            let found : some p ≡ some (m, k) = rw (e, find_redundant) at h in
            let (l, b, g, q) = find_related_found rs a i (suc i) plus m k (e ∙ found) in
            Redundant-of_Either rs a i plus l b m k g q
      ]
    where
      shift : Redundant rs (suc i) plus m k → Redundant rs i (a ∷ plus) m k
      shift r =
          unfold Redundant in
          (suc r.0, suc r.1, r.2, r.3, omega arith, λ e. r.5 (omega arith), r.6, r.7, r.8, r.9)

  -- The pair that `find_pair_to_remove` returns may go.
  pub find_pair_to_remove-Justified :
      (adds removes : List CommitId) (m : Option ℕ) (k : ℕ)
      → find_pair_to_remove is_ancestor adds removes ≡ some (m, k)
      → Justified is_ancestor adds removes m k
  unfolding find_pair_to_remove Redundant
  find_pair_to_remove-Justified adds removes m k h =
      elim (Option-cases (find_equal removes 0 adds)) [
        | inl e ↦
            let (j, l, a, b, f, n, g, g', rel, base) =
              find_redundant_found removes 0 adds m k (rw (e, find_pair_to_remove) at h) in
            subst (Justified is_ancestor adds removes m) (omega arith)
              (subsumed l a b n g g' rel base)
        | inr (p, e) ↦
            let found : some p ≡ some (m, k) = rw (e, find_pair_to_remove) at h in
            let (j, r, a, f, g, x, y) = find_equal_found removes 0 adds m k (e ∙ found) in
            subst (Justified is_ancestor adds removes m) (omega arith) (cancels r a g x y)
      ]

  -- Where nothing is found, no add is among the removes.
  pub find_pair_to_remove-none :
      (adds removes : List CommitId)
      → find_pair_to_remove is_ancestor adds removes ≡ none
      → (c : CommitId) → Sets.contains adds c ≡ true
      → Sets.contains removes c ≡ false
  unfolding find_pair_to_remove
  find_pair_to_remove-none adds removes h = elim (Option-cases (find_equal removes 0 adds)) [
    | inl e ↦ find_equal_finds removes 0 adds e
    | inr (p, e) ↦ let found : some p ≡ none = rw (e, find_pair_to_remove) at h in cc
  ]
