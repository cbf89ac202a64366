-- ===== src/Diff/ChainTable.antt =====
-- The table of chains that `find_lcs` of lib/src/diff.rs fills.
use jj.Prelude.{
  subst, ℕ, suc, ◌+◌, ◌<◌, ◌≤◌, ◌≡◌, refl, sym, ◌∙◌, ap, ◌⊎◌, inl, inr, List, [], ◌∷◌, some, arith,
  length, get_elem?, set, at-set, at-set_ne, length-set,
}
use jj.Prelude.Outcome.{done, ◌>>=◌}
use jj.Diff.Lcs.{usize_max, ChainEntry, Longest, chain_loop}
use jj.Diff.Chains.{entry, len_at, left_at, IsLinked, AllShort, IsFound, search_back_lem}

abbrev pub previous_at : List ChainEntry → ℕ → ℕ
previous_at chain i = (entry chain i).2

-- The first `n` entries are those of the input: each has the length of a longest chain that ends
-- there, and is linked to the pair before.
pub record IsFilled (input : List ℕ) (chain : List ChainEntry)
    (n global_longest global_longest_right_pos : ℕ) : Type 0 where
  pub sized : length chain ≡ length input
  pub positive : (j : ℕ) → j < n → 1 ≤ len_at chain j
  pub lefts : (j : ℕ) → j < n → get_elem? input j ≡ some (left_at chain j)
  pub upper :
      (i j : ℕ)
      → j < i
      → i < n
      → left_at chain j < left_at chain i
      → len_at chain j + 1 ≤ len_at chain i
  pub linked :
      (i : ℕ) → i < n → IsLinked chain i (left_at chain i) (len_at chain i) (previous_at chain i)
  pub short : AllShort chain n global_longest
  pub top :
      ((global_longest ≡ 0) × (global_longest_right_pos ≡ 0))
      ⊎ ((global_longest_right_pos < n)
          × (len_at chain global_longest_right_pos ≡ global_longest)
          × (2 ≤ global_longest))

below_or_last : (i n : ℕ) → i < suc n → (i < n) ⊎ (i ≡ n)
below_or_last i n h = ground arith

-- Links only look at earlier entries.
IsLinked-agrees :
    (chain chain' : List ChainEntry) (n m left_pos len previous : ℕ)
    → n ≤ m
    → ((j : ℕ) → j < m → entry chain' j ≡ entry chain j)
    → IsLinked chain n left_pos len previous
    → IsLinked chain' n left_pos len previous
IsLinked-agrees chain chain' n m l len p le same (inl h) = inl h
IsLinked-agrees chain chain' n m l len p le same (inr (b, c, d)) =
    let e = same p (omega arith) in
    inr (b, subst (λ x. x.1 < l) (sym e) c, subst (λ x. x.0 + 1 ≡ len) (sym e) d)

module _ (input : List ℕ) (chain chain' : List ChainEntry) (n left_pos : ℕ) (s0 s : Longest)
    (g : IsFilled input chain n s0.global_longest s0.global_longest_right_pos)
    (f : IsFound chain n left_pos s0 s) (same : (j : ℕ) → j < n → entry chain' j ≡ entry chain j)
    (new : entry chain' n ≡ (s.longest_from_here, left_pos, s.previous_right_pos))
    (sized : length chain' ≡ length chain) (here : get_elem? input n ≡ some left_pos) where
  same_len : (j : ℕ) → j < n → len_at chain' j ≡ len_at chain j
  same_len j b = ap (λ e. e.0) (same j b)

  same_left : (j : ℕ) → j < n → left_at chain' j ≡ left_at chain j
  same_left j b = ap (λ e. e.1) (same j b)

  new_len : (i : ℕ) → i ≡ n → len_at chain' i ≡ s.longest_from_here
  new_len i c = ap (len_at chain') c ∙ ap (λ e. e.0) new

  new_left : (i : ℕ) → i ≡ n → left_at chain' i ≡ left_pos
  new_left i c = ap (left_at chain') c ∙ ap (λ e. e.1) new

  new_previous : (i : ℕ) → i ≡ n → previous_at chain' i ≡ s.previous_right_pos
  new_previous i c = ap (previous_at chain') c ∙ ap (λ e. e.2) new

  short-extend : AllShort chain' (suc n) s.global_longest
  short-extend i b = elim (below_or_last i n b) [
    | inl c ↦ elim f.global [
      | inl (e, _, _) ↦ omega (arith, g.short i c, same_len i c)
      | inr (e, _, h, k) ↦ omega (arith, g.short i c, same_len i c)
    ]
    | inr c ↦ elim f.global [
      | inl (e, _, h) ↦ omega (arith, new_len i c)
      | inr (e, _, h, k) ↦ omega (arith, new_len i c)
    ]
  ]

  upper-extend :
      (i j : ℕ)
      → j < i
      → i < suc n
      → left_at chain' j < left_at chain' i
      → len_at chain' j + 1 ≤ len_at chain' i
  upper-extend i j a b h = elim (below_or_last i n b) [
    | inl c ↦
        let k = g.upper i j a c (omega (arith, same_left i c, same_left j (omega arith))) in
        omega (arith, same_len i c, same_len j (omega arith))
    | inr c ↦
        let k = f.upper j (omega arith) (omega (arith, new_left i c, same_left j (omega arith))) in
        omega (arith, new_len i c, same_len j (omega arith))
  ]

  links_extended :
      (i : ℕ)
      → i < suc n
      → IsLinked chain' i (left_at chain' i) (len_at chain' i) (previous_at chain' i)
  links_extended i b = elim (below_or_last i n b) [
    | inl c ↦
        subst (λ e. IsLinked chain' i e.1 e.0 e.2) (sym (same i c))
          (IsLinked-agrees chain chain' i n (left_at chain i) (len_at chain i) (previous_at chain i)
            (omega arith) same (g.linked i c))
    | inr c ↦
        subst (λ m. IsLinked chain' m (left_at chain' m) (len_at chain' m) (previous_at chain' m))
          (sym c)
          (subst (λ e. IsLinked chain' n e.1 e.0 e.2) (sym new)
            (IsLinked-agrees chain chain' n n left_pos s.longest_from_here s.previous_right_pos
              (omega arith) same f.linked))
  ]

  pub IsFilled-extend : IsFilled input chain' (suc n) s.global_longest s.global_longest_right_pos
  IsFilled-extend = record {
    sized = sized ∙ g.sized;
    positive = λ j b. elim (below_or_last j n b) [
      | inl c ↦ omega (arith, same_len j c, g.positive j c)
      | inr c ↦ omega (arith, new_len j c, f.positive)
    ];
    lefts = λ j b. elim (below_or_last j n b) [
      | inl c ↦ g.lefts j c ∙ ap some (sym (same_left j c))
      | inr c ↦ ap (get_elem? input) c ∙ here ∙ ap some (sym (new_left j c))
    ];
    upper = upper-extend;
    linked = links_extended;
    short = short-extend;
    top = elim f.global [
      | inl (e, p, _) ↦ elim g.top [
        | inl (h, k) ↦ inl (e ∙ h, p ∙ k)
        | inr (h, k, m) ↦ inr (
          omega arith,
          ap (len_at chain') p ∙ same_len s0.global_longest_right_pos h ∙ k ∙ sym e,
          omega arith,
        )
      ]
      | inr (e, p, _, k) ↦
          inr (omega arith, new_len s.global_longest_right_pos p ∙ sym e, omega arith)
    ];
  }

-- The outer loop fills the table for the rest of the input.
pub chain_loop_lem :
    (input : List ℕ) (chain : List ChainEntry) (n : ℕ) (rest : List ℕ)
    (global_longest global_longest_right_pos : ℕ)
    → ((k : ℕ) → get_elem? input (n + k) ≡ get_elem? rest k)
    → n + length rest ≡ length input
    → IsFilled input chain n global_longest global_longest_right_pos
    → (chain' : List ChainEntry) × (m : ℕ) × (right_pos : ℕ) × (chain_loop chain n rest
          global_longest global_longest_right_pos
        ≡ done (chain', right_pos))
      × IsFilled input chain' (length input) m right_pos
unfolding chain_loop
chain_loop_lem input chain n [] gl glp same sized g =
    let e : n ≡ length input = omega arith in
    (chain, gl, glp, refl, subst (λ m. IsFilled input chain m gl glp) e g)
chain_loop_lem input chain n (l ∷ rest) gl glp same sized g =
    let s0 : Longest = record {
      longest_from_here = 1;
      previous_right_pos = usize_max;
      global_longest = gl;
      global_longest_right_pos = glp;
    } in
    let small : n < length chain = omega (arith, g.sized) in
    let (s, ends, f) = search_back_lem chain n l s0 (omega arith) g.positive g.short refl refl in
    let new : ChainEntry = (s.longest_from_here, l, s.previous_right_pos) in
    let filled =
      IsFilled-extend input chain (set chain n new) n l s0 s g f
        (λ j b. at-set_ne (0, 0, 0) chain n j new b) (at-set (0, 0, 0) chain n new small)
        (length-set chain n new) (ap (get_elem? input) (omega arith) ∙ same 0) in
    let (chain', m, right_pos, ends', g') =
      chain_loop_lem input (set chain n new) (suc n) rest s.global_longest
        s.global_longest_right_pos (λ k. ap (get_elem? input) (omega arith) ∙ same (suc k))
        (omega arith) filled in
    (chain', m, right_pos, rw (ends, ◌>>=◌) ends', g')
