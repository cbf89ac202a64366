-- ===== src/Diff/Chains.antt =====
-- The chains that `find_lcs` of lib/src/diff.rs looks for, and what its inner loop finds.
use jj.Prelude.{
  subst, ℕ, zero, suc, ◌+◌, ◌-◌, ◌<◌, ◌≤◌, ◌≡◌, refl, sym, ◌⊎◌, inl, inr, ◌&&◌, List, [], ◌∷◌, some,
  arith, Bool-cases, ltb, length, get_elem?, at, get_elem?-at,
}
use jj.Prelude.Outcome.{done, ◌>>=◌, unwrap}
use jj.Diff.Lcs.{usize_max, ChainEntry, Longest, search_back}

-- A left and a right position come before those of the next pair.
abbrev pub IsBefore : ℕ → ℕ → List (ℕ × ℕ) → Type 0
IsBefore left_pos right_pos [] = Unit
IsBefore left_pos right_pos ((l, r) ∷ chain) = (left_pos < l) × (right_pos < r)

-- Pairs of the input in which both positions increase.
abbrev pub IsChain : List ℕ → List (ℕ × ℕ) → Type 0
IsChain input [] = Unit
IsChain input ((l, r) ∷ chain) =
    (get_elem? input r ≡ some l) × IsBefore l r chain × IsChain input chain

abbrev pub entry : List ChainEntry → ℕ → ChainEntry
entry chain i = at (0, 0, 0) chain i

abbrev pub len_at : List ChainEntry → ℕ → ℕ
len_at chain i = (entry chain i).0

abbrev pub left_at : List ChainEntry → ℕ → ℕ
left_at chain i = (entry chain i).1

-- Where a length comes from: nothing, or an earlier entry.
abbrev pub IsLinked : List ChainEntry → ℕ → ℕ → ℕ → ℕ → Type 0
IsLinked chain n left_pos len previous =
    ((previous ≡ usize_max) × (len ≡ 1))
    ⊎ ((previous < n) × (left_at chain previous < left_pos) × (len_at chain previous + 1 ≡ len))

-- No length is greater than the longest.
abbrev pub AllShort : List ChainEntry → ℕ → ℕ → Type 0
AllShort chain n global_longest = (i : ℕ) → i < n → len_at chain i ≤ 1 + (global_longest - 1)

-- What the inner loop gives at an entry that is to be the `n`-th.
pub record IsFound (chain : List ChainEntry) (n left_pos : ℕ) (s0 s : Longest) : Type 0 where
  pub positive : 1 ≤ s.longest_from_here
  pub upper :
      (j : ℕ) → j < n → left_at chain j < left_pos → len_at chain j + 1 ≤ s.longest_from_here
  pub linked : IsLinked chain n left_pos s.longest_from_here s.previous_right_pos
  pub global :
      ((s.global_longest ≡ s0.global_longest)
        × (s.global_longest_right_pos ≡ s0.global_longest_right_pos)
        × (s.longest_from_here ≤ 1 + (s0.global_longest - 1)))
      ⊎ ((s.global_longest ≡ s.longest_from_here)
          × (s.global_longest_right_pos ≡ n)
          × (s0.global_longest < s.longest_from_here)
          × (2 ≤ s.longest_from_here))

-- What holds before the round for `i - 1`.
record Searched (chain : List ChainEntry) (n left_pos i : ℕ) (s0 s : Longest) : Type 0 where
  positive : 1 ≤ s.longest_from_here
  upper :
      (j : ℕ)
      → i ≤ j
      → j < n
      → left_at chain j < left_pos
      → len_at chain j + 1 ≤ s.longest_from_here
  linked : IsLinked chain n left_pos s.longest_from_here s.previous_right_pos
  same : s.global_longest ≡ s0.global_longest
  same_pos : s.global_longest_right_pos ≡ s0.global_longest_right_pos
  short : s.longest_from_here ≤ 1 + (s0.global_longest - 1)

equal_or_above : (i j : ℕ) → i ≤ j → (i ≡ j) ⊎ (suc i ≤ j)
equal_or_above i j h = ground arith

module _ (chain : List ChainEntry) (n left_pos : ℕ) (s0 : Longest) (long : n ≤ length chain)
    (lens : (j : ℕ) → j < n → 1 ≤ len_at chain j) (short : AllShort chain n s0.global_longest) where
  -- The entry is not a longer chain that the new one can go on from.
  Searched-skip :
      (i : ℕ) (s : Longest)
      → Searched chain n left_pos (suc i) s0 s
      → (left_at chain i < left_pos → len_at chain i + 1 ≤ s.longest_from_here)
      → Searched chain n left_pos i s0 s
  Searched-skip i s h k = record {
    positive = h.positive;
    upper = λ j a b c. elim (equal_or_above i j a) [
      | inl e ↦
          let m : len_at chain i + 1 ≤ s.longest_from_here =
            k (subst (λ z. left_at chain z < left_pos) (sym e) c) in
          subst (λ z. len_at chain z + 1 ≤ s.longest_from_here) e m
      | inr e ↦ h.upper j e b c
    ];
    linked = h.linked;
    same = h.same;
    same_pos = h.same_pos;
    short = h.short;
  }

  -- The new entry goes on from this one.
  Searched-longer :
      (i : ℕ) (s : Longest)
      → i < n
      → Searched chain n left_pos (suc i) s0 s
      → left_at chain i < left_pos
      → s.longest_from_here < len_at chain i + 1
      → len_at chain i + 1 ≤ s.global_longest
      → Searched chain n left_pos i s0
          (record s { longest_from_here = len_at chain i + 1; previous_right_pos = i })
  Searched-longer i s b h l m u = record {
    positive = omega arith;
    upper = λ j a c d. elim (equal_or_above i j a) [
      | inl e ↦ subst (λ z. len_at chain z + 1 ≤ len_at chain i + 1) e (omega arith)
      | inr e ↦ let k = h.upper j e c d in omega arith
    ];
    linked = inr (b, l, refl);
    same = h.same;
    same_pos = h.same_pos;
    short = omega (arith, h.same);
  }

  -- The new entry ends a chain longer than all others.
  IsFound-longest :
      (i : ℕ) (s : Longest)
      → i < n
      → Searched chain n left_pos (suc i) s0 s
      → left_at chain i < left_pos
      → s.global_longest < len_at chain i + 1
      → IsFound chain n left_pos s0 (record {
        longest_from_here = len_at chain i + 1;
        previous_right_pos = i;
        global_longest = len_at chain i + 1;
        global_longest_right_pos = n;
      })
  IsFound-longest i s b h l u = record {
    positive = omega arith;
    upper = λ j c d. let k = short j c in let one = lens i b in omega (arith, h.same);
    linked = inr (b, l, refl);
    global = inr (refl, refl, omega (arith, h.same), omega (arith, lens i b));
  }

  search_back-loop :
      (i : ℕ) (s : Longest)
      → i ≤ n
      → Searched chain n left_pos i s0 s
      → (s' : Longest) × (search_back chain left_pos n i s ≡ done s')
        × IsFound chain n left_pos s0 s'
  unfolding search_back
  search_back-loop zero s b h = (
    s,
    refl,
    record {
      positive = h.positive;
      upper = λ j k l. h.upper j (omega arith) k l;
      linked = h.linked;
      global = inl (h.same, h.same_pos, h.short);
    },
  )
  search_back-loop (suc i) s b h =
      let found = get_elem?-at (0, 0, 0) chain i (omega arith) in
      elim (Bool-cases
        (ltb (left_at chain i) left_pos && ltb s.longest_from_here (len_at chain i + 1))) [
          | inl t ↦ elim (Bool-cases (ltb s.global_longest (len_at chain i + 1))) [
            | inl u ↦ (
              _,
              rw (search_back, found, unwrap, ◌>>=◌, t, u) refl,
              IsFound-longest i s (omega arith) h (ground arith) (ground arith),
            )
            | inr u ↦
                let (s', ends, r) =
                  search_back-loop i
                    (record s { longest_from_here = len_at chain i + 1; previous_right_pos = i })
                    (omega arith)
                    (Searched-longer i s (omega arith) h (ground arith) (ground arith)
                      (ground arith)) in
                (s', rw (search_back, found, unwrap, ◌>>=◌, t, u) ends, r)
          ]
          | inr t ↦
              let (s', ends, r) =
                search_back-loop i s (omega arith) (Searched-skip i s h (ground arith)) in
              (s', rw (search_back, found, unwrap, ◌>>=◌, t) ends, r)
        ]

  pub search_back_lem :
      s0.longest_from_here ≡ 1
      → s0.previous_right_pos ≡ usize_max
      → (s : Longest) × (search_back chain left_pos n n s0 ≡ done s) × IsFound chain n left_pos s0 s
  search_back_lem one none_before = search_back-loop n s0 (omega arith) (record {
    positive = omega (arith, one);
    upper = λ j a b c. absurd (omega arith);
    linked = inl (none_before, one);
    same = refl;
    same_pos = refl;
    short = omega (arith, one);
  })
