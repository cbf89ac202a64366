-- ===== src/Diff/LongestChain.antt =====
-- The whole of `find_lcs` of lib/src/diff.rs.
use jj.Prelude.{
  ℕ, zero, suc, ◌+◌, ◌-◌, ◌<◌, ◌≤◌, ◌≡◌, refl, ap, inl, inr, true, false, List, [], ◌∷◌, arith,
  length, get_elem?, get_elem?-at, replicate, length-replicate, lt-length_of_get_elem?, nat_eq,
  ◌==◌, beq_iff, beq_of_ne,
}
use jj.Prelude.Outcome.{done, ◌>>=◌, unwrap}
use jj.Diff.Lcs.{usize_max, ChainEntry, result_loop, find_lcs}
use jj.Diff.Chains.{IsBefore, IsChain, len_at, left_at}
use jj.Diff.ChainTable.{previous_at, IsFilled, chain_loop_lem}

module _ (input : List ℕ) (fits : length input ≤ usize_max) (chain : List ChainEntry)
    (m right_end : ℕ) (g : IsFilled input chain (length input) m right_end) where
  -- Going back from a pair, the loop adds as many pairs as the entry's length says.
  result_loop_lem :
      (fuel right_pos : ℕ) (result : List (ℕ × ℕ))
      → right_pos < fuel
      → right_pos < length input
      → IsBefore (left_at chain right_pos) right_pos result
      → IsChain input result
      → (out : List (ℕ × ℕ)) × (result_loop fuel chain right_pos result ≡ done out)
        × IsChain input out
        × (length out ≡ len_at chain right_pos + length result)
  unfolding result_loop
  result_loop_lem zero r result f b before c = absurd (omega arith)
  result_loop_lem (suc fuel) r result f b before c =
      let found = get_elem?-at (0, 0, 0) chain r (omega (arith, g.sized)) in
      elim (g.linked r b) [
        | inl (e, one) ↦
            let last : (previous_at chain r == usize_max) ≡ true =
              (beq_iff (previous_at chain r) usize_max).1 e in
            (
              (left_at chain r, r) ∷ result,
              rw (result_loop, found, unwrap, ◌>>=◌, last) refl,
              (g.lefts r b, before, c),
              omega arith,
            )
        | inr (p, less, more) ↦
            let inner : (previous_at chain r == usize_max) ≡ false =
              beq_of_ne (previous_at chain r) usize_max (λ e. absurd (omega arith)) in
            let (out, ends, ok, sized) =
              result_loop_lem fuel (previous_at chain r) ((left_at chain r, r) ∷ result)
                (omega arith) (omega arith) (less, p) (g.lefts r b, before, c) in
            (out, rw (result_loop, found, unwrap, ◌>>=◌, inner) ends, ok, omega arith)
      ]

  -- The entry of the first pair of a chain is short enough for all that follows it.
  chain_room :
      (l r : ℕ) (rest : List (ℕ × ℕ))
      → IsChain input ((l, r) ∷ rest)
      → len_at chain r + length rest ≤ 1 + (m - 1)
  chain_room l r [] (i, _, _) =
      let b = lt-length_of_get_elem? input r l i in omega (arith, g.short r b)
  chain_room l r ((l', r') ∷ rest) (i, (a, b), (i', before', c)) =
      let bound = lt-length_of_get_elem? input r l i in
      let bound' = lt-length_of_get_elem? input r' l' i' in
      let e : left_at chain r ≡ l = cc (g.lefts r bound, i) in
      let e' : left_at chain r' ≡ l' = cc (g.lefts r' bound', i') in
      omega (arith, g.upper r' r b bound' (omega arith), chain_room l' r' rest (i', before', c))

  all_shorter : (other : List (ℕ × ℕ)) → IsChain input other → length other ≤ 1 + (m - 1)
  all_shorter [] c = omega arith
  all_shorter ((l, r) ∷ rest) c =
      let bound = lt-length_of_get_elem? input r l c.0 in
      omega (arith, chain_room l r rest c, g.positive r bound)

  -- Where the longest chain ends.
  len_at_end :
      0 < length input → (right_end < length input) × (1 + (m - 1) ≤ len_at chain right_end)
  len_at_end some_input = elim g.top [
    | inl (a, b) ↦ (omega arith, omega (arith, g.positive right_end (omega arith)))
    | inr (a, b, c) ↦ (a, omega arith)
  ]

IsFilled-start : (input : List ℕ) → IsFilled input (replicate (length input) (0, 0, 0)) 0 0 0
IsFilled-start input = record {
  sized = length-replicate (length input) (0, 0, 0);
  positive = λ j b. absurd (omega arith);
  lefts = λ j b. absurd (omega arith);
  upper = λ i j a b h. absurd (omega arith);
  linked = λ i b. absurd (omega arith);
  short = λ i b. absurd (omega arith);
  top = inl (refl, refl);
}

-- A chain of the input that no other is longer than.
abbrev pub IsLongestChain : List ℕ → List (ℕ × ℕ) → Type 0
IsLongestChain input result =
    IsChain input result
    × ((other : List (ℕ × ℕ)) → IsChain input other → length other ≤ length result)

no_chain : (other : List (ℕ × ℕ)) → IsChain [] other → length other ≤ 0
no_chain [] c = omega arith
no_chain ((l, r) ∷ rest) (i, _, _) = cc

-- `find_lcs` of an input of at most `usize::MAX` numbers neither panics nor runs out of fuel. It
-- returns pairs of a number of the input with its position, both increasing, and no other such list
-- is longer.
pub find_lcs_lem :
    (input : List ℕ)
    → length input ≤ usize_max
    → (result : List (ℕ × ℕ)) × (find_lcs input ≡ done result) × IsLongestChain input result
unfolding find_lcs
find_lcs_lem [] fits = ([], refl, (tt, no_chain))
find_lcs_lem (l ∷ rest) fits =
    let input = l ∷ rest in
    let (chain, m, right_pos, ends, g) =
      chain_loop_lem input (replicate (length input) (0, 0, 0)) 0 input 0 0
        (λ k. ap (get_elem? input) (omega arith)) (omega arith) (IsFilled-start input) in
    let (b, long) = len_at_end input fits chain m right_pos g (omega arith) in
    let (out, ends', ok, sized) =
      result_loop_lem input fits chain m right_pos g (suc (length rest)) right_pos [] b b tt tt in
    (
      out,
      rw (ends, ◌>>=◌) ends',
      (ok, λ other c. omega (arith, all_shorter input fits chain m right_pos g other c)),
    )
