-- ===== src/Diff/Lcs.antt =====
-- `find_lcs` of lib/src/diff.rs.
use jj.Prelude.{
  ℕ, zero, suc, ◌+◌, ◌-◌, ◌^◌, true, false, ◌&&◌, List, [], ◌∷◌, ltb, length, get_elem?, set,
  replicate, nat_eq, ◌==◌,
}
use jj.Prelude.Outcome.{Outcome, done, out_of_fuel, ◌>>=◌, unwrap}

-- `usize::MAX`
abbrev pub usize_max : ℕ
usize_max = 2 ^ 64 - 1

-- The longest length of a chain that ends here, the left position, and the right position before.
abbrev pub ChainEntry : Type 0
ChainEntry = ℕ × ℕ × ℕ

-- The variables that the inner loop changes.
pub record Longest : Type 0 where
  pub longest_from_here : ℕ
  pub previous_right_pos : ℕ
  pub global_longest : ℕ
  pub global_longest_right_pos : ℕ

-- The inner loop, `for i in (0..right_pos).rev()`.
unfoldable pub search_back : List ChainEntry → ℕ → ℕ → ℕ → Longest → Outcome Longest
search_back chain left_pos right_pos zero s = done s
search_back chain left_pos right_pos (suc i) s =
    unwrap (get_elem? chain i) >>= λ (previous_len, previous_left_pos, _).
    let len = previous_len + 1 in
    elim (ltb previous_left_pos left_pos && ltb s.longest_from_here len) [
      | false ↦ search_back chain left_pos right_pos i s
      | true ↦ elim (ltb s.global_longest len) [
        | true ↦ done (record {
          longest_from_here = len;
          previous_right_pos = i;
          global_longest = len;
          global_longest_right_pos = right_pos;
        })
        | false ↦
            search_back chain left_pos right_pos i
              (record s { longest_from_here = len; previous_right_pos = i })
      ]
    ]

-- The outer loop, from a right position on: the chain and where its longest part ends.
unfoldable pub chain_loop : List ChainEntry → ℕ → List ℕ → ℕ → ℕ → Outcome (List ChainEntry × ℕ)
chain_loop chain right_pos [] global_longest global_longest_right_pos =
    done (chain, global_longest_right_pos)
chain_loop chain right_pos (left_pos ∷ input) global_longest global_longest_right_pos =
    search_back chain left_pos right_pos right_pos (record {
      longest_from_here = 1;
      previous_right_pos = usize_max;
      global_longest = global_longest;
      global_longest_right_pos = global_longest_right_pos;
    })
    >>= λ s.
        chain_loop (set chain right_pos (s.longest_from_here, left_pos, s.previous_right_pos))
          (suc right_pos) input s.global_longest s.global_longest_right_pos

-- The last loop. What is pushed on a `Vec` that is reversed at the end is put at the head.
unfoldable pub result_loop : ℕ → List ChainEntry → ℕ → List (ℕ × ℕ) → Outcome (List (ℕ × ℕ))
result_loop zero chain right_pos result = out_of_fuel
result_loop (suc fuel) chain right_pos result =
    unwrap (get_elem? chain right_pos) >>= λ (_, left_pos, previous_right_pos).
    elim (previous_right_pos == usize_max) [
      | true ↦ done ((left_pos, right_pos) ∷ result)
      | false ↦ result_loop fuel chain previous_right_pos ((left_pos, right_pos) ∷ result)
    ]

unfoldable pub find_lcs : List ℕ → Outcome (List (ℕ × ℕ))
find_lcs [] = done []
find_lcs (left_pos ∷ input) =
    chain_loop (replicate (suc (length input)) (0, 0, 0)) 0 (left_pos ∷ input) 0 0
    >>= λ (chain, right_pos). result_loop (suc (length input)) chain right_pos []
