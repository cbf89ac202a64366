-- ===== src/Diff/Examples.antt =====
-- Tests and instances for lib/src/diff.rs, most of them those of the source.
use jj.Prelude.{length, ℕ, ◌≡◌, refl, List, [], ◌∷◌, arith}
use jj.Prelude.Outcome.{slice, map_all, done}
use jj.Prelude.Maps
use jj.Prelude.Split.{split_inclusive}
use jj.Prelude.BTree
use jj.Diff.Hunk.{Bytes, matching, different}
use jj.Diff.Tokens.{
  Range, range, newline_position, line_loop, find_line_ranges, is_word_byte, word_step, word_loop,
  find_word_ranges, nonword_ranges_from, find_nonword_ranges,
}
use jj.Diff.LineRanges.{find_line_ranges_lem}
use jj.Diff.WordRanges.{IsInOrder, token_ranges-IsInOrder}
use jj.Diff.LongestChain.{IsLongestChain, find_lcs_lem}
use jj.Diff.Lcs.{search_back, chain_loop, result_loop, find_lcs}
use jj.Diff.Unchanged.{
  add_words, or_default, count_words, calculate, shared_among, uncommon_shared_words, position_leb,
  insert_position, sort, occurrences, shared_positions, position_map, left_indexes, nested,
  output_loop, split_at_shared, first_count, unchanged_ranges,
}
use jj.Diff.Regions.{
  start, end, region_leb, overlap, intersect_range, intersect_loop, intersect_regions, joined,
  compact_loop, compact_unchanged_regions, merge_onto, merge_regions,
}
use jj.Diff.{
  intersect_inputs, end_offsets, last_region, for_tokenizer, changed_slices, add_offsets,
  shift_regions, refine_loop, first_region, refine_changed_regions, default_refinement, hunks,
  all_empty, emits_previous, emit_previous, next_loop, next, collect_hunks, hunks_of, diff,
}

find_lcs_swapped :
    find_lcs (0 ∷ 1 ∷ 4 ∷ 3 ∷ 2 ∷ 5 ∷ 6 ∷ [])
    ≡ done ((0, 0) ∷ (1, 1) ∷ (2, 4) ∷ (5, 5) ∷ (6, 6) ∷ [])
unfolding find_lcs chain_loop search_back result_loop
find_lcs_swapped = refl

find_lcs_interleaved :
    find_lcs (0 ∷ 4 ∷ 2 ∷ 9 ∷ 6 ∷ 5 ∷ 1 ∷ 3 ∷ 7 ∷ 8 ∷ [])
    ≡ done ((0, 0) ∷ (1, 6) ∷ (3, 7) ∷ (7, 8) ∷ (8, 9) ∷ [])
unfolding find_lcs chain_loop search_back result_loop
find_lcs_interleaved = refl

abbrev a_b_c : Bytes
a_b_c = b'a' ∷ b' ' ∷ b'b' ∷ b' ' ∷ b'c' ∷ []

abbrev a_x_c : Bytes
a_x_c = b'a' ∷ b' ' ∷ b'X' ∷ b' ' ∷ b'c' ∷ []

word_ranges : find_word_ranges a_b_c ≡ range 0 1 ∷ range 2 3 ∷ range 4 5 ∷ []
unfolding find_word_ranges word_loop word_step is_word_byte
word_ranges = refl

nonword_ranges : find_nonword_ranges a_b_c ≡ range 1 2 ∷ range 3 4 ∷ []
unfolding find_nonword_ranges nonword_ranges_from is_word_byte
nonword_ranges = refl

line_ranges :
    find_line_ranges (b'a' ∷ b'\n' ∷ b'\n' ∷ b'b' ∷ [])
    ≡ done (range 0 2 ∷ range 2 3 ∷ range 3 4 ∷ [])
unfolding find_line_ranges line_loop newline_position
line_ranges = refl

-- The words and then the space between them are found again.
diff_one_different :
    diff a_b_c a_x_c
    ≡ done (
        matching (b'a' ∷ b' ' ∷ [])
        ∷ different ((b'b' ∷ []) ∷ (b'X' ∷ []) ∷ [])
        ∷ matching (b' ' ∷ b'c' ∷ [])
        ∷ [])
unfolding find_line_ranges line_loop newline_position find_word_ranges word_loop word_step
    is_word_byte find_nonword_ranges nonword_ranges_from find_lcs chain_loop search_back result_loop
    add_words or_default count_words calculate shared_among uncommon_shared_words position_leb
    insert_position sort occurrences shared_positions position_map left_indexes nested output_loop
    split_at_shared first_count unchanged_ranges start end region_leb overlap intersect_range
    intersect_loop intersect_regions joined compact_loop compact_unchanged_regions merge_onto
    merge_regions intersect_inputs end_offsets last_region for_tokenizer changed_slices add_offsets
    shift_regions refine_loop first_region refine_changed_regions default_refinement hunks all_empty
    emits_previous emit_previous next_loop next collect_hunks hunks_of diff Maps.get_or Maps.get
    Maps.insert Maps.has_key BTree.get BTree.insert
diff_one_different = refl

find_lcs_lem_example :
    (result : List (ℕ × ℕ)) × (find_lcs (0 ∷ 1 ∷ 4 ∷ 3 ∷ 2 ∷ 5 ∷ 6 ∷ []) ≡ done result)
    × IsLongestChain (0 ∷ 1 ∷ 4 ∷ 3 ∷ 2 ∷ 5 ∷ 6 ∷ []) result
find_lcs_lem_example = find_lcs_lem (0 ∷ 1 ∷ 4 ∷ 3 ∷ 2 ∷ 5 ∷ 6 ∷ []) (omega arith)

abbrev three_lines : Bytes
three_lines = b'a' ∷ b'\n' ∷ b'\n' ∷ b'b' ∷ []

find_line_ranges_lem_example :
    (ranges : List Range) × (find_line_ranges three_lines ≡ done ranges)
    × (map_all (λ r. slice three_lines r.first r.past) ranges ≡ done (split_inclusive three_lines))
find_line_ranges_lem_example = find_line_ranges_lem three_lines

token_ranges-IsInOrder_example :
    IsInOrder 0 (find_word_ranges a_x_c) (length a_x_c)
    × IsInOrder 0 (find_nonword_ranges a_x_c) (length a_x_c)
token_ranges-IsInOrder_example = token_ranges-IsInOrder a_x_c
