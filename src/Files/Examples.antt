-- ===== src/Files/Examples.antt =====
-- Tests and instances for lib/src/files.rs, with a diff that finds one hunk, in which the inputs
-- differ.
use jj.Prelude.Outcome.{done}
use jj.Prelude.{ℕ, ◌<◌, arith, ◌≡◌, refl, ◌⊎◌, none, some, List, [], ◌∷◌, ltb, list_eq, nat_eq}
use jj.Prelude.Counts.{count}
use jj.Cancel.{cancel_pairs, cancel_loop}
use jj.Cancel.Laws.{count-cancel_pairs}
use jj.Files.{
  Bytes, DiffHunk, matching, different, MergeHunk, MergeResult, resolve_parts, resolve_left, merge,
  merge_loop, finish, push_resolved,
}
use jj.Files.Resolve.{resolve_parts_three_way}
use jj.Files.Lines.{DiffLine, new, collect_lines}
use jj.Prelude.Split.{split_inclusive, put_before}
use jj.Files.Collect.{collect_lines-new}
use jj.Files.Content.{lines_content, hunks_content}
use jj.Files.Pieces.{pieces_of_all}
use jj.Files.Merge.{resolve_all, IsTidyResult, merge_cases}

abbrev one_hunk : List Bytes → List DiffHunk
one_hunk inputs = different inputs ∷ []

abbrev text_a : Bytes
text_a = b'a' ∷ []

abbrev text_b : Bytes
text_b = b'b' ∷ []

abbrev text_c : Bytes
text_c = b'c' ∷ []

merge_one_side : merge one_hunk (text_a ∷ []) (text_b ∷ text_a ∷ []) ≡ MergeResult.resolved text_b
unfolding merge merge_loop resolve_parts resolve_left cancel_pairs cancel_loop finish
merge_one_side = refl

merge_both_sides :
    merge one_hunk (text_a ∷ []) (text_b ∷ text_c ∷ [])
    ≡ MergeResult.conflict (MergeHunk.conflict (text_a ∷ []) (text_b ∷ text_c ∷ []) ∷ [])
unfolding merge merge_loop resolve_parts resolve_left cancel_pairs cancel_loop finish push_resolved
merge_both_sides = refl

resolve_parts_three_way_example : resolve_parts (text_a ∷ []) (text_b ∷ text_a ∷ []) ≡ some text_b
resolve_parts_three_way_example = resolve_parts_three_way text_a text_b text_a

merge_cases_example :
    ((c : Bytes) × (resolve_all 1 (ltb 1 2) (one_hunk (text_a ∷ text_b ∷ text_c ∷ [])) ≡ some c)
      × (merge one_hunk (text_a ∷ []) (text_b ∷ text_c ∷ []) ≡ MergeResult.resolved c))
    ⊎ ((l : List MergeHunk) × (resolve_all 1 (ltb 1 2) (one_hunk (text_a ∷ text_b ∷ text_c ∷ []))
          ≡ none)
        × (merge one_hunk (text_a ∷ []) (text_b ∷ text_c ∷ []) ≡ MergeResult.conflict l)
        × IsTidyResult l)
merge_cases_example = merge_cases one_hunk (text_a ∷ []) (text_b ∷ text_c ∷ [])

count-cancel_pairs_example :
    (count text_a (cancel_pairs (text_a ∷ text_a ∷ []) (text_a ∷ text_b ∷ [])).0 ≡ 1)
    × (count text_a (cancel_pairs (text_a ∷ text_a ∷ []) (text_a ∷ text_b ∷ [])).1 ≡ 0)
count-cancel_pairs_example = count-cancel_pairs text_a (text_a ∷ text_a ∷ []) (text_a ∷ text_b ∷ [])

-- A line that both sides have, and one that is changed, without a newline at its end.
abbrev changed_line : List DiffHunk
changed_line =
    matching (b'a' ∷ b'\n' ∷ b'b' ∷ []) ∷ different ((b'x' ∷ []) ∷ (b'y' ∷ b'z' ∷ []) ∷ []) ∷ []

collect_lines-new_example :
    (lines : List DiffLine) × (collect_lines 10 (new changed_line) ≡ done lines)
    × ((side : ℕ) → lines_content side lines ≡ hunks_content side changed_line)
collect_lines-new_example = collect_lines-new changed_line 10 (tt, (refl, tt)) few_pieces
  where
    few_pieces : pieces_of_all changed_line < 10
    few_pieces = unfold split_inclusive put_before in omega arith
