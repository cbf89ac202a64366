-- ===== src/Files/Lines.antt =====
-- `DiffLineIterator` of lib/src/files.rs, which cuts the hunks of a diff into lines.
use jj.Prelude.{
  ℕ, zero, suc, ◌+◌, ◌%◌, ◌^◌, Bool, true, false, ◌&&◌, ◌||◌, Option, none, some, List, [], ◌∷◌,
  ◌++◌, if◌then◌else◌, is_empty, last, get_elem?, nat_eq, option_eq, ◌==◌,
}
use jj.Prelude.Outcome.{Outcome, done, out_of_fuel, ◌>>=◌, unwrap}
use jj.Prelude.Split.{split_inclusive}
use jj.Diff.{diff}
use jj.Files.{Bytes, DiffHunk, matching, different}

pub record DiffLine : Type 0 where
  pub left_line_number : ℕ
  pub right_line_number : ℕ
  pub has_left_content : Bool
  pub has_right_content : Bool
  pub hunks : List DiffHunk

unfoldable pub reset_line : DiffLine → DiffLine
reset_line line = record line { has_left_content = false; has_right_content = false; hunks = [] }

unfoldable pub is_matching : DiffHunk → Bool
is_matching (matching text) = true
is_matching (different contents) = false

unfoldable pub all_matching : List DiffHunk → Bool
all_matching [] = true
all_matching (hunk ∷ hunks) = is_matching hunk && all_matching hunks

unfoldable pub is_unmodified : DiffLine → Bool
is_unmodified line = all_matching line.hunks

-- The iterator: the hunks from `current_pos` on, the current line and the queue.
pub record DiffLineIterator : Type 0 where
  pub diff_hunks : List DiffHunk
  pub current_line : DiffLine
  pub queued_lines : List DiffLine

unfoldable pub new : List DiffHunk → DiffLineIterator
new diff_hunks = record {
  diff_hunks = diff_hunks;
  current_line = record {
    left_line_number = 1;
    right_line_number = 1;
    has_left_content = false;
    has_right_content = false;
    hunks = [];
  };
  queued_lines = [];
}

-- `ends_with(b"\n")`
unfoldable pub ends_with_newline : Bytes → Bool
ends_with_newline line = last line == some b'\n'

-- `line_number += 1`
abbrev pub next_number : ℕ → ℕ
next_number n = (n + 1) % 2 ^ 32

-- The body of each of the three loops over lines: which sides have the line, and the hunk it gives.
unfoldable pub push_piece : Bool → Bool → DiffHunk → Bytes → DiffLineIterator → DiffLineIterator
push_piece left right hunk piece s =
    let c = s.current_line in
    let line : DiffLine = record {
      left_line_number = c.left_line_number;
      right_line_number = c.right_line_number;
      has_left_content = left || c.has_left_content;
      has_right_content = right || c.has_right_content;
      hunks = c.hunks ++ hunk ∷ [];
    } in
    if ends_with_newline piece
    then record s {
      queued_lines = s.queued_lines ++ line ∷ [];
      current_line = reset_line (record line {
        left_line_number = if left then next_number c.left_line_number else c.left_line_number;
        right_line_number = if right then next_number c.right_line_number else c.right_line_number;
      });
    }
    else record s { current_line = line }

unfoldable pub push_pieces :
    Bool → Bool → (Bytes → DiffHunk) → List Bytes → DiffLineIterator → DiffLineIterator
push_pieces left right hunk_of [] s = s
push_pieces left right hunk_of (piece ∷ pieces) s =
    push_pieces left right hunk_of pieces (push_piece left right (hunk_of piece) piece s)

abbrev pub left_hunk : Bytes → DiffHunk
left_hunk line = different (line ∷ [] ∷ [])

abbrev pub right_hunk : Bytes → DiffHunk
right_hunk line = different ([] ∷ line ∷ [])

-- The body of the `while` loop.
unfoldable pub push_hunk : DiffHunk → DiffLineIterator → Outcome DiffLineIterator
push_hunk (matching text) s = done (push_pieces true true matching (split_inclusive text) s)
push_hunk (different contents) s = do
  left ← unwrap (get_elem? contents 0)
  right ← unwrap (get_elem? contents 1)
  done (
      push_pieces false true right_hunk (split_inclusive right)
        (push_pieces true false left_hunk (split_inclusive left) s))

-- The `while` loop.
unfoldable pub fill_queue : List DiffHunk → DiffLineIterator → Outcome DiffLineIterator
fill_queue [] s = done (record s { diff_hunks = [] })
fill_queue (hunk ∷ hunks) s = elim (is_empty s.queued_lines) [
  | false ↦ done (record s { diff_hunks = hunk ∷ hunks })
  | true ↦ push_hunk hunk s >>= fill_queue hunks
]

-- The end of `next`.
unfoldable pub pop_line : DiffLineIterator → Option (DiffLine × DiffLineIterator)
pop_line s = elim s.queued_lines [
  | line ∷ lines ↦ some (line, record s { queued_lines = lines })
  | [] ↦
      if is_empty s.current_line.hunks
      then none
      else some (s.current_line, record s { current_line = reset_line s.current_line })
]

-- `next`; `none` is the end.
unfoldable pub next_line : DiffLineIterator → Outcome (Option (DiffLine × DiffLineIterator))
next_line s = fill_queue s.diff_hunks s >>= λ s'. done (pop_line s')

-- All that the iterator returns.
unfoldable pub collect_lines : ℕ → DiffLineIterator → Outcome (List DiffLine)
collect_lines zero s = out_of_fuel
collect_lines (suc fuel) s = next_line s >>= λ o. elim o [
  | none ↦ done []
  | some (line, s') ↦ collect_lines fuel s' >>= λ lines. done (line ∷ lines)
]

-- `diff`
unfoldable pub diff_lines : Bytes → Bytes → Outcome DiffLineIterator
diff_lines left right = diff left right >>= λ diff_hunks. done (new diff_hunks)
