-- ===== src/Diff/Tokens.antt =====
-- The tokenizers of lib/src/diff.rs.
use jj.Prelude.{
  ℕ, zero, suc, ◌+◌, Bool, true, false, not, ◌&&◌, ◌||◌, Option, none, some, List, [], ◌∷◌, ◌++◌,
  if◌then◌else◌, ltb, leb, length, nat_eq, ◌==◌,
}
use jj.Prelude.Outcome.{Outcome, done, out_of_fuel, ◌>>=◌, slice}
use jj.Diff.Hunk.{Bytes}

-- `first..past`
pub record Range : Type 0 where
  pub first : ℕ
  pub past : ℕ

abbrev pub range : ℕ → ℕ → Range
range first past = record { first = first; past = past }

-- `position(|b| *b == b'\n')`
unfoldable pub newline_position : Bytes → Option ℕ
newline_position [] = none
newline_position (b ∷ bytes) =
    let rest = newline_position bytes in
    if b == b'\n' then some 0 else elim rest [ none ↦ none | some i ↦ some (suc i) ]

-- The loop: the ranges, and the start of what is left. Fuel bounds the number of lines.
unfoldable pub line_loop : ℕ → Bytes → List Range → ℕ → Outcome (List Range × ℕ)
line_loop zero text ranges start = out_of_fuel
line_loop (suc fuel) text ranges start = slice text start (length text) >>= λ rest.
    elim (newline_position rest) [
      | none ↦ done (ranges, start)
      | some i ↦ line_loop fuel text (ranges ++ range start (start + i + 1) ∷ []) (start + i + 1)
    ]

unfoldable pub find_line_ranges : Bytes → Outcome (List Range)
find_line_ranges text = line_loop (suc (length text)) text [] 0 >>= λ (ranges, start).
    done (if ltb start (length text) then ranges ++ range start (length text) ∷ [] else ranges)

-- The macro `matches!(b, b'A'..=b'Z' | b'a'..=b'z' | b'0'..=b'9' | b'_')`.
unfoldable pub is_word_byte : ℕ → Bool
is_word_byte b =
    (leb b'A' b && leb b b'Z')
    || (leb b'a' b && leb b b'z')
    || (leb b'0' b && leb b b'9')
    || b == b'_'

-- The variables of `find_word_ranges`.
pub record WordState : Type 0 where
  pub word_ranges : List Range
  pub word_start_pos : ℕ
  pub in_word : Bool

-- The body of its loop.
unfoldable pub word_step : ℕ → ℕ → WordState → WordState
word_step i b s =
    if s.in_word && not (is_word_byte b)
    then record {
      word_ranges = s.word_ranges ++ range s.word_start_pos i ∷ [];
      word_start_pos = i;
      in_word = false;
    }
    else if not s.in_word && is_word_byte b
    then record s { in_word = true; word_start_pos = i }
    else s

unfoldable pub word_loop : ℕ → Bytes → WordState → WordState
word_loop i [] s = s
word_loop i (b ∷ text) s = word_loop (suc i) text (word_step i b s)

unfoldable pub find_word_ranges : Bytes → List Range
find_word_ranges text =
    let s = word_loop 0 text (record { word_ranges = []; word_start_pos = 0; in_word = false }) in
    if s.in_word && ltb s.word_start_pos (length text)
    then s.word_ranges ++ range s.word_start_pos (length text) ∷ []
    else s.word_ranges

-- The loop of `find_nonword_ranges` from a position on.
unfoldable pub nonword_ranges_from : ℕ → Bytes → List Range
nonword_ranges_from i [] = []
nonword_ranges_from i (b ∷ text) =
    let rest = nonword_ranges_from (suc i) text in
    if is_word_byte b then rest else range i (i + 1) ∷ rest

unfoldable pub find_nonword_ranges : Bytes → List Range
find_nonword_ranges text = nonword_ranges_from 0 text
