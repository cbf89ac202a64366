-- ===== src/Diff/LineRanges.antt =====
-- `find_line_ranges` of lib/src/diff.rs cuts a text into its lines.
use jj.Prelude.{
  ℕ, zero, suc, ◌+◌, ◌-◌, ◌<◌, ◌≤◌, ◌≡◌, refl, sym, ◌∙◌, ap, ◌⊎◌, inl, inr, true, ◌&&◌, none, some,
  List, [], ◌∷◌, ◌++◌, arith, append_assoc, append-nil, if◌then◌else◌, Bool-cases, ltb, leb, length,
  take, drop, drop-drop, take_all, length-drop, nat_eq, ◌==◌,
}
use jj.Prelude.Outcome.{Outcome, done, ◌>>=◌, slice, map_all}
use jj.Prelude.Split.{put_before, split_inclusive}
use jj.Diff.Hunk.{Bytes}
use jj.Diff.Tokens.{Range, range, newline_position, line_loop, find_line_ranges}

-- A text without a newline is one line, unless it is empty.
abbrev only_line : Bytes → List Bytes
only_line [] = []
only_line (b ∷ text) = (b ∷ text) ∷ []

put_before-only_line : (b : ℕ) (text : Bytes) → put_before b (only_line text) ≡ (b ∷ text) ∷ []
unfolding put_before
put_before-only_line b [] = refl
put_before-only_line b (c ∷ text) = refl

-- The search for a newline finds the end of the first line.
line_cases :
    (text : Bytes)
    → ((newline_position text ≡ none) × (split_inclusive text ≡ only_line text))
      ⊎ ((i : ℕ) × (newline_position text ≡ some i)
          × (i < length text)
          × (split_inclusive text ≡ take (suc i) text ∷ split_inclusive (drop (suc i) text)))
unfolding newline_position split_inclusive put_before
line_cases [] = inl (refl, refl)
line_cases (b ∷ text) = elim (Bool-cases (b == b'\n')) [
  | inl e ↦ inr (0, rw (newline_position, e) refl, omega arith, rw (split_inclusive, e) refl)
  | inr e ↦ elim (line_cases text) [
    | inl (n, s) ↦
        inl (
          rw (newline_position, e, n) refl,
          rw (split_inclusive, e, s) (put_before-only_line b text),
        )
    | inr (i, n, l, s) ↦
        inr (suc i, rw (newline_position, e, n) refl, omega arith, rw (split_inclusive, e, s) refl)
  ]
]

slice_lem :
    (text : Bytes) (first past : ℕ)
    → first ≤ past
    → past ≤ length text
    → slice text first past ≡ done (take (past - first) (drop first text))
slice_lem text first past a b =
    let c : (leb first past && leb past (length text)) ≡ true = ground arith in rw (slice, c) refl

-- What is in the ranges.
abbrev parts : Bytes → List Range → Outcome (List Bytes)
parts text ranges = map_all (λ r. slice text r.first r.past) ranges

-- The end of `find_line_ranges`.
abbrev with_rest : Bytes → List Range → ℕ → List Range
with_rest text ranges start =
    if ltb start (length text) then ranges ++ range start (length text) ∷ [] else ranges

with_rest-append :
    (text : Bytes) (rs qs : List Range) (start : ℕ)
    → with_rest text (rs ++ qs) start ≡ rs ++ with_rest text qs start
with_rest-append text rs qs start = elim (Bool-cases (ltb start (length text))) [
  | inl e ↦ rw e (append_assoc rs qs (range start (length text) ∷ []))
  | inr e ↦ rw e refl
]

parts-cons :
    (text : Bytes) (r : Range) (ranges : List Range) (line : Bytes) (lines : List Bytes)
    → slice text r.first r.past ≡ done line
    → parts text ranges ≡ done lines
    → parts text (r ∷ ranges) ≡ done (line ∷ lines)
unfolding map_all
parts-cons text r ranges line lines e f = rw (map_all, e, ◌>>=◌, f) refl

-- The rest behind the last newline.
parts-rest :
    (text : Bytes) (start : ℕ)
    → start ≤ length text
    → parts text (with_rest text [] start) ≡ done (only_line (drop start text))
unfolding map_all
parts-rest text start b = elim (Bool-cases (ltb start (length text))) [
  | inl e ↦ rw e (
      parts-cons text (range start (length text)) [] (drop start text) []
        (slice_lem text start (length text) b (omega arith) ∙ ap done (take_all start text)) refl
      ∙ ap done (one_line (drop start text) (ground (arith, length-drop start text))))
  | inr e ↦ rw e (ap done (no_line (drop start text) (ground (arith, length-drop start text))))
]
  where
    one_line : (rest : Bytes) → 0 < length rest → rest ∷ [] ≡ only_line rest
    one_line [] h = absurd (omega arith)
    one_line (x ∷ xs) h = refl

    no_line : (rest : Bytes) → length rest ≡ 0 → [] ≡ only_line rest
    no_line [] h = refl
    no_line (x ∷ xs) h = absurd (omega arith)

line_loop_lem :
    (fuel : ℕ) (text : Bytes) (ranges : List Range) (start : ℕ)
    → start ≤ length text
    → length text < fuel + start
    → (found : List Range) × (rest : ℕ) × (line_loop fuel text ranges start
        ≡ done (ranges ++ found, rest))
      × (parts text (with_rest text found rest) ≡ done (split_inclusive (drop start text)))
unfolding line_loop
line_loop_lem zero text ranges start b f = absurd (omega arith)
line_loop_lem (suc fuel) text ranges start b f =
    let all = slice_lem text start (length text) b (omega arith) ∙ ap done (take_all start text) in
    elim (line_cases (drop start text)) [
      | inl (n, s) ↦ (
        [],
        start,
        rw (line_loop, all, ◌>>=◌, n) (ap (λ l. done (l, start)) (sym (append-nil ranges))),
        parts-rest text start b ∙ ap done (sym s),
      )
      | inr (i, n, l, s) ↦
          let size = length-drop start text in
          let line = range start (start + i + 1) in
          let (found, rest, ends, same) =
            line_loop_lem fuel text (ranges ++ line ∷ []) (start + i + 1) (omega arith)
              (omega arith) in
          let behind : drop (suc i) (drop start text) ≡ drop (start + i + 1) text =
            drop-drop (suc i) start text ∙ ap (λ k. drop k text) (omega arith) in
          let width : start + i + 1 - start ≡ suc i = omega arith in
          let first_line : slice text start (start + i + 1)
              ≡ done (take (suc i) (drop start text)) =
            slice_lem text start (start + i + 1) (omega arith) (omega arith)
            ∙ ap (λ k. done (take k (drop start text))) width in
          (
            line ∷ found,
            rest,
            rw (line_loop, all, ◌>>=◌, n)
                (ends ∙ ap (λ x. done (x, rest)) (append_assoc ranges (line ∷ []) found)),
            ap (parts text) (with_rest-append text (line ∷ []) found rest)
                ∙ parts-cons text line (with_rest text found rest) (take (suc i) (drop start text))
                    (split_inclusive (drop (start + i + 1) text)) first_line same
                ∙ ap (λ x. done (take (suc i) (drop start text) ∷ split_inclusive x)) (sym behind)
                ∙ ap done (sym s),
          )
    ]

-- `find_line_ranges` neither panics nor runs out of fuel, and the ranges lie within the text and hold
-- its lines in order: the pieces that `split_inclusive` cuts it into at newlines.
pub find_line_ranges_lem :
    (text : Bytes)
    → (ranges : List Range) × (find_line_ranges text ≡ done ranges)
      × (map_all (λ r. slice text r.first r.past) ranges ≡ done (split_inclusive text))
unfolding find_line_ranges
find_line_ranges_lem text =
    let (found, rest, ends, same) =
      line_loop_lem (suc (length text)) text [] 0 (omega arith) (omega arith) in
    (with_rest text found rest, rw (ends, ◌>>=◌) refl, same)
