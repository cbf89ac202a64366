-- ===== src/Diff/WordRanges.antt =====
-- The ranges of `find_word_ranges` and `find_nonword_ranges` in lib/src/diff.rs lie in the text.
use jj.Prelude.{
  ℕ, suc, ◌+◌, ◌<◌, ◌≤◌, ◌≡◌, subst, inl, inr, true, false, List, [], ◌∷◌, ◌++◌, arith,
  if◌then◌else◌, Bool-cases, ltb, length,
}
use jj.Diff.Hunk.{Bytes}
use jj.Diff.Tokens.{
  Range, range, is_word_byte, WordState, word_step, word_loop, find_word_ranges,
  nonword_ranges_from, find_nonword_ranges,
}

-- Ranges in order that do not overlap and are not empty, between two positions.
abbrev pub IsInOrder : ℕ → List Range → ℕ → Type 0
IsInOrder first [] past = first ≤ past
IsInOrder first (r ∷ ranges) past =
    (first ≤ r.first) × (r.first < r.past) × IsInOrder r.past ranges past

IsInOrder-concat :
    (first past end : ℕ) (ranges : List Range) (r : Range)
    → IsInOrder first ranges past
    → past ≤ r.first
    → r.first < r.past
    → r.past ≤ end
    → IsInOrder first (ranges ++ r ∷ []) end
IsInOrder-concat first past end [] r o a b c = (omega arith, b, c)
IsInOrder-concat first past end (q ∷ ranges) r o a b c =
    (o.0, o.1, IsInOrder-concat q.past past end ranges r o.2 a b c)

IsInOrder-widen :
    (first past end : ℕ) (ranges : List Range)
    → IsInOrder first ranges past
    → past ≤ end
    → IsInOrder first ranges end
IsInOrder-widen first past end [] o a = omega arith
IsInOrder-widen first past end (q ∷ ranges) o a =
    (o.0, o.1, IsInOrder-widen q.past past end ranges o.2 a)

-- Before a position, the ranges end where the word begins that the loop is in.
record Scanned (i : ℕ) (s : WordState) : Type 0 where
  in_order : IsInOrder 0 s.word_ranges (if s.in_word then s.word_start_pos else i)
  started : s.in_word ≡ true → s.word_start_pos < i

word_step-Scanned : (i b : ℕ) (s : WordState) → Scanned i s → Scanned (suc i) (word_step i b s)
unfolding word_step
word_step-Scanned i b s h = elim (Bool-cases s.in_word) [
  | inl e ↦
      let o : IsInOrder 0 s.word_ranges s.word_start_pos =
        subst (λ x. IsInOrder 0 s.word_ranges (if x then s.word_start_pos else i)) e h.in_order in
      elim (Bool-cases (is_word_byte b)) [
        | inl w ↦
            rw (word_step, e, w)
              (record { in_order = o; started = λ q. let k = h.started e in omega arith })
        | inr w ↦
            rw (word_step, e, w)
              (record {
                in_order =
                    IsInOrder-concat 0 s.word_start_pos (suc i) s.word_ranges
                      (range s.word_start_pos i) o (omega arith) (h.started e) (omega arith);
                started = λ q. absurd (cc q);
              })
      ]
  | inr e ↦
      let o : IsInOrder 0 s.word_ranges i =
        subst (λ x. IsInOrder 0 s.word_ranges (if x then s.word_start_pos else i)) e h.in_order in
      elim (Bool-cases (is_word_byte b)) [
        | inl w ↦ rw (word_step, e, w) (record { in_order = o; started = λ q. omega arith })
        | inr w ↦
            rw (word_step, e, w)
              (record {
                in_order = IsInOrder-widen 0 i (suc i) s.word_ranges o (omega arith);
                started = λ q. absurd (cc q);
              })
      ]
]

word_loop-Scanned :
    (i : ℕ) (text : Bytes) (s : WordState)
    → Scanned i s
    → Scanned (i + length text) (word_loop i text s)
unfolding word_loop
word_loop-Scanned i [] s h = let e : i ≡ i + 0 = omega arith in subst (λ k. Scanned k s) e h
word_loop-Scanned i (b ∷ text) s h =
    let e : suc i + length text ≡ i + suc (length text) = omega arith in
    subst (λ k. Scanned k (word_loop (suc i) text (word_step i b s))) e
      (word_loop-Scanned (suc i) text (word_step i b s) (word_step-Scanned i b s h))

IsInOrder-lower :
    (first first' past : ℕ) (ranges : List Range)
    → IsInOrder first ranges past
    → first' ≤ first
    → IsInOrder first' ranges past
IsInOrder-lower first first' past [] o a = omega arith
IsInOrder-lower first first' past (q ∷ ranges) o a = let k = o.0 in (omega arith, o.1, o.2)

nonword_ranges_from_lem :
    (i : ℕ) (text : Bytes) → IsInOrder i (nonword_ranges_from i text) (i + length text)
unfolding nonword_ranges_from
nonword_ranges_from_lem i [] = omega arith
nonword_ranges_from_lem i (b ∷ text) =
    let size : suc i + length text ≡ i + suc (length text) = omega arith in
    let next : suc i ≡ i + 1 = omega arith in
    let o =
      subst (λ k. IsInOrder (suc i) (nonword_ranges_from (suc i) text) k) size
        (nonword_ranges_from_lem (suc i) text) in
    elim (Bool-cases (is_word_byte b)) [
      | inl e ↦
          rw (nonword_ranges_from, e)
            (IsInOrder-lower (suc i) i (i + suc (length text)) (nonword_ranges_from (suc i) text) o
              (omega arith))
      | inr e ↦
          rw (nonword_ranges_from, e)
            (
              omega arith,
              omega arith,
              subst (λ k. IsInOrder k (nonword_ranges_from (suc i) text) (i + suc (length text)))
                  next o,
            )
    ]

find_word_ranges-IsInOrder : (text : Bytes) → IsInOrder 0 (find_word_ranges text) (length text)
unfolding find_word_ranges
find_word_ranges-IsInOrder text =
    let before : WordState = record { word_ranges = []; word_start_pos = 0; in_word = false } in
    let s = word_loop 0 text before in
    let size : 0 + length text ≡ length text = omega arith in
    let h : Scanned (length text) s =
      subst (λ k. Scanned k s) size
        (word_loop-Scanned 0 text before
          (record { in_order = omega arith; started = λ q. absurd (cc q) })) in
    elim (Bool-cases s.in_word) [
      | inl e ↦
          let o : IsInOrder 0 s.word_ranges s.word_start_pos =
            subst (λ x. IsInOrder 0 s.word_ranges (if x then s.word_start_pos else length text)) e
              h.in_order in
          let inside : ltb s.word_start_pos (length text) ≡ true =
            let k = h.started e in ground arith in
          rw (e, inside)
            (IsInOrder-concat 0 s.word_start_pos (length text) s.word_ranges
              (range s.word_start_pos (length text)) o (omega arith) (h.started e) (omega arith))
      | inr e ↦
          let o : IsInOrder 0 s.word_ranges (length text) =
            subst (λ x. IsInOrder 0 s.word_ranges (if x then s.word_start_pos else length text)) e
              h.in_order in
          rw e o
    ]

-- The ranges of `find_word_ranges` and of `find_nonword_ranges` are in order, do not overlap, are not
-- empty and lie within the text.
pub token_ranges-IsInOrder :
    (text : Bytes)
    → IsInOrder 0 (find_word_ranges text) (length text)
      × IsInOrder 0 (find_nonword_ranges text) (length text)
unfolding find_nonword_ranges
token_ranges-IsInOrder text =
    let size : 0 + length text ≡ length text = omega arith in
    (
      find_word_ranges-IsInOrder text,
      subst (λ k. IsInOrder 0 (nonword_ranges_from 0 text) k) size (nonword_ranges_from_lem 0 text),
    )
