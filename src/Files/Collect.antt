-- ===== src/Files/Collect.antt =====
-- All the lines of `DiffLineIterator` in lib/src/files.rs.
use jj.Prelude.{
  ℕ, zero, suc, ◌+◌, ◌<◌, ◌≤◌, ◌≡◌, refl, sym, ◌∙◌, ap, ◌⊎◌, inl, inr, true, none, some, List, [],
  ◌∷◌, ◌++◌, arith, append_assoc, append-nil, Bool-cases, is_empty, nat_eq,
}
use jj.Prelude.Outcome.{done, ◌>>=◌}
use jj.Files.{Bytes, DiffHunk}
use jj.Files.Lines.{
  DiffLine, DiffLineIterator, reset_line, new, fill_queue, pop_line, next_line, collect_lines,
}
use jj.Files.Content.{hunk_content, hunks_content, lines_content}
use jj.Files.Pieces.{held, IsTwoSided, waiting, pieces_of_all, push_hunk_lem}

abbrev pub AllTwoSided : List DiffHunk → Type 0
AllTwoSided [] = Unit
AllTwoSided (hunk ∷ hunks) = IsTwoSided hunk × AllTwoSided hunks

content_of_empty :
    (side : ℕ) (hunks : List DiffHunk) → is_empty hunks ≡ true → hunks_content side hunks ≡ []
content_of_empty side [] e = refl
content_of_empty side (h ∷ hs) e = cc

-- What an iterator is to return.
abbrev total : ℕ → DiffLineIterator → Bytes
total side s = held side s ++ hunks_content side s.diff_hunks

abbrev rounds : DiffLineIterator → ℕ
rounds s = waiting s + pieces_of_all s.diff_hunks

record Filled (hunks : List DiffHunk) (s s' : DiffLineIterator) : Type 0 where
  ends : fill_queue hunks s ≡ done s'
  same : (side : ℕ) → total side s' ≡ held side s ++ hunks_content side hunks
  fewer : rounds s' ≤ waiting s + pieces_of_all hunks
  two : AllTwoSided s'.diff_hunks
  finished : is_empty s'.queued_lines ≡ true → s'.diff_hunks ≡ []

fill_queue_lem :
    (hunks : List DiffHunk) (s : DiffLineIterator)
    → AllTwoSided hunks
    → (s' : DiffLineIterator) × Filled hunks s s'
unfolding fill_queue
fill_queue_lem [] s two = (
  record s { diff_hunks = [] },
  record { ends = refl; same = λ side. refl; fewer = omega arith; two = tt; finished = λ e. refl },
)
fill_queue_lem (h ∷ hs) s two = elim (Bool-cases (is_empty s.queued_lines)) [
  | inl e ↦
      let (s1, ends1, same1, fewer1) = push_hunk_lem h s two.0 in
      let (s', f) = fill_queue_lem hs s1 two.1 in
      (
        s',
        record {
          ends = rw (fill_queue, e, ends1, ◌>>=◌) f.ends;
          same = λ side.
              f.same side
              ∙ ap (λ x. x ++ hunks_content side hs) (same1 side)
              ∙ append_assoc (held side s) (hunk_content side h) (hunks_content side hs);
          fewer = omega (arith, f.fewer);
          two = f.two;
          finished = f.finished;
        },
      )
  | inr e ↦ (
    record s { diff_hunks = h ∷ hs },
    record {
      ends = rw (fill_queue, e) refl;
      same = λ side. refl;
      fewer = omega arith;
      two = two;
      finished = λ q. cc (q, e);
    },
  )
]

-- A line that is popped, and what it leaves.
record Popped (s : DiffLineIterator) (line : DiffLine) (s' : DiffLineIterator) : Type 0 where
  ends : pop_line s ≡ some (line, s')
  same : (side : ℕ) → held side s ≡ hunks_content side line.hunks ++ held side s'
  rest : s'.diff_hunks ≡ s.diff_hunks
  fewer : suc (waiting s') ≤ waiting s

abbrev iterator : List DiffHunk → DiffLine → List DiffLine → DiffLineIterator
iterator hunks current_line queued_lines = record {
  diff_hunks = hunks;
  current_line = current_line;
  queued_lines = queued_lines;
}

pop_line_cases :
    (hunks : List DiffHunk) (c : DiffLine) (queue : List DiffLine)
    → ((pop_line (iterator hunks c queue) ≡ none)
        × (is_empty queue ≡ true)
        × (is_empty c.hunks ≡ true))
      ⊎ ((line : DiffLine) × (s' : DiffLineIterator) × Popped (iterator hunks c queue) line s')
unfolding pop_line reset_line
pop_line_cases hunks c [] = elim (Bool-cases (is_empty c.hunks)) [
  | inl e ↦ inl (rw (pop_line, e) refl, refl, e)
  | inr e ↦ inr (
    c,
    iterator hunks (reset_line c) [],
    record {
      ends = rw (pop_line, e) refl;
      same = λ side. sym (append-nil (hunks_content side c.hunks));
      rest = refl;
      fewer = rw e (omega arith);
    },
  )
]
pop_line_cases hunks c (line ∷ lines) = inr (
  line,
  iterator hunks c lines,
  record {
    ends = refl;
    same = λ side.
        append_assoc (hunks_content side line.hunks) (lines_content side lines)
          (hunks_content side c.hunks);
    rest = refl;
    fewer = omega arith;
  },
)

collect_lines_lem :
    (fuel : ℕ) (s : DiffLineIterator)
    → AllTwoSided s.diff_hunks
    → rounds s < fuel
    → (lines : List DiffLine) × (collect_lines fuel s ≡ done lines)
      × ((side : ℕ) → lines_content side lines ≡ total side s)
unfolding collect_lines next_line
collect_lines_lem zero s two f = absurd (omega arith)
collect_lines_lem (suc fuel) s two f =
    let (s1, filled) = fill_queue_lem s.diff_hunks s two in
    elim (pop_line_cases s1.diff_hunks s1.current_line s1.queued_lines) [
      | inl (e, no_queue, no_hunks) ↦ (
        [],
        rw (collect_lines, next_line, filled.ends, ◌>>=◌, e) refl,
        λ side.
            sym (nothing side s1 (filled.finished no_queue) no_queue no_hunks) ∙ filled.same side,
      )
      | inr (line, s2, popped) ↦
          let two2 : AllTwoSided s2.diff_hunks = rw popped.rest filled.two in
          let same_rounds : pieces_of_all s2.diff_hunks ≡ pieces_of_all s1.diff_hunks =
            ap pieces_of_all popped.rest in
          let (lines, ends, same) =
            collect_lines_lem fuel s2 two2 (omega (arith, filled.fewer, popped.fewer)) in
          (
            line ∷ lines,
            rw (collect_lines, next_line, filled.ends, ◌>>=◌, popped.ends, ends) refl,
            λ side.
                ap (λ x. hunks_content side line.hunks ++ x)
                  (same side ∙ ap (λ x. held side s2 ++ hunks_content side x) popped.rest)
                ∙ sym (
                    append_assoc (hunks_content side line.hunks) (held side s2)
                      (hunks_content side s1.diff_hunks))
                ∙ ap (λ x. x ++ hunks_content side s1.diff_hunks) (sym (popped.same side))
                ∙ filled.same side,
          )
    ]
  where
    nothing :
        (side : ℕ) (s1 : DiffLineIterator)
        → s1.diff_hunks ≡ []
        → is_empty s1.queued_lines ≡ true
        → is_empty s1.current_line.hunks ≡ true
        → total side s1 ≡ []
    nothing side s1 e q h =
        ap (λ x. held side s1 ++ hunks_content side x) e
        ∙ append-nil (held side s1)
        ∙ ap (λ x. lines_content side s1.queued_lines ++ x)
            (content_of_empty side s1.current_line.hunks h)
        ∙ append-nil (lines_content side s1.queued_lines)
        ∙ no_lines s1.queued_lines q
      where
        no_lines : (ls : List DiffLine) → is_empty ls ≡ true → lines_content side ls ≡ []
        no_lines [] e = refl
        no_lines (l ∷ ls) e = cc

-- From hunks of two inputs, with one round more than they have pieces of lines, `DiffLineIterator`
-- neither panics nor runs out of fuel, and its lines hold, on each side, the content of the hunks.
pub collect_lines-new :
    (hunks : List DiffHunk) (fuel : ℕ)
    → AllTwoSided hunks
    → pieces_of_all hunks < fuel
    → (lines : List DiffLine) × (collect_lines fuel (new hunks) ≡ done lines)
      × ((side : ℕ) → lines_content side lines ≡ hunks_content side hunks)
unfolding new
collect_lines-new hunks fuel two f = collect_lines_lem fuel (new hunks) two (omega arith)
