-- ===== src/Files/Pieces.antt =====
-- `DiffLineIterator` of lib/src/files.rs puts the pieces of a hunk into lines.
use jj.Prelude.{
  ℕ, zero, suc, ◌+◌, ◌≤◌, ◌≡◌, refl, sym, ◌∙◌, ap, inl, inr, Bool, true, false, List, [], ◌∷◌, ◌++◌,
  arith, append_assoc, append-nil, map, if◌then◌else◌, Bool-cases, is_empty, length, length-append,
  at, nat_eq,
}
use jj.Prelude.Outcome.{done}
use jj.Files.{Bytes, DiffHunk, matching, different}
use jj.Files.Lines.{
  DiffLineIterator, reset_line, ends_with_newline, push_piece, push_pieces, left_hunk, right_hunk,
  push_hunk,
}
use jj.Prelude.Split.{split_inclusive}
use jj.Files.Content.{
  concat, concat-split_inclusive, hunk_content, hunks_content, lines_content, hunks_content-append,
  lines_content-append,
}

-- What the iterator holds of a side, besides the hunks that are left.
abbrev pub held : ℕ → DiffLineIterator → Bytes
held side s = lines_content side s.queued_lines ++ hunks_content side s.current_line.hunks

pub held-push_piece :
    (side : ℕ) (left right : Bool) (hunk : DiffHunk) (piece : Bytes) (s : DiffLineIterator)
    → held side (push_piece left right hunk piece s) ≡ held side s ++ hunk_content side hunk
unfolding push_piece reset_line
held-push_piece side left right hunk piece s = elim (Bool-cases (ends_with_newline piece)) [
  | inl e ↦
      rw (push_piece, e)
        (append-nil (lines_content side (s.queued_lines ++ _ ∷ []))
          ∙ lines_content-append side s.queued_lines (_ ∷ [])
          ∙ ap (λ x. lines_content side s.queued_lines ++ x)
              (append-nil (hunks_content side (s.current_line.hunks ++ hunk ∷ []))
                ∙ hunks_content-append side s.current_line.hunks (hunk ∷ [])
                ∙ ap (λ x. hunks_content side s.current_line.hunks ++ x)
                    (append-nil (hunk_content side hunk)))
          ∙ sym (
              append_assoc (lines_content side s.queued_lines)
                (hunks_content side s.current_line.hunks) (hunk_content side hunk)))
  | inr e ↦
      rw (push_piece, e)
        (ap (λ x. lines_content side s.queued_lines ++ x)
            (hunks_content-append side s.current_line.hunks (hunk ∷ [])
              ∙ ap (λ x. hunks_content side s.current_line.hunks ++ x)
                  (append-nil (hunk_content side hunk)))
          ∙ sym (
              append_assoc (lines_content side s.queued_lines)
                (hunks_content side s.current_line.hunks) (hunk_content side hunk)))
]

pub held-push_pieces :
    (side : ℕ) (left right : Bool) (hunk_of : Bytes → DiffHunk) (pieces : List Bytes)
    (s : DiffLineIterator)
    → held side (push_pieces left right hunk_of pieces s)
      ≡ held side s ++ hunks_content side (map hunk_of pieces)
unfolding push_pieces
held-push_pieces side left right hunk_of [] s = sym (append-nil (held side s))
held-push_pieces side left right hunk_of (p ∷ ps) s =
    held-push_pieces side left right hunk_of ps (push_piece left right (hunk_of p) p s)
    ∙ ap (λ x. x ++ hunks_content side (map hunk_of ps))
        (held-push_piece side left right (hunk_of p) p s)
    ∙ append_assoc (held side s) (hunk_content side (hunk_of p))
        (hunks_content side (map hunk_of ps))

pub hunks_content-matching :
    (side : ℕ) (pieces : List Bytes) → hunks_content side (map matching pieces) ≡ concat pieces
hunks_content-matching side [] = refl
hunks_content-matching side (p ∷ ps) = ap (λ x. p ++ x) (hunks_content-matching side ps)

-- The side that one of the two loops over a different hunk does not write to stays.
pub hunks_content-left :
    (side : ℕ) (pieces : List Bytes)
    → hunks_content side (map left_hunk pieces) ≡ at [] (concat pieces ∷ [] ∷ []) side
hunks_content-left zero [] = refl
hunks_content-left zero (p ∷ ps) = ap (λ x. p ++ x) (hunks_content-left zero ps)
hunks_content-left (suc zero) [] = refl
hunks_content-left (suc zero) (p ∷ ps) = hunks_content-left (suc zero) ps
hunks_content-left (suc (suc side)) [] = refl
hunks_content-left (suc (suc side)) (p ∷ ps) = hunks_content-left (suc (suc side)) ps

pub hunks_content-right :
    (side : ℕ) (pieces : List Bytes)
    → hunks_content side (map right_hunk pieces) ≡ at [] ([] ∷ concat pieces ∷ []) side
hunks_content-right zero [] = refl
hunks_content-right zero (p ∷ ps) = hunks_content-right zero ps
hunks_content-right (suc zero) [] = refl
hunks_content-right (suc zero) (p ∷ ps) = ap (λ x. p ++ x) (hunks_content-right (suc zero) ps)
hunks_content-right (suc (suc side)) [] = refl
hunks_content-right (suc (suc side)) (p ∷ ps) = hunks_content-right (suc (suc side)) ps

pub both_sides :
    (side : ℕ) (l r : Bytes)
    → at [] (l ∷ [] ∷ []) side ++ at [] ([] ∷ r ∷ []) side ≡ at [] (l ∷ r ∷ []) side
both_sides zero l r = append-nil l
both_sides (suc zero) l r = refl
both_sides (suc (suc side)) l r = refl

-- A hunk of two inputs.
abbrev pub IsTwoSided : DiffHunk → Type 0
IsTwoSided (matching text) = Unit
IsTwoSided (different contents) = length contents ≡ 2

-- The lines that are still to come from the current line and the queue, and the pieces of a hunk.
abbrev pub waiting : DiffLineIterator → ℕ
waiting s = length s.queued_lines + (if is_empty s.current_line.hunks then 0 else 1)

abbrev pub pieces_of : DiffHunk → ℕ
pieces_of (matching text) = length (split_inclusive text)
pieces_of (different contents) =
    length (split_inclusive (at [] contents 0)) + length (split_inclusive (at [] contents 1))

abbrev pub pieces_of_all : List DiffHunk → ℕ
pieces_of_all [] = 0
pieces_of_all (hunk ∷ hunks) = pieces_of hunk + pieces_of_all hunks

pub waiting-push_piece :
    (left right : Bool) (hunk : DiffHunk) (piece : Bytes) (s : DiffLineIterator)
    → waiting (push_piece left right hunk piece s) ≤ suc (waiting s)
unfolding push_piece reset_line
waiting-push_piece left right hunk piece s = elim (Bool-cases (ends_with_newline piece)) [
  | inl e ↦ rw (push_piece, e) (omega (arith, length-append s.queued_lines (_ ∷ [])))
  | inr e ↦
      rw (push_piece, e)
        (one_more (is_empty s.current_line.hunks) (is_empty (s.current_line.hunks ++ hunk ∷ [])))
]
  where
    one_more :
        (b c : Bool)
        → length s.queued_lines + (if c then 0 else 1)
          ≤ suc (length s.queued_lines + (if b then 0 else 1))
    one_more b c = ground arith

pub waiting-push_pieces :
    (left right : Bool) (hunk_of : Bytes → DiffHunk) (pieces : List Bytes) (s : DiffLineIterator)
    → waiting (push_pieces left right hunk_of pieces s) ≤ length pieces + waiting s
unfolding push_pieces
waiting-push_pieces left right hunk_of [] s = omega arith
waiting-push_pieces left right hunk_of (p ∷ ps) s =
    let a = waiting-push_pieces left right hunk_of ps (push_piece left right (hunk_of p) p s) in
    let b = waiting-push_piece left right (hunk_of p) p s in omega arith

-- A hunk of two inputs goes into the lines whole.
pub push_hunk_lem :
    (hunk : DiffHunk) (s : DiffLineIterator)
    → IsTwoSided hunk
    → (s' : DiffLineIterator) × (push_hunk hunk s ≡ done s')
      × ((side : ℕ) → held side s' ≡ held side s ++ hunk_content side hunk)
      × (waiting s' ≤ pieces_of hunk + waiting s)
unfolding push_hunk
push_hunk_lem (matching text) s two = (
  push_pieces true true matching (split_inclusive text) s,
  refl,
  λ side.
      held-push_pieces side true true matching (split_inclusive text) s
      ∙ ap (λ x. held side s ++ x)
          (hunks_content-matching side (split_inclusive text) ∙ concat-split_inclusive text),
  waiting-push_pieces true true matching (split_inclusive text) s,
)
push_hunk_lem (different []) s two = absurd (omega arith)
push_hunk_lem (different (l ∷ [])) s two = absurd (omega arith)
push_hunk_lem (different (l ∷ r ∷ [])) s two =
    let ls = split_inclusive l in
    let rs = split_inclusive r in
    let s1 = push_pieces true false left_hunk ls s in
    let a = waiting-push_pieces true false left_hunk ls s in
    let b = waiting-push_pieces false true right_hunk rs s1 in
    (
      push_pieces false true right_hunk rs s1,
      refl,
      λ side.
          held-push_pieces side false true right_hunk rs s1
          ∙ ap (λ x. x ++ hunks_content side (map right_hunk rs))
              (held-push_pieces side true false left_hunk ls s)
          ∙ append_assoc (held side s) (hunks_content side (map left_hunk ls))
              (hunks_content side (map right_hunk rs))
          ∙ ap (λ x. held side s ++ x)
              (ap (λ x. x ++ hunks_content side (map right_hunk rs))
                  (hunks_content-left side ls
                    ∙ ap (λ x. at [] (x ∷ [] ∷ []) side) (concat-split_inclusive l))
                ∙ ap (λ x. at [] (l ∷ [] ∷ []) side ++ x)
                    (hunks_content-right side rs
                      ∙ ap (λ x. at [] ([] ∷ x ∷ []) side) (concat-split_inclusive r))
                ∙ both_sides side l r),
      omega arith,
    )
push_hunk_lem (different (l ∷ r ∷ x ∷ xs)) s two = absurd (omega arith)
