-- ===== src/Files/Content.antt =====
-- What each side has of the hunks and lines of lib/src/files.rs.
use jj.Prelude.{
  ℕ, ◌≡◌, refl, sym, ◌∙◌, ap, inl, inr, List, [], ◌∷◌, ◌++◌, append_assoc, Bool-cases, at, nat_eq,
  ◌==◌,
}
use jj.Files.{Bytes, DiffHunk, matching, different}
use jj.Files.Lines.{DiffLine}
use jj.Prelude.Split.{put_before, split_inclusive}

abbrev pub concat : List Bytes → Bytes
concat [] = []
concat (part ∷ parts) = part ++ concat parts

pub concat-put_before :
    (b : ℕ) (lines : List Bytes) → concat (put_before b lines) ≡ b ∷ concat lines
unfolding put_before
concat-put_before b [] = refl
concat-put_before b (line ∷ lines) = refl

pub concat-split_inclusive : (text : Bytes) → concat (split_inclusive text) ≡ text
unfolding split_inclusive
concat-split_inclusive [] = refl
concat-split_inclusive (b ∷ bytes) = elim (Bool-cases (b == b'\n')) [
  | inl e ↦ rw (split_inclusive, e) (ap (λ l. b ∷ l) (concat-split_inclusive bytes))
  | inr e ↦
      rw (split_inclusive, e)
        (concat-put_before b (split_inclusive bytes)
          ∙ ap (λ l. b ∷ l) (concat-split_inclusive bytes))
]

-- What one side has of a hunk, of some hunks and of some lines. The left side is 0, the right one 1.
abbrev pub hunk_content : ℕ → DiffHunk → Bytes
hunk_content side (matching text) = text
hunk_content side (different contents) = at [] contents side

abbrev pub hunks_content : ℕ → List DiffHunk → Bytes
hunks_content side [] = []
hunks_content side (hunk ∷ hunks) = hunk_content side hunk ++ hunks_content side hunks

abbrev pub lines_content : ℕ → List DiffLine → Bytes
lines_content side [] = []
lines_content side (line ∷ lines) = hunks_content side line.hunks ++ lines_content side lines

pub hunks_content-append :
    (side : ℕ) (hs ks : List DiffHunk)
    → hunks_content side (hs ++ ks) ≡ hunks_content side hs ++ hunks_content side ks
hunks_content-append side [] ks = refl
hunks_content-append side (h ∷ hs) ks =
    ap (λ l. hunk_content side h ++ l) (hunks_content-append side hs ks)
    ∙ sym (append_assoc (hunk_content side h) (hunks_content side hs) (hunks_content side ks))

pub lines_content-append :
    (side : ℕ) (ls ms : List DiffLine)
    → lines_content side (ls ++ ms) ≡ lines_content side ls ++ lines_content side ms
lines_content-append side [] ms = refl
lines_content-append side (l ∷ ls) ms =
    ap (λ x. hunks_content side l.hunks ++ x) (lines_content-append side ls ms)
    ∙ sym
        (append_assoc (hunks_content side l.hunks) (lines_content side ls) (lines_content side ms))
