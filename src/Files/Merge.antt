-- ===== src/Files/Merge.antt =====
-- What `merge` of lib/src/files.rs returns.
use jj.Prelude.{
  ℕ, ◌≡◌, refl, ap, ◌∙◌, ◌⊎◌, inl, inr, Bool, false, Option, none, some, List, [], ◌∷◌, ◌++◌, arith,
  if◌then◌else◌, Option-cases, ltb, length, is_empty, take, drop, append-nil, append_assoc,
}
use jj.Files.{
  Bytes, DiffHunk, matching, different, MergeHunk, MergeResult, resolve_parts, push_resolved,
  finish, merge_loop, merge,
}

-- The contents of all hunks in order, if every one is resolved.
pub resolve_all : ℕ → Bool → List DiffHunk → Option Bytes
resolve_all num_removes emit [] = some []
resolve_all num_removes emit (matching content ∷ hunks) =
    elim (resolve_all num_removes emit hunks) [
      | none ↦ none
      | some rest ↦ some (if emit then content ++ rest else rest)
    ]
resolve_all num_removes emit (different parts ∷ hunks) =
    let rest_of = resolve_all num_removes emit hunks in
    elim (resolve_parts (take num_removes parts) (drop num_removes parts)) [
      | none ↦ none
      | some content ↦ elim rest_of [ none ↦ none | some rest ↦ some (content ++ rest) ]
    ]

-- Conflicts, each with at most one resolved hunk before it, which is not empty.
pub data IsTidy : List MergeHunk → Type 0 where
  start : IsTidy []
  bare :
      {l : List MergeHunk} (front : List MergeHunk) (removes adds : List Bytes)
      → IsTidy front
      → l ≡ front ++ MergeHunk.conflict removes adds ∷ []
      → IsTidy l
  after :
      {l : List MergeHunk} (front : List MergeHunk) (content : Bytes) (removes adds : List Bytes)
      → IsTidy front
      → is_empty content ≡ false
      → l ≡ (front ++ MergeHunk.resolved content ∷ []) ++ MergeHunk.conflict removes adds ∷ []
      → IsTidy l

-- The hunks of a conflict: tidy, not empty, and perhaps one resolved hunk more at the end.
pub record IsTidyResult (l : List MergeHunk) : Type 0 where
  pub front : List MergeHunk
  pub tidy : IsTidy front
  pub not_empty : is_empty front ≡ false
  pub end :
      (l ≡ front)
      ⊎ ((content : Bytes) × (is_empty content ≡ false)
          × (l ≡ front ++ MergeHunk.resolved content ∷ []))

push_conflict-IsTidy :
    (r : Bytes) (hs : List MergeHunk) (removes adds : List Bytes)
    → IsTidy hs
    → IsTidy (push_resolved r hs ++ MergeHunk.conflict removes adds ∷ [])
unfolding push_resolved
push_conflict-IsTidy [] hs removes adds t = bare hs removes adds t refl
push_conflict-IsTidy (x ∷ xs) hs removes adds t = after hs (x ∷ xs) removes adds t refl refl

is_empty-concat : (hs : List MergeHunk) (h : MergeHunk) → is_empty (hs ++ h ∷ []) ≡ false
is_empty-concat [] h = refl
is_empty-concat (x ∷ xs) h = refl

finish_tidy :
    (r : Bytes) (hs : List MergeHunk)
    → IsTidy hs
    → is_empty hs ≡ false
    → (l : List MergeHunk) × (finish r hs ≡ MergeResult.conflict l) × IsTidyResult l
unfolding finish push_resolved
finish_tidy r [] t n = cc
finish_tidy [] (h ∷ hs) t n =
    (h ∷ hs, refl, record { front = h ∷ hs; tidy = t; not_empty = n; end = inl refl })
finish_tidy (x ∷ xs) (h ∷ hs) t n = (
  (h ∷ hs) ++ MergeHunk.resolved (x ∷ xs) ∷ [],
  refl,
  record { front = h ∷ hs; tidy = t; not_empty = n; end = inr (x ∷ xs, refl, refl) },
)

module _ (n : ℕ) (emit : Bool) where
  -- Once there is a conflict the result is one.
  loop_conflict :
      (r : Bytes) (hs : List MergeHunk) (hunks : List DiffHunk)
      → IsTidy hs
      → is_empty hs ≡ false
      → (l : List MergeHunk) × (merge_loop n emit r hs hunks ≡ MergeResult.conflict l)
        × IsTidyResult l
  unfolding merge_loop
  loop_conflict r hs [] t e = finish_tidy r hs t e
  loop_conflict r hs (matching content ∷ hunks) t e =
      loop_conflict (if emit then r ++ content else r) hs hunks t e
  loop_conflict r hs (different parts ∷ hunks) t e =
      elim (Option-cases (resolve_parts (take n parts) (drop n parts))) [
        | inl f ↦
            let hs' = push_resolved r hs ++ MergeHunk.conflict (take n parts) (drop n parts) ∷ [] in
            rw (f, merge_loop)
              (loop_conflict [] hs' hunks
                (push_conflict-IsTidy r hs (take n parts) (drop n parts) t)
                (is_empty-concat (push_resolved r hs) _))
        | inr (content, f) ↦ rw (f, merge_loop) (loop_conflict (r ++ content) hs hunks t e)
      ]

  loop_resolved :
      (r : Bytes) (hunks : List DiffHunk) (c : Bytes)
      → resolve_all n emit hunks ≡ some c
      → merge_loop n emit r [] hunks ≡ MergeResult.resolved (r ++ c)
  unfolding merge_loop resolve_all finish
  loop_resolved r [] c h = ground (arith, append-nil r)
  loop_resolved r (matching content ∷ hunks) c h = elim (Option-cases (resolve_all n emit hunks)) [
    | inl e ↦ let failed : none ≡ some c = rw (e, resolve_all) at h in cc
    | inr (rest, e) ↦
        let whole : some (if emit then content ++ rest else rest) ≡ some c =
          rw (e, resolve_all) at h in
        loop_resolved (if emit then r ++ content else r) hunks rest e
        ∙ ap MergeResult.resolved (ground (arith, append_assoc r content rest, whole))
  ]
  loop_resolved r (different parts ∷ hunks) c h =
      elim (Option-cases (resolve_parts (take n parts) (drop n parts))) [
        | inl f ↦ let failed : none ≡ some c = rw (f, resolve_all) at h in cc
        | inr (content, f) ↦ elim (Option-cases (resolve_all n emit hunks)) [
          | inl e ↦ let failed : none ≡ some c = rw (f, e, resolve_all) at h in cc
          | inr (rest, e) ↦
              let whole : some (content ++ rest) ≡ some c = rw (f, e, resolve_all) at h in
              rw (f, merge_loop)
                (loop_resolved (r ++ content) hunks rest e
                  ∙ ap MergeResult.resolved (ground (arith, append_assoc r content rest, whole)))
        ]
      ]

  loop_unresolved :
      (r : Bytes) (hunks : List DiffHunk)
      → resolve_all n emit hunks ≡ none
      → (l : List MergeHunk) × (merge_loop n emit r [] hunks ≡ MergeResult.conflict l)
        × IsTidyResult l
  unfolding merge_loop resolve_all
  loop_unresolved r [] h = cc
  loop_unresolved r (matching content ∷ hunks) h = elim (Option-cases (resolve_all n emit hunks)) [
    | inl e ↦ loop_unresolved (if emit then r ++ content else r) hunks e
    | inr (rest, e) ↦
        let whole : some (if emit then content ++ rest else rest) ≡ none =
          rw (e, resolve_all) at h in
        cc
  ]
  loop_unresolved r (different parts ∷ hunks) h =
      elim (Option-cases (resolve_parts (take n parts) (drop n parts))) [
        | inl f ↦
            let hs' = push_resolved r [] ++ MergeHunk.conflict (take n parts) (drop n parts) ∷ [] in
            rw (f, merge_loop)
              (loop_conflict [] hs' hunks
                (push_conflict-IsTidy r [] (take n parts) (drop n parts) start)
                (is_empty-concat (push_resolved r []) _))
        | inr (content, f) ↦ elim (Option-cases (resolve_all n emit hunks)) [
          | inl e ↦ rw (f, merge_loop) (loop_unresolved (r ++ content) hunks e)
          | inr (rest, e) ↦
              let whole : some (content ++ rest) ≡ none = rw (f, e, resolve_all) at h in cc
        ]
      ]

-- The merge is resolved exactly if every hunk is, to the contents of the hunks in order. Otherwise
-- it is a list with at least one conflict, in which a resolved hunk is never empty and never
-- stands next to another.
pub merge_cases :
    (diff_hunks : List Bytes → List DiffHunk) (removes adds : List Bytes)
    → ((c : Bytes) × (resolve_all
            (length removes)
            (ltb (length removes) (length adds))
            (diff_hunks (removes ++ adds))
          ≡ some c)
        × (merge diff_hunks removes adds ≡ MergeResult.resolved c))
      ⊎ ((l : List MergeHunk) × (resolve_all
              (length removes)
              (ltb (length removes) (length adds))
              (diff_hunks (removes ++ adds))
            ≡ none)
          × (merge diff_hunks removes adds ≡ MergeResult.conflict l)
          × IsTidyResult l)
unfolding merge
merge_cases diff_hunks removes adds =
    let n = length removes in
    let emit = ltb (length removes) (length adds) in
    let hunks = diff_hunks (removes ++ adds) in
    elim (Option-cases (resolve_all n emit hunks)) [
      | inl e ↦ let (l, f, t) = loop_unresolved n emit [] hunks e in inr (l, e, f, t)
      | inr (c, e) ↦ inl (c, e, loop_resolved n emit [] hunks c e)
    ]
