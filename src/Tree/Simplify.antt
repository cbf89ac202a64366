-- ===== src/Tree/Simplify.antt =====
-- `simplify_conflict` of lib/src/tree.rs, on conflicts whose parts are not themselves conflicts.
use jj.Prelude.{
  ◌-◌, ◌≡◌, refl, ap, sym, ◌∙◌, List, [], ◌∷◌, ◌++◌, append_assoc, append-nil, Bool, true, false,
}
use jj.Prelude.Counts.{count}
use jj.RepoPath.{RepoPath}
use jj.Backend.{TreeValue, ConflictPart, part_eq, Conflict}
use jj.Cancel.{cancel_pairs}
use jj.Cancel.Laws.{count-cancel_pairs}
use jj.Files.{Bytes, MergeResult}
use jj.Tree.{ok, Store, expand_adds, expand_removes, simplify_conflict}

abbrev is_conflict : TreeValue → Bool
is_conflict (TreeValue.conflict id) = true
is_conflict (TreeValue.normal id executable) = false
is_conflict (TreeValue.symlink id) = false
is_conflict (TreeValue.tree id) = false
is_conflict (TreeValue.git_submodule id) = false

-- No part is itself a conflict.
abbrev pub IsFlat : List ConflictPart → Type 0
IsFlat [] = Unit {0}
IsFlat (part ∷ parts) = (is_conflict part.value ≡ false) × IsFlat parts

module _ (store : Store) (merge : List Bytes → List Bytes → MergeResult) (path : RepoPath) where
  first_add :
      (v : TreeValue) (removes adds parts : List ConflictPart)
      → is_conflict v ≡ false
      → expand_adds store merge path removes adds (record { value = v } ∷ parts)
        ≡ expand_adds store merge path removes (adds ++ record { value = v } ∷ []) parts
  unfolding expand_adds
  first_add (TreeValue.conflict id) removes adds parts e = cc
  first_add (TreeValue.normal id executable) removes adds parts e = refl
  first_add (TreeValue.symlink id) removes adds parts e = refl
  first_add (TreeValue.tree id) removes adds parts e = refl
  first_add (TreeValue.git_submodule id) removes adds parts e = refl

  first_remove :
      (v : TreeValue) (removes adds parts : List ConflictPart)
      → is_conflict v ≡ false
      → expand_removes store merge path removes adds (record { value = v } ∷ parts)
        ≡ expand_removes store merge path (removes ++ record { value = v } ∷ []) adds parts
  unfolding expand_removes
  first_remove (TreeValue.conflict id) removes adds parts e = cc
  first_remove (TreeValue.normal id executable) removes adds parts e = refl
  first_remove (TreeValue.symlink id) removes adds parts e = refl
  first_remove (TreeValue.tree id) removes adds parts e = refl
  first_remove (TreeValue.git_submodule id) removes adds parts e = refl

  expand_adds-IsFlat :
      (removes adds parts : List ConflictPart)
      → IsFlat parts
      → expand_adds store merge path removes adds parts
        ≡ ok (record { removes = removes; adds = adds ++ parts })
  unfolding expand_adds
  expand_adds-IsFlat removes adds [] f =
      ap (λ l. ok (let c : Conflict = record { removes = removes; adds = l } in c))
        (sym (append-nil adds))
  expand_adds-IsFlat removes adds (part ∷ parts) f =
      first_add part.value removes adds parts f.0
      ∙ expand_adds-IsFlat removes (adds ++ part ∷ []) parts f.1
      ∙ ap (λ l. ok (let c : Conflict = record { removes = removes; adds = l } in c))
          (append_assoc adds (part ∷ []) parts)

  expand_removes-IsFlat :
      (removes adds parts : List ConflictPart)
      → IsFlat parts
      → expand_removes store merge path removes adds parts
        ≡ ok (record { removes = removes ++ parts; adds = adds })
  unfolding expand_removes
  expand_removes-IsFlat removes adds [] f =
      ap (λ l. ok (let c : Conflict = record { removes = l; adds = adds } in c))
        (sym (append-nil removes))
  expand_removes-IsFlat removes adds (part ∷ parts) f =
      first_remove part.value removes adds parts f.0
      ∙ expand_removes-IsFlat (removes ++ part ∷ []) adds parts f.1
      ∙ ap (λ l. ok (let c : Conflict = record { removes = l; adds = adds } in c))
          (append_assoc removes (part ∷ []) parts)

-- Simplifying a conflict none of whose parts is a conflict does not fail, and leaves each part only on
-- the side where it stood more often, as often as it stood there more.
pub count-simplify_conflict :
    (store : Store) (merge : List Bytes → List Bytes → MergeResult) (path : RepoPath)
    (conflict : Conflict)
    → IsFlat conflict.adds
    → IsFlat conflict.removes
    → (simple : Conflict) × (simplify_conflict store merge path conflict ≡ ok simple)
      × ((part : ConflictPart)
          → (count part simple.adds ≡ count part conflict.adds - count part conflict.removes)
            × (count part simple.removes ≡ count part conflict.removes - count part conflict.adds))
unfolding simplify_conflict
count-simplify_conflict store merge path conflict f g = (
  record {
    removes = (cancel_pairs conflict.adds conflict.removes).1;
    adds = (cancel_pairs conflict.adds conflict.removes).0;
  },
  rw
      (
        expand_adds-IsFlat store merge path [] [] conflict.adds f,
        expand_removes-IsFlat store merge path [] conflict.adds conflict.removes g,
        simplify_conflict,
      )
      refl,
  λ part. count-cancel_pairs part conflict.adds conflict.removes,
)
