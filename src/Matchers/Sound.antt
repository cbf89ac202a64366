-- ===== src/Matchers/Sound.antt =====
-- What `Matcher::visit` of lib/src/matchers.rs promises a walk of the tree.
use jj.Prelude.{
  ◌≡◌, refl, sym, ap, ◌∙◌, append_assoc, unsnoc, Bool, true, false, List, [], ◌∷◌, ◌++◌, arith,
}
use jj.Prelude.Sets
use jj.RepoPath
use jj.RepoPath.{RepoPath, RepoPathComponent, component_eq}
use jj.Matchers.{VisitDirs, VisitFiles, Visit, all_recursively, specific, nothing, sets, Matcher}

-- The path of a component, and of further ones, below a directory.
abbrev pub below : RepoPath → RepoPathComponent → List RepoPathComponent → RepoPath
below dir c rest = record { components = dir.components ++ c ∷ rest }

abbrev pub in_dirs : VisitDirs → RepoPathComponent → Bool
in_dirs VisitDirs.all c = true
in_dirs (VisitDirs.set cs) c = Sets.contains cs c

abbrev pub in_files : VisitFiles → RepoPathComponent → Bool
in_files VisitFiles.all c = true
in_files (VisitFiles.set cs) c = Sets.contains cs c

-- Whether a walk that heeds the visit descends into a subdirectory, or looks at a file.
abbrev pub wants_dir : Visit → RepoPathComponent → Bool
wants_dir all_recursively c = true
wants_dir (specific dirs files) c = in_dirs dirs c
wants_dir nothing c = false

abbrev pub wants_file : Visit → RepoPathComponent → Bool
wants_file all_recursively c = true
wants_file (specific dirs files) c = in_files files c
wants_file nothing c = false

-- No matching path is missed, and `AllRecursively` is a guarantee.
pub record IsSoundVisit (matches : RepoPath → Bool) (dir : RepoPath) (visit : Visit) : Type 0 where
  pub files : (c : RepoPathComponent) → matches (below dir c []) ≡ true → wants_file visit c ≡ true
  pub dirs :
      (c d : RepoPathComponent) (rest : List RepoPathComponent)
      → matches (below dir c (d ∷ rest)) ≡ true
      → wants_dir visit c ≡ true
  pub guaranteed :
      visit ≡ all_recursively
      → (c : RepoPathComponent) (rest : List RepoPathComponent) → matches (below dir c rest) ≡ true

abbrev pub IsSound : Matcher → Type 0
IsSound m = (dir : RepoPath) → IsSoundVisit m.matches dir (m.visit dir)

pub wants_file-sets :
    (ds fs : List RepoPathComponent) (c : RepoPathComponent)
    → wants_file (sets ds fs) c ≡ Sets.contains fs c
unfolding sets
wants_file-sets ds [] c = ground arith
wants_file-sets [] (f ∷ fs) c = refl
wants_file-sets (d ∷ ds) (f ∷ fs) c = refl

pub wants_dir-sets :
    (ds fs : List RepoPathComponent) (c : RepoPathComponent)
    → wants_dir (sets ds fs) c ≡ Sets.contains ds c
unfolding sets
wants_dir-sets [] [] c = refl
wants_dir-sets [] (f ∷ fs) c = refl
wants_dir-sets (d ∷ ds) fs c = refl

pub sets_ne_all : (ds fs : List RepoPathComponent) → sets ds fs ≡ all_recursively → ⊥
unfolding sets
sets_ne_all ds fs = ground arith

-- A path two or more components below a directory has its parent below that directory.
pub below-join :
    (dir : RepoPath) (c d : RepoPathComponent) (rest : List RepoPathComponent)
    → (front : List RepoPathComponent) × (z : RepoPathComponent) × (below dir c (d ∷ rest)
        ≡ RepoPath.join (below dir c front) z)
unfolding RepoPath.join
below-join dir c d rest =
    let (front, z, e) = unsnoc d rest in (front, z, regroup front z (ap (below dir c) e))
  where
    regroup :
        (front : List RepoPathComponent) (z : RepoPathComponent)
        → below dir c (d ∷ rest) ≡ below dir c (front ++ z ∷ [])
        → below dir c (d ∷ rest) ≡ RepoPath.join (below dir c front) z
    regroup front z e =
        e
        ∙ ap (λ l. let p : RepoPath = record { components = l } in p)
            (sym (append_assoc dir.components (c ∷ front) (z ∷ [])))
