-- ===== src/Matchers/Combined.antt =====
-- `DifferenceMatcher` and `IntersectionMatcher` of lib/src/matchers.rs keep a sound visit sound.
use jj.Prelude.{◌≡◌, refl, ◌≢◌, Bool, true, false, not, List, [], ◌∷◌, arith, and_true}
use jj.Prelude.Sets
use jj.RepoPath.{RepoPath, RepoPathComponent, component_eq}
use jj.Matchers.{
  VisitDirs, VisitFiles, Visit, all_recursively, specific, nothing, Matcher, visit_difference,
  difference_matcher, intersect_dirs, intersect_files, nothing_if_empty, visit_intersection,
  intersection_matcher,
}
use jj.Matchers.Sound.{below, in_dirs, in_files, wants_dir, wants_file, IsSoundVisit, IsSound}

difference_file :
    (v w : Visit) (c : RepoPathComponent)
    → w ≢ all_recursively
    → wants_file v c ≡ true
    → wants_file (visit_difference v w) c ≡ true
unfolding visit_difference
difference_file v all_recursively c n h = absurd (n refl)
difference_file v nothing c n h = h
difference_file all_recursively (specific ds fs) c n h = refl
difference_file (specific _ _) (specific ds fs) c n h = h
difference_file nothing (specific ds fs) c n h = h

difference_dir :
    (v w : Visit) (c : RepoPathComponent)
    → w ≢ all_recursively
    → wants_dir v c ≡ true
    → wants_dir (visit_difference v w) c ≡ true
unfolding visit_difference
difference_dir v all_recursively c n h = absurd (n refl)
difference_dir v nothing c n h = h
difference_dir all_recursively (specific ds fs) c n h = refl
difference_dir (specific _ _) (specific ds fs) c n h = h
difference_dir nothing (specific ds fs) c n h = h

difference_all :
    (v w : Visit) → visit_difference v w ≡ all_recursively → (v ≡ all_recursively) × (w ≡ nothing)
unfolding visit_difference
difference_all v w = ground arith

-- Where the visit is `Nothing`, nothing below the directory matches.
pub nothing_below :
    (matches : RepoPath → Bool) (dir : RepoPath) (v : Visit)
    → IsSoundVisit matches dir v
    → v ≡ nothing
    → (c : RepoPathComponent) (rest : List RepoPathComponent) → matches (below dir c rest) ≡ false
nothing_below matches dir v s e c [] = ground (arith, s.files c)
nothing_below matches dir v s e c (d ∷ rest) = ground (arith, s.dirs c d rest)

-- If both inputs' visits are sound, so is the visit of the difference.
pub difference_matcher-IsSound :
    (wanted unwanted : Matcher)
    → IsSound wanted
    → IsSound unwanted
    → IsSound (difference_matcher wanted unwanted)
unfolding difference_matcher
difference_matcher-IsSound wanted unwanted s t dir =
    let v = wanted.visit dir in
    let w = unwanted.visit dir in
    let escapes =
      λ (c : RepoPathComponent) (rest : List RepoPathComponent)
          (h : not (unwanted.matches (below dir c rest)) ≡ true) (e : w ≡ all_recursively).
        all_matches c rest h ((t dir).guaranteed e c rest) in
    record {
      files = λ c h.
          let (yes_wanted, not_unwanted) = and_true (wanted.matches (below dir c [])) _ h in
          difference_file v w c (escapes c [] not_unwanted) ((s dir).files c yes_wanted);
      dirs = λ c d rest h.
          let (yes_wanted, not_unwanted) = and_true (wanted.matches (below dir c (d ∷ rest))) _ h in
          difference_dir v w c (escapes c (d ∷ rest) not_unwanted)
            ((s dir).dirs c d rest yes_wanted);
      guaranteed = λ e c rest.
          let (v_all, w_nothing) = difference_all v w e in
          ground (
            arith,
            (s dir).guaranteed v_all c rest,
            nothing_below unwanted.matches dir w (t dir) w_nothing c rest,
          );
    }
  where
    all_matches :
        (c : RepoPathComponent) (rest : List RepoPathComponent)
        → not (unwanted.matches (below dir c rest)) ≡ true
        → unwanted.matches (below dir c rest) ≡ true
        → ⊥
    all_matches c rest h k = ground arith

intersection_file :
    (v w : Visit) (c : RepoPathComponent)
    → wants_file v c ≡ true
    → wants_file w c ≡ true
    → wants_file (visit_intersection v w) c ≡ true
unfolding visit_intersection intersect_files intersect_dirs nothing_if_empty
intersection_file all_recursively w c h k = k
intersection_file nothing w c h k = h
intersection_file (specific _ _) all_recursively c h k = h
intersection_file (specific _ _) nothing c h k = k
intersection_file (specific ds fs) (specific es gs) c h k =
    listed_file (intersect_dirs ds es) (intersect_files fs gs) c (both fs gs h k)
  where
    both :
        (fs gs : VisitFiles)
        → in_files fs c ≡ true
        → in_files gs c ≡ true
        → in_files (intersect_files fs gs) c ≡ true
    both VisitFiles.all gs h k = k
    both (VisitFiles.set fs) VisitFiles.all h k = h
    both (VisitFiles.set fs) (VisitFiles.set gs) h k =
        ground (arith, Sets.contains-intersection fs gs c)

    listed_file :
        (ds : VisitDirs) (fs : VisitFiles) (c : RepoPathComponent)
        → in_files fs c ≡ true
        → wants_file (nothing_if_empty ds fs) c ≡ true
    listed_file VisitDirs.all fs c h = h
    listed_file (VisitDirs.set ds) VisitFiles.all c h = h
    listed_file (VisitDirs.set ds) (VisitFiles.set []) c h = cc
    listed_file (VisitDirs.set []) (VisitFiles.set (f ∷ fs)) c h = h
    listed_file (VisitDirs.set (_ ∷ _)) (VisitFiles.set (f ∷ fs)) c h = h

intersection_dir :
    (v w : Visit) (c : RepoPathComponent)
    → wants_dir v c ≡ true
    → wants_dir w c ≡ true
    → wants_dir (visit_intersection v w) c ≡ true
unfolding visit_intersection intersect_files intersect_dirs nothing_if_empty
intersection_dir all_recursively w c h k = k
intersection_dir nothing w c h k = h
intersection_dir (specific _ _) all_recursively c h k = h
intersection_dir (specific _ _) nothing c h k = k
intersection_dir (specific ds fs) (specific es gs) c h k =
    listed_dir (intersect_dirs ds es) (intersect_files fs gs) c (both ds es h k)
  where
    both :
        (ds es : VisitDirs)
        → in_dirs ds c ≡ true
        → in_dirs es c ≡ true
        → in_dirs (intersect_dirs ds es) c ≡ true
    both VisitDirs.all es h k = k
    both (VisitDirs.set ds) VisitDirs.all h k = h
    both (VisitDirs.set ds) (VisitDirs.set es) h k =
        ground (arith, Sets.contains-intersection ds es c)

    listed_dir :
        (ds : VisitDirs) (fs : VisitFiles) (c : RepoPathComponent)
        → in_dirs ds c ≡ true
        → wants_dir (nothing_if_empty ds fs) c ≡ true
    listed_dir VisitDirs.all fs c h = h
    listed_dir (VisitDirs.set ds) VisitFiles.all c h = h
    listed_dir (VisitDirs.set []) (VisitFiles.set fs) c h = cc
    listed_dir (VisitDirs.set (d ∷ ds)) (VisitFiles.set fs) c h = h

intersection_all :
    (v w : Visit)
    → visit_intersection v w ≡ all_recursively
    → (v ≡ all_recursively) × (w ≡ all_recursively)
unfolding visit_intersection nothing_if_empty
intersection_all all_recursively w h = (refl, h)
intersection_all nothing w h = cc
intersection_all (specific _ _) all_recursively h = cc
intersection_all (specific _ _) nothing h = cc
intersection_all (specific ds fs) (specific es gs) h = ground arith

-- If both inputs' visits are sound, so is the visit of the intersection.
pub intersection_matcher-IsSound :
    (input1 input2 : Matcher)
    → IsSound input1
    → IsSound input2
    → IsSound (intersection_matcher input1 input2)
unfolding intersection_matcher
intersection_matcher-IsSound input1 input2 s t dir =
    let v = input1.visit dir in
    let w = input2.visit dir in
    record {
      files = λ c h.
          let (one, two) = and_true (input1.matches (below dir c [])) _ h in
          intersection_file v w c ((s dir).files c one) ((t dir).files c two);
      dirs = λ c d rest h.
          let (one, two) = and_true (input1.matches (below dir c (d ∷ rest))) _ h in
          intersection_dir v w c ((s dir).dirs c d rest one) ((t dir).dirs c d rest two);
      guaranteed = λ e c rest.
          let (one, two) = intersection_all v w e in
          ground (arith, (s dir).guaranteed one c rest, (t dir).guaranteed two c rest);
    }
