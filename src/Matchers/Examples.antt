-- ===== src/Matchers/Examples.antt =====
-- Tests and instances for lib/src/matchers.rs.
use jj.Prelude.{subst, false, ◌≡◌, refl, ◌↔◌, true, none, List, [], ◌∷◌, arith}
use jj.Prelude.Outcome.{done, panic, out_of_fuel}
use jj.Prelude.Maps
use jj.Prelude.Sets
use jj.RepoPath
use jj.RepoPath.{RepoPath, RepoPathComponent, path_eq}
use jj.RepoPath.Examples.{dir_component, file_component, dir_path, file_path}
use jj.Matchers.{
  specific, VisitDirs, VisitFiles, sets, FilesMatcher, PrefixMatcher, files_matcher,
  new_files_matcher, add_files, prefix_matcher, new_prefix_matcher, difference_matcher,
  intersection_matcher,
}
use jj.Matchers.Dirs.{
  new, add_dir, add_dir_loop, add_file, enter, insert_child, get_dirs, get_files,
}
use jj.Matchers.Closed.{Children, Registers, add_dir_loop_lem}
use jj.Matchers.Sound.{IsSound}
use jj.Matchers.Files.{files_matcher-IsSound, new_files_matcher_panics}
use jj.Matchers.Prefix.{prefix_matcher-IsSound}
use jj.Matchers.Combined.{difference_matcher-IsSound, intersection_matcher-IsSound}

abbrev files : List RepoPath
files = file_path ∷ []

-- The matcher of the one file dir/f.
abbrev one_file : FilesMatcher
one_file = record {
  files = files;
  dirs = record {
    dirs = (dir_path, []) ∷ (record { components = [] }, dir_component ∷ []) ∷ [];
    files = (dir_path, file_component ∷ []) ∷ [];
  };
}

new_one_file : new_files_matcher files ≡ done one_file
unfolding new_files_matcher add_files add_file add_dir add_dir_loop enter insert_child new
    Maps.insert Maps.get_or Maps.get Maps.has_key RepoPath.split RepoPath.parent RepoPath.is_root
new_one_file = refl

visit_root :
    (files_matcher one_file).visit (record { components = [] })
    ≡ specific (VisitDirs.set (dir_component ∷ [])) (VisitFiles.set [])
unfolding files_matcher sets get_dirs get_files Maps.get_or Maps.get
visit_root = refl

visit_dir :
    (files_matcher one_file).visit dir_path
    ≡ specific (VisitDirs.set []) (VisitFiles.set (file_component ∷ []))
unfolding files_matcher sets get_dirs get_files Maps.get_or Maps.get
visit_dir = refl

files_lack_root : Sets.contains files RepoPath.root ≡ false
unfolding RepoPath.root
files_lack_root = refl

one_file-IsSound : IsSound (files_matcher one_file)
one_file-IsSound =
    let (m, built, _, sound) = files_matcher-IsSound files files_lack_root in
    let same : m ≡ one_file = cc (built, new_one_file) in
    subst (λ x. IsSound (files_matcher x)) same sound

files_matcher-IsSound_example :
    (m : FilesMatcher) × (new_files_matcher files ≡ done m)
    × ((file : RepoPath) → (files_matcher m).matches file ≡ Sets.contains files file)
    × IsSound (files_matcher m)
files_matcher-IsSound_example = files_matcher-IsSound files files_lack_root

new_files_matcher_panics_example :
    (new_files_matcher files ≡ panic) ↔ (Sets.contains files RepoPath.root ≡ true)
new_files_matcher_panics_example = new_files_matcher_panics files

prefix_matcher-IsSound_example :
    (m : PrefixMatcher) × (new_prefix_matcher (dir_path ∷ []) ≡ done m)
    × ((file : RepoPath)
        → ((prefix_matcher m).matches file ≡ true) ↔ (
            (p : RepoPath) × (Sets.contains (dir_path ∷ []) p ≡ true)
            × (RepoPath.contains p file ≡ true)))
    × IsSound (prefix_matcher m)
prefix_matcher-IsSound_example = prefix_matcher-IsSound (dir_path ∷ [])

difference_matcher-IsSound_example :
    IsSound (difference_matcher (files_matcher one_file) (files_matcher one_file))
difference_matcher-IsSound_example =
    difference_matcher-IsSound (files_matcher one_file) (files_matcher one_file) one_file-IsSound
      one_file-IsSound

intersection_matcher-IsSound_example :
    IsSound (intersection_matcher (files_matcher one_file) (files_matcher one_file))
intersection_matcher-IsSound_example =
    intersection_matcher-IsSound (files_matcher one_file) (files_matcher one_file) one_file-IsSound
      one_file-IsSound

add_dir_loop_lem_example :
    (m' : Children) × (add_dir_loop 3 [] file_path none ≡ done m') × Registers file_path none [] m'
add_dir_loop_lem_example = add_dir_loop_lem 3 [] file_path none (omega arith)

add_dir_loop_too_short : add_dir_loop 2 [] file_path none ≡ out_of_fuel
unfolding add_dir_loop enter insert_child Maps.insert Maps.get_or Maps.get Maps.has_key
    RepoPath.split RepoPath.parent RepoPath.is_root
add_dir_loop_too_short = refl
