-- ===== src/Matchers.antt =====
-- lib/src/matchers.rs: which paths a command is about, and which directories a walk must visit.
-- A `HashSet` is a list that is read by membership; the order in which one is iterated is that of
-- the list, and the theorems hold for every such order. A `&dyn Matcher` is the record of its two
-- methods.
pub mod Dirs
pub mod Closed
pub mod Sound
pub mod Files
pub mod Prefix
pub mod Combined
pub mod Examples
use jj.Prelude.{
  ℕ, zero, suc, Bool, true, false, not, ◌&&◌, Option, none, some, List, [], ◌∷◌, if◌then◌else◌,
  length, is_empty, take,
}
use jj.Prelude.Outcome.{Outcome, done, ◌>>=◌}
use jj.Prelude.Sets
use jj.RepoPath
use jj.RepoPath.{RepoPath, RepoPathComponent, component_eq, path_eq}
use Dirs.{add_dir, add_file, get_dirs, get_files}

pub data VisitDirs : Type 0 where
  all : VisitDirs
  set : List RepoPathComponent → VisitDirs

pub data VisitFiles : Type 0 where
  all : VisitFiles
  set : List RepoPathComponent → VisitFiles

pub data Visit : Type 0 where
  all_recursively : Visit
  specific : VisitDirs → VisitFiles → Visit
  nothing : Visit

unfoldable pub sets : List RepoPathComponent → List RepoPathComponent → Visit
sets dirs files =
    if is_empty dirs && is_empty files
    then nothing
    else specific (VisitDirs.set dirs) (VisitFiles.set files)

-- `Visit::is_nothing`, by the derived `==`
unfoldable pub is_nothing : Visit → Bool
is_nothing nothing = true
is_nothing all_recursively = false
is_nothing (specific dirs files) = false

-- The trait `Matcher`.
pub record Matcher : Type 0 where
  pub matches : RepoPath → Bool
  pub visit : RepoPath → Visit

unfoldable pub nothing_matcher : Matcher
nothing_matcher = record { matches = λ _. false; visit = λ _. nothing }

unfoldable pub everything_matcher : Matcher
everything_matcher = record { matches = λ _. true; visit = λ _. all_recursively }

pub record FilesMatcher : Type 0 where
  pub files : List RepoPath
  pub dirs : Dirs.Dirs

-- The loop of `FilesMatcher::new`.
unfoldable pub add_files : Dirs.Dirs → List RepoPath → Outcome Dirs.Dirs
add_files dirs [] = done dirs
add_files dirs (f ∷ files) = add_file dirs f >>= λ dirs'. add_files dirs' files

unfoldable pub new_files_matcher : List RepoPath → Outcome FilesMatcher
new_files_matcher files =
    add_files Dirs.new files >>= λ dirs. done (record { files = files; dirs = dirs })

unfoldable pub files_matcher : FilesMatcher → Matcher
files_matcher self = record {
  matches = λ file. Sets.contains self.files file;
  visit = λ dir. sets (get_dirs self.dirs dir) (get_files self.dirs dir);
}

pub record PrefixMatcher : Type 0 where
  pub prefixes : List RepoPath
  pub dirs : Dirs.Dirs

-- The body of the loop of `PrefixMatcher::new`.
unfoldable pub add_prefix : Dirs.Dirs → RepoPath → Outcome Dirs.Dirs
add_prefix dirs prefix = add_dir dirs prefix >>= λ dirs'.
    if not (RepoPath.is_root prefix) then add_file dirs' prefix else done dirs'

unfoldable pub add_prefixes : Dirs.Dirs → List RepoPath → Outcome Dirs.Dirs
add_prefixes dirs [] = done dirs
add_prefixes dirs (p ∷ prefixes) = add_prefix dirs p >>= λ dirs'. add_prefixes dirs' prefixes

unfoldable pub new_prefix_matcher : List RepoPath → Outcome PrefixMatcher
new_prefix_matcher paths =
    let prefixes = Sets.collect paths in
    add_prefixes Dirs.new prefixes >>= λ dirs. done (record { prefixes = prefixes; dirs = dirs })

-- `for i in 0..components.len() + 1`: the next `i` and the rounds that are left
unfoldable pub any_prefix : List RepoPath → List RepoPathComponent → ℕ → ℕ → Bool
any_prefix prefixes components i zero = false
any_prefix prefixes components i (suc rounds) =
    let rest = any_prefix prefixes components (suc i) rounds in
    if Sets.contains prefixes (RepoPath.from_components (take i components)) then true else rest

unfoldable pub prefix_matches : PrefixMatcher → RepoPath → Bool
prefix_matches self file = any_prefix self.prefixes file.components 0 (suc (length file.components))

unfoldable pub prefix_matcher : PrefixMatcher → Matcher
prefix_matcher self = record {
  matches = prefix_matches self;
  visit = λ dir.
      if prefix_matches self dir
      then all_recursively
      else sets (get_dirs self.dirs dir) (get_files self.dirs dir);
}

-- What `DifferenceMatcher::visit` makes of the two visits.
unfoldable pub visit_difference : Visit → Visit → Visit
visit_difference wanted all_recursively = nothing
visit_difference wanted nothing = wanted
visit_difference all_recursively (specific dirs files) = specific VisitDirs.all VisitFiles.all
visit_difference wanted (specific dirs files) = wanted

unfoldable pub difference_matcher : Matcher → Matcher → Matcher
difference_matcher wanted unwanted = record {
  matches = λ file. wanted.matches file && not (unwanted.matches file);
  visit = λ dir. visit_difference (wanted.visit dir) (unwanted.visit dir);
}

unfoldable pub intersect_dirs : VisitDirs → VisitDirs → VisitDirs
intersect_dirs VisitDirs.all dirs2 = dirs2
intersect_dirs (VisitDirs.set dirs1) VisitDirs.all = VisitDirs.set dirs1
intersect_dirs (VisitDirs.set dirs1) (VisitDirs.set dirs2) =
    VisitDirs.set (Sets.intersection dirs1 dirs2)

unfoldable pub intersect_files : VisitFiles → VisitFiles → VisitFiles
intersect_files VisitFiles.all files2 = files2
intersect_files (VisitFiles.set files1) VisitFiles.all = VisitFiles.set files1
intersect_files (VisitFiles.set files1) (VisitFiles.set files2) =
    VisitFiles.set (Sets.intersection files1 files2)

-- The last `match` of `IntersectionMatcher::visit`.
unfoldable pub nothing_if_empty : VisitDirs → VisitFiles → Visit
nothing_if_empty (VisitDirs.set dirs) (VisitFiles.set files) =
    if is_empty dirs && is_empty files
    then nothing
    else specific (VisitDirs.set dirs) (VisitFiles.set files)
nothing_if_empty dirs files = specific dirs files

unfoldable pub visit_intersection : Visit → Visit → Visit
visit_intersection all_recursively visit2 = visit2
visit_intersection nothing visit2 = nothing
visit_intersection (specific dirs1 files1) all_recursively = specific dirs1 files1
visit_intersection (specific dirs1 files1) nothing = nothing
visit_intersection (specific dirs1 files1) (specific dirs2 files2) =
    nothing_if_empty (intersect_dirs dirs1 dirs2) (intersect_files files1 files2)

unfoldable pub intersection_matcher : Matcher → Matcher → Matcher
intersection_matcher input1 input2 = record {
  matches = λ file. input1.matches file && input2.matches file;
  visit = λ dir. visit_intersection (input1.visit dir) (input2.visit dir);
}
