-- ===== src/Matchers/Dirs.antt =====
-- `Dirs` of lib/src/matchers.rs: which subdirectories and files of each directory are to be visited.
-- The `loop` of `add_dir` takes fuel, one round more than the path has components.
use jj.Prelude.{ℕ, zero, suc, true, false, Option, none, some, List, [], length}
use jj.Prelude.Outcome.{Outcome, done, panic, out_of_fuel, ◌>>=◌}
use jj.Prelude.Maps
use jj.Prelude.Maps.{Map}
use jj.Prelude.Sets
use jj.RepoPath
use jj.RepoPath.{RepoPath, RepoPathComponent, component_eq, path_eq}

pub record Dirs : Type 0 where
  pub dirs : Map RepoPath (List RepoPathComponent)
  pub files : Map RepoPath (List RepoPathComponent)

-- `Dirs::new`
unfoldable pub new : Dirs
new = record { dirs = []; files = [] }

-- `children.insert(child)` under `if let Some(child) = maybe_child`
unfoldable pub insert_child :
    Option RepoPathComponent → List RepoPathComponent → List RepoPathComponent
insert_child none children = children
insert_child (some child) children = Sets.insert child children

-- `entry(dir).or_default()` and the insertion into it
unfoldable pub enter :
    RepoPath
    → Option RepoPathComponent
    → Map RepoPath (List RepoPathComponent)
    → Map RepoPath (List RepoPathComponent)
enter dir maybe_child m = Maps.insert dir (insert_child maybe_child (Maps.get_or m dir [])) m

-- The `loop` of `add_dir`.
unfoldable pub add_dir_loop :
    ℕ
    → Map RepoPath (List RepoPathComponent)
    → RepoPath
    → Option RepoPathComponent
    → Outcome (Map RepoPath (List RepoPathComponent))
add_dir_loop zero m dir maybe_child = out_of_fuel
add_dir_loop (suc fuel) m dir maybe_child = elim (Maps.has_key m dir) [
  | true ↦ done (enter dir maybe_child m)
  | false ↦ elim (RepoPath.split dir) [
    | none ↦ done (enter dir maybe_child m)
    | some (new_dir, new_child) ↦
        add_dir_loop fuel (enter dir maybe_child m) new_dir (some new_child)
  ]
]

unfoldable pub add_dir : Dirs → RepoPath → Outcome Dirs
add_dir self dir = add_dir_loop (suc (length dir.components)) self.dirs dir none >>= λ dirs.
    done (record self { dirs = dirs })

-- It panics on the root, which has no file name.
unfoldable pub add_file : Dirs → RepoPath → Outcome Dirs
add_file self file = elim (RepoPath.split file) [
  | none ↦ panic
  | some (dir, basename) ↦ add_dir self dir >>= λ self'.
      done (record self' { files = enter dir (some basename) self'.files })
]

unfoldable pub get_dirs : Dirs → RepoPath → List RepoPathComponent
get_dirs self dir = Maps.get_or self.dirs dir []

unfoldable pub get_files : Dirs → RepoPath → List RepoPathComponent
get_files self dir = Maps.get_or self.files dir []
