-- ===== src/Matchers/Files.antt =====
-- `FilesMatcher` of lib/src/matchers.rs.
use jj.Prelude.{
  ◌⊎◌, ◌≡◌, refl, sym, ◌∙◌, subst, inl, inr, ◌↔◌, true, false, some, List, [], ◌∷◌, beq_of_ne,
  or_true, subst₂, eq_of_beq, ◌==◌, beq_iff,
}
use jj.Prelude.Outcome.{done, panic, ◌>>=◌}
use jj.Prelude.Maps
use jj.Prelude.Sets
use jj.RepoPath
use jj.RepoPath.{RepoPath, RepoPathComponent, component_eq, path_eq}
use jj.RepoPath.Join.{RepoPath-cases, split-join, join_injective}
use jj.Matchers.{FilesMatcher, files_matcher, new_files_matcher, add_files, sets}
use jj.Matchers.Dirs.{Dirs, new, enter, add_file, get_dirs, get_files}
use jj.Matchers.Closed.{
  IsClosed, Grows, Grows-trans, Has, ChildOf, add_dir_registers, Registered, ChildOf-descendant,
  split-root, root_ne_join, enter-Grows, ChildOf-enter,
}
use jj.Matchers.Sound.{
  below, IsSound, IsSoundVisit, below-join, wants_file-sets, wants_dir-sets, sets_ne_all,
}

-- A file is listed in its directory, and its directory is registered.
pub record IsListed (d : Dirs) (dir : RepoPath) (basename : RepoPathComponent) : Type 0 where
  pub registered : Has d.dirs dir
  pub listed : ChildOf d.files dir basename

-- The directories are closed, and nothing registered before is lost.
pub record Extends (d d' : Dirs) : Type 0 where
  pub dirs : Grows d.dirs d'.dirs
  pub files : Grows d.files d'.files

pub Extends-IsListed :
    {d d' : Dirs} {dir : RepoPath} {c : RepoPathComponent}
    → Extends d d'
    → IsListed d dir c
    → IsListed d' dir c
Extends-IsListed {dir} {c} e l = record {
  registered = e.dirs.keys dir l.registered;
  listed = e.files.children dir c l.listed;
}

pub Extends-trans : {a b c : Dirs} → Extends a b → Extends b c → Extends a c
Extends-trans e f = record { dirs = Grows-trans e.dirs f.dirs; files = Grows-trans e.files f.files }

pub Extends-refl : (d : Dirs) → Extends d d
Extends-refl d = record {
  dirs = record { keys = λ q h. h; children = λ q c h. h };
  files = record { keys = λ q h. h; children = λ q c h. h };
}

pub Registered-Extends : {d d' : Dirs} {dir : RepoPath} → Registered d dir d' → Extends d d'
Registered-Extends {d} {d'} r = record {
  dirs = r.grows;
  files = subst (Grows d.files) (sym r.same_files) (Extends-refl d).files;
}

-- `add_file` panics at the root only, and lists any other path in its directory.
pub add_file-join :
    (d : Dirs) (dir : RepoPath) (basename : RepoPathComponent)
    → IsClosed d.dirs
    → (d' : Dirs) × (add_file d (RepoPath.join dir basename) ≡ done d')
      × IsClosed d'.dirs
      × Extends d d'
      × IsListed d' dir basename
unfolding add_file
add_file-join d dir basename closed =
    let (d1, r) = add_dir_registers d dir closed in
    let d2 = record d1 { files = enter dir (some basename) d1.files } in
    (
      d2,
      rw (add_file, split-join dir basename, r.added, ◌>>=◌) refl,
      r.closed,
      Extends-trans (Registered-Extends r) (record {
        dirs = record { keys = λ q h. h; children = λ q c h. h };
        files = enter-Grows dir (some basename) d1.files;
      }),
      record {
        registered = r.entered;
        listed = ChildOf-enter dir (some basename) d1.files basename refl;
      },
    )

pub add_file-root : (d : Dirs) → add_file d RepoPath.root ≡ panic
unfolding add_file
add_file-root d = rw (add_file, split-root) refl

abbrev AllListed : Dirs → List RepoPath → Type 0
AllListed d files =
    (dir : RepoPath) (c : RepoPathComponent)
    → Sets.contains files (RepoPath.join dir c) ≡ true
    → IsListed d dir c

-- What the loop of `FilesMatcher::new` leaves.
record AddsFiles (d : Dirs) (files : List RepoPath) (d' : Dirs) : Type 0 where
  added : add_files d files ≡ done d'
  closed : IsClosed d'.dirs
  extends : Extends d d'
  listed : AllListed d' files

first-AllListed :
    (d : Dirs) (f dir : RepoPath) (base : RepoPathComponent) (files : List RepoPath)
    → f ≡ RepoPath.join dir base
    → IsListed d dir base
    → AllListed d files
    → AllListed d (f ∷ files)
first-AllListed d f dir base files e one others q c h = elim (or_true _ _ h) [
  | inr k ↦ others q c k
  | inl k ↦
      let (p, b) = join_injective dir q base c (sym e ∙ eq_of_beq f (RepoPath.join q c) k) in
      subst₂ (λ x y. IsListed d x y) p b one
]

-- It panics if the root is among the files, and ends with all files listed if not.
add_files_cases :
    (d : Dirs) (files : List RepoPath)
    → IsClosed d.dirs
    → ((Sets.contains files RepoPath.root ≡ true) × (add_files d files ≡ panic))
      ⊎ ((Sets.contains files RepoPath.root ≡ false) × ((d' : Dirs) × AddsFiles d files d'))
unfolding add_files
add_files_cases d [] closed = inr (
  refl,
  (d, record { added = refl; closed = closed; extends = Extends-refl d; listed = λ dir c k. cc }),
)
add_files_cases d (f ∷ files) closed = elim (RepoPath-cases f) [
  | inl e ↦
      inl (rw ((beq_iff f RepoPath.root).1 e) refl, rw (add_files, e, add_file-root d, ◌>>=◌) refl)
  | inr (dir, base, e) ↦
      let (d1, added, closed1, extends1, listed1) = add_file-join d dir base closed in
      let other : (f == RepoPath.root) ≡ false =
        beq_of_ne f RepoPath.root (λ k. root_ne_join dir base (sym k ∙ e)) in
      elim (add_files_cases d1 files closed1) [
        | inl (there, panics) ↦ inl (rw other there, rw (add_files, e, added, ◌>>=◌) panics)
        | inr (absent, (d2, rest)) ↦ inr (
          rw other absent,
          (
            d2,
            record {
              added = rw (add_files, e, added, ◌>>=◌) rest.added;
              closed = rest.closed;
              extends = Extends-trans extends1 rest.extends;
              listed =
                  first-AllListed d2 f dir base files e (Extends-IsListed rest.extends listed1)
                    rest.listed;
            },
          ),
        )
      ]
]

pub new-IsClosed : IsClosed new.dirs
unfolding new Maps.has_key Maps.get
new-IsClosed dir c h = cc

-- `FilesMatcher::new` panics exactly on the sets of files that hold the root.
pub new_files_matcher_panics :
    (files : List RepoPath)
    → (new_files_matcher files ≡ panic) ↔ (Sets.contains files RepoPath.root ≡ true)
unfolding new_files_matcher
new_files_matcher_panics files = elim (add_files_cases new files new-IsClosed) [
  | inl (there, panics) ↦ (λ _. there, λ _. rw (new_files_matcher, panics, ◌>>=◌) refl)
  | inr (absent, (d, adds)) ↦
      let built : new_files_matcher files ≡ done (record { files = files; dirs = d }) =
        rw (new_files_matcher, adds.added, ◌>>=◌) refl in
      (λ h. cc (h, built), λ h. cc (h, absent))
]

module _ (d : Dirs) (closed : IsClosed d.dirs) (files : List RepoPath)
    (listed : AllListed d files) where
  listed-IsSoundVisit :
      (dir : RepoPath)
      → IsSoundVisit
          (λ file. Sets.contains files file)
          dir
          (sets (get_dirs d dir) (get_files d dir))
  unfolding get_dirs get_files RepoPath.join
  listed-IsSoundVisit dir = record {
    files = λ c h. wants_file-sets (get_dirs d dir) (get_files d dir) c ∙ (listed dir c h).listed;
    dirs = λ c e rest h.
        let (front, z, eq) = below-join dir c e rest in
        let there =
          (listed (below dir c front) z
            (subst (λ p. Sets.contains files p ≡ true) eq h)).registered in
        wants_dir-sets (get_dirs d dir) (get_files d dir) c
        ∙ ChildOf-descendant d.dirs closed dir c front there;
    guaranteed = λ e c rest. absurd (sets_ne_all (get_dirs d dir) (get_files d dir) e);
  }

-- Unless the root is among the files, `FilesMatcher::new` ends without a panic; the matcher that it
-- builds matches exactly the given files, and its visits are sound.
pub files_matcher-IsSound :
    (files : List RepoPath)
    → Sets.contains files RepoPath.root ≡ false
    → (m : FilesMatcher) × (new_files_matcher files ≡ done m)
      × ((file : RepoPath) → (files_matcher m).matches file ≡ Sets.contains files file)
      × IsSound (files_matcher m)
unfolding files_matcher new_files_matcher
files_matcher-IsSound files no_root = elim (add_files_cases new files new-IsClosed) [
  | inl (there, _) ↦ cc (there, no_root)
  | inr (_, (d, adds)) ↦ (
    record { files = files; dirs = d },
    rw (new_files_matcher, adds.added, ◌>>=◌) refl,
    λ file. refl,
    listed-IsSoundVisit d adds.closed files adds.listed,
  )
]
