-- ===== src/Matchers/Closed.antt =====
-- `add_dir` and `add_file` of lib/src/matchers.rs register a path under each of its ancestors.
use jj.Prelude.{
  ◌≢◌, ℕ, zero, suc, ◌<◌, ◌≡◌, refl, sym, ap, ◌∙◌, subst, ◌⊎◌, inl, inr, true, Option, none, some,
  List, [], ◌∷◌, ◌++◌, arith, Bool-cases, length, length-append, beq_iff, eq_refl,
}
use mathlib.Core.List.{append_assoc, append-nil}
use jj.Prelude.Outcome.{done, ◌>>=◌}
use jj.Prelude.Maps
use jj.Prelude.Maps.{Map}
use jj.Prelude.Sets
use jj.RepoPath
use jj.RepoPath.{RepoPath, RepoPathComponent, component_eq, path_eq}
use jj.RepoPath.Join.{split_cases, split-join, join_injective}
use jj.Matchers.Dirs.{Dirs, insert_child, enter, add_dir_loop, add_dir}

abbrev pub Children : Type 0
Children = Map RepoPath (List RepoPathComponent)

abbrev pub Has : Children → RepoPath → Type 0
Has m dir = Maps.has_key m dir ≡ true

abbrev pub ChildOf : Children → RepoPath → RepoPathComponent → Type 0
ChildOf m dir c = Sets.contains (Maps.get_or m dir []) c ≡ true

-- Every directory that is registered is a registered child of its parent.
abbrev pub IsClosed : Children → Type 0
IsClosed m =
    (dir : RepoPath) (c : RepoPathComponent)
    → Has m (RepoPath.join dir c)
    → Has m dir × ChildOf m dir c

-- The same but for one child that the next round enters.
abbrev pub IsClosedBut : RepoPath → Option RepoPathComponent → Children → Type 0
IsClosedBut next maybe_child m =
    (dir : RepoPath) (c : RepoPathComponent)
    → Has m (RepoPath.join dir c)
    → (Has m dir × ChildOf m dir c) ⊎ ((dir ≡ next) × (maybe_child ≡ some c))

-- What an insertion keeps.
pub record Grows (m m' : Children) : Type 0 where
  pub keys : (dir : RepoPath) → Has m dir → Has m' dir
  pub children : (dir : RepoPath) (c : RepoPathComponent) → ChildOf m dir c → ChildOf m' dir c

pub Grows-trans : {a b c : Children} → Grows a b → Grows b c → Grows a c
Grows-trans f g = record {
  keys = λ dir h. g.keys dir (f.keys dir h);
  children = λ dir c h. g.children dir c (f.children dir c h);
}

pub split-root : RepoPath.split RepoPath.root ≡ none
unfolding RepoPath.split RepoPath.is_root RepoPath.root
split-root = refl

pub root_ne_join : (q : RepoPath) (c : RepoPathComponent) → RepoPath.root ≢ RepoPath.join q c
root_ne_join q c f = cc (split-root, ap RepoPath.split f, split-join q c)

pub insert_child-keeps :
    (maybe_child : Option RepoPathComponent) (xs : List RepoPathComponent) (c : RepoPathComponent)
    → Sets.contains xs c ≡ true
    → Sets.contains (insert_child maybe_child xs) c ≡ true
unfolding insert_child
insert_child-keeps none xs c h = h
insert_child-keeps (some d) xs c h = ground (arith, Sets.contains-insert d c xs)

pub insert_child-contains :
    (c : RepoPathComponent) (xs : List RepoPathComponent)
    → Sets.contains (insert_child (some c) xs) c ≡ true
unfolding insert_child
insert_child-contains c xs = ground (arith, Sets.contains-insert c c xs, eq_refl c)

module _ (dir : RepoPath) (maybe_child : Option RepoPathComponent) (m : Children) where
  pub enter-Grows : Grows m (enter dir maybe_child m)
  unfolding enter
  enter-Grows =
      let children = insert_child maybe_child (Maps.get_or m dir []) in
      record {
        keys = λ q h. ground (arith, Maps.has_key-insert dir q children m);
        children = λ q c h. ground (
          arith,
          Maps.get_or-insert dir q children [] m,
          insert_child-keeps maybe_child (Maps.get_or m dir []) c,
          beq_iff dir q,
        );
      }

  Has-enter : Has (enter dir maybe_child m) dir
  unfolding enter
  Has-enter = ground (
    arith,
    Maps.has_key-insert dir dir (insert_child maybe_child (Maps.get_or m dir [])) m,
    eq_refl dir,
  )

  -- What is registered afterwards was so before, or is the directory that was entered.
  Has-of_enter : (q : RepoPath) → Has (enter dir maybe_child m) q → Has m q ⊎ (dir ≡ q)
  unfolding enter
  Has-of_enter q h = ground (
    arith,
    Maps.has_key-insert dir q (insert_child maybe_child (Maps.get_or m dir [])) m,
    beq_iff dir q,
  )

  pub ChildOf-enter :
      (c : RepoPathComponent) → maybe_child ≡ some c → ChildOf (enter dir maybe_child m) dir c
  unfolding enter
  ChildOf-enter c e = ground (
    arith,
    Maps.get_or-insert dir dir (insert_child maybe_child (Maps.get_or m dir [])) [] m,
    eq_refl dir,
    insert_child-contains c (Maps.get_or m dir []),
  )

  -- The entered directory is no exception any more.
  enter_closes :
      IsClosedBut dir maybe_child m
      → (q : RepoPath) (c : RepoPathComponent) → Has m (RepoPath.join q c)
      → Has (enter dir maybe_child m) q × ChildOf (enter dir maybe_child m) q c
  enter_closes closed q c h = elim (closed q c h) [
    | inl (there, listed) ↦ (enter-Grows.keys q there, enter-Grows.children q c listed)
    | inr (e, child) ↦ (
      subst (Has (enter dir maybe_child m)) (sym e) Has-enter,
      subst (λ d. ChildOf (enter dir maybe_child m) d c) (sym e) (ChildOf-enter c child),
    )
  ]

  enter-IsClosed : Has m dir → IsClosedBut dir maybe_child m → IsClosed (enter dir maybe_child m)
  enter-IsClosed present closed q c h = elim (Has-of_enter (RepoPath.join q c) h) [
    | inl old ↦ enter_closes closed q c old
    | inr e ↦ enter_closes closed q c (subst (Has m) e present)
  ]

  -- A directory that was not registered leaves its own base name to be entered in its parent.
  enter-IsClosedBut :
      (new_dir : RepoPath) (new_child : RepoPathComponent)
      → dir ≡ RepoPath.join new_dir new_child
      → IsClosedBut dir maybe_child m
      → IsClosedBut new_dir (some new_child) (enter dir maybe_child m)
  enter-IsClosedBut new_dir new_child e closed q c h = elim (Has-of_enter (RepoPath.join q c) h) [
    | inl old ↦ inl (enter_closes closed q c old)
    | inr f ↦
        let (d, c) = join_injective new_dir q new_child c (sym e ∙ f) in inr (sym d, ap some c)
  ]

  enter-root :
      dir ≡ RepoPath.root → IsClosedBut dir maybe_child m → IsClosed (enter dir maybe_child m)
  enter-root e closed q c h = elim (Has-of_enter (RepoPath.join q c) h) [
    | inl old ↦ enter_closes closed q c old
    | inr f ↦ absurd (root_ne_join q c (sym e ∙ f))
  ]

-- What the loop of `add_dir` brings about: what was registered stays, the directory is registered with
-- its child, and so are its ancestors, if all the other directories had theirs.
pub record Registers (dir : RepoPath) (maybe_child : Option RepoPathComponent) (m m' : Children)
    : Type 0 where
  pub grows : Grows m m'
  pub entered : Has m' dir
  pub listed : (c : RepoPathComponent) → maybe_child ≡ some c → ChildOf m' dir c
  pub closed : IsClosedBut dir maybe_child m → IsClosed m'

enter-Registers :
    (dir : RepoPath) (maybe_child : Option RepoPathComponent) (m : Children)
    → (IsClosedBut dir maybe_child m → IsClosed (enter dir maybe_child m))
    → Registers dir maybe_child m (enter dir maybe_child m)
enter-Registers dir maybe_child m closed = record {
  grows = enter-Grows dir maybe_child m;
  entered = Has-enter dir maybe_child m;
  listed = ChildOf-enter dir maybe_child m;
  closed = closed;
}

length-join :
    (p : RepoPath) (c : RepoPathComponent)
    → length (RepoPath.join p c).components ≡ suc (length p.components)
unfolding RepoPath.join
length-join p c = omega (arith, length-append p.components (c ∷ []))

-- With one round more than the path has components, the loop of `add_dir` ends before its fuel does.
-- It keeps what was registered, registers the directory and enters the child in it; and if every
-- directory was a registered child of its parent, but for the one child, then every one is.
pub add_dir_loop_lem :
    (fuel : ℕ) (m : Children) (dir : RepoPath) (maybe_child : Option RepoPathComponent)
    → length dir.components < fuel
    → (m' : Children) × (add_dir_loop fuel m dir maybe_child ≡ done m')
      × Registers dir maybe_child m m'
unfolding add_dir_loop
add_dir_loop_lem zero m dir maybe_child h = absurd (omega arith)
add_dir_loop_lem (suc fuel) m dir maybe_child h = elim (Bool-cases (Maps.has_key m dir)) [
  | inl present ↦ (
    enter dir maybe_child m,
    rw (add_dir_loop, present) refl,
    enter-Registers dir maybe_child m (enter-IsClosed dir maybe_child m present),
  )
  | inr absent ↦ elim (split_cases dir) [
    | inl (e, no_split, _) ↦ (
      enter dir maybe_child m,
      rw (add_dir_loop, absent, no_split) refl,
      enter-Registers dir maybe_child m (enter-root dir maybe_child m e),
    )
    | inr (new_dir, new_child, e, splits, _) ↦
        let (m', ends, rest) =
          add_dir_loop_lem fuel (enter dir maybe_child m) new_dir (some new_child) (
            omega (
              arith,
              length-join new_dir new_child,
              ap (λ (p : RepoPath). length p.components) e,
            )) in
        (
          m',
          rw (add_dir_loop, absent, splits) ends,
          record {
            grows = Grows-trans (enter-Grows dir maybe_child m) rest.grows;
            entered = rest.grows.keys dir (Has-enter dir maybe_child m);
            listed = λ c e. rest.grows.children dir c (ChildOf-enter dir maybe_child m c e);
            closed = λ k. rest.closed (enter-IsClosedBut dir maybe_child m new_dir new_child e k);
          },
        )
  ]
]

-- `add_dir` keeps the directories closed, forgets none, and registers its argument.
pub record Registered (d : Dirs) (dir : RepoPath) (d' : Dirs) : Type 0 where
  pub added : add_dir d dir ≡ done d'
  pub closed : IsClosed d'.dirs
  pub grows : Grows d.dirs d'.dirs
  pub entered : Has d'.dirs dir
  pub same_files : d'.files ≡ d.files

pub add_dir_registers :
    (d : Dirs) (dir : RepoPath) → IsClosed d.dirs → (d' : Dirs) × Registered d dir d'
unfolding add_dir
add_dir_registers d dir closed =
    let (m', ends, r) =
      add_dir_loop_lem (suc (length dir.components)) d.dirs dir none (omega arith) in
    (
      record d { dirs = m' },
      record {
        added = rw (add_dir, ends, ◌>>=◌) refl;
        closed = r.closed (λ q c h. inl (closed q c h));
        grows = r.grows;
        entered = r.entered;
        same_files = refl;
      },
    )

-- What is registered below a directory is registered as that directory's.
Has-prefix :
    (m : Children)
    → IsClosed m
    → (b a : List RepoPathComponent) → Has m (record { components = a ++ b })
    → Has m (record { components = a })
unfolding RepoPath.join
Has-prefix m closed [] a h = subst (λ l. Has m (record { components = l })) (append-nil a) h
Has-prefix m closed (c ∷ b) a h =
    (closed (record { components = a }) c
      (Has-prefix m closed b (a ++ c ∷ [])
        (subst (λ l. Has m (record { components = l })) (sym (append_assoc a (c ∷ []) b)) h))).0

-- The first component below a directory on the way to anything registered is listed there.
pub ChildOf-descendant :
    (m : Children)
    → IsClosed m
    → (dir : RepoPath) (c : RepoPathComponent) (rest : List RepoPathComponent)
    → Has m (record { components = dir.components ++ c ∷ rest })
    → ChildOf m dir c
unfolding RepoPath.join
ChildOf-descendant m closed dir c rest h =
    let a = dir.components in
    (closed dir c (
      Has-prefix m closed rest (a ++ c ∷ [])
        (subst (λ l. Has m (record { components = l })) (sym (append_assoc a (c ∷ []) rest)) h))).1
