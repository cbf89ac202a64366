-- ===== src/Matchers/Prefix.antt =====
-- `PrefixMatcher` of lib/src/matchers.rs.
use jj.Prelude.{
  ℕ, zero, suc, ◌+◌, ◌≤◌, ◌<◌, ◌≡◌, refl, sym, ap, ◌∙◌, subst, subst₂, nil_of_append, inl, inr, ◌↔◌,
  Bool, true, false, not, List, [], ◌∷◌, ◌++◌, if◌then◌else◌, arith, Bool-cases, eq_of_beq, or_true,
  append_assoc, append_split, length, take, drop, take-append, length-append, take-append-drop,
}
use jj.Prelude.Outcome.{done, ◌>>=◌}
use jj.Prelude.Sets
use jj.RepoPath
use jj.RepoPath.{RepoPath, RepoPathComponent, component_eq, path_eq}
use jj.RepoPath.Join.{RepoPath-cases, join_injective, is_root-root, is_root-join}
use jj.RepoPath.Order.{contains_iff}
use jj.Matchers.{
  PrefixMatcher, prefix_matcher, prefix_matches, new_prefix_matcher, add_prefix, add_prefixes,
  any_prefix, sets, all_recursively,
}
use jj.Matchers.Dirs.{Dirs, new, add_file, get_dirs, get_files}
use jj.Matchers.Closed.{IsClosed, Has, add_dir_registers, ChildOf-descendant, root_ne_join}
use jj.Matchers.Files.{
  IsListed, Extends, Extends-refl, Extends-IsListed, Extends-trans, Registered-Extends,
  add_file-join, new-IsClosed,
}
use jj.Matchers.Sound.{below, IsSound, IsSoundVisit, wants_file-sets, wants_dir-sets, sets_ne_all}

abbrev path : List RepoPathComponent → RepoPath
path cs = record { components = cs }

-- The loop of `matches` finds a prefix exactly if one of the prefixes that are left is in the set.
any_prefix_found :
    (ps : List RepoPath) (cs : List RepoPathComponent) (i rounds : ℕ)
    → any_prefix ps cs i rounds ≡ true
    → (j : ℕ) × (Sets.contains ps (path (take j cs)) ≡ true)
unfolding any_prefix RepoPath.from_components
any_prefix_found ps cs i zero h = cc
any_prefix_found ps cs i (suc rounds) h = elim (Bool-cases (Sets.contains ps (path (take i cs)))) [
  | inl e ↦ (i, e)
  | inr e ↦ any_prefix_found ps cs (suc i) rounds (rw e at h)
]

any_prefix_finds :
    (ps : List RepoPath) (cs : List RepoPathComponent) (i rounds j : ℕ)
    → i ≤ j
    → j < i + rounds
    → Sets.contains ps (path (take j cs)) ≡ true
    → any_prefix ps cs i rounds ≡ true
unfolding any_prefix RepoPath.from_components
any_prefix_finds ps cs i zero j h k e = absurd (omega arith)
any_prefix_finds ps cs i (suc rounds) j h k e =
    elim (Bool-cases (Sets.contains ps (path (take i cs)))) [
      | inl f ↦ rw f
      | inr f ↦ rw f (
          any_prefix_finds ps cs (suc i) rounds j
            (later (λ same. ne_true (ap (λ n. Sets.contains ps (path (take n cs))) same) e f))
            (omega arith) e)
    ]
  where
    later : (i ≡ j → ⊥) → i < j
    later n = grind arith

    ne_true : {a b : Bool} → a ≡ b → b ≡ true → a ≡ false → ⊥
    ne_true p q r = cc

-- A path matches exactly if one of the prefixes contains it.
pub prefix_matches_iff :
    (m : PrefixMatcher) (file : RepoPath)
    → (prefix_matches m file ≡ true) ↔ (
        (pre rest : List RepoPathComponent) × (file.components ≡ pre ++ rest)
        × (Sets.contains m.prefixes (path pre) ≡ true))
unfolding prefix_matches
prefix_matches_iff m file =
    let cs = file.components in
    (
      λ h.
          let (j, e) = any_prefix_found m.prefixes cs 0 (suc (length cs)) h in
          (take j cs, drop j cs, sym (take-append-drop j cs), e),
      λ (pre, rest, e, h).
          any_prefix_finds m.prefixes cs 0 (suc (length cs)) (length pre) (omega arith)
            (omega (arith, ap length e, length-append pre rest))
            (subst (λ l. Sets.contains m.prefixes (path l) ≡ true)
              (sym (ap (take (length pre)) e ∙ take-append pre rest)) h),
    )

-- A prefix is registered as a directory, and listed as a file of its parent.
record IsTracked (d : Dirs) (p : RepoPath) : Type 0 where
  registered : Has d.dirs p
  listed : (dir : RepoPath) (c : RepoPathComponent) → p ≡ RepoPath.join dir c → IsListed d dir c

Extends-IsTracked : {d d' : Dirs} {p : RepoPath} → Extends d d' → IsTracked d p → IsTracked d' p
Extends-IsTracked {p} e t = record {
  registered = e.dirs.keys p t.registered;
  listed = λ dir c f. Extends-IsListed e (t.listed dir c f);
}

record Adds (d : Dirs) (p : RepoPath) (d' : Dirs) : Type 0 where
  added : add_prefix d p ≡ done d'
  closed : IsClosed d'.dirs
  extends : Extends d d'
  tracked : IsTracked d' p

add_prefix_lem : (d : Dirs) (p : RepoPath) → IsClosed d.dirs → (d' : Dirs) × Adds d p d'
unfolding add_prefix
add_prefix_lem d p closed =
    let (d1, r) = add_dir_registers d p closed in
    elim (RepoPath-cases p) [
      | inl e ↦ (
        d1,
        record {
          added =
              rw (add_prefix, r.added, ◌>>=◌)
                (ap (λ b. if not b then add_file d1 p else done d1)
                  (ap RepoPath.is_root e ∙ is_root-root));
          closed = r.closed;
          extends = Registered-Extends r;
          tracked = record {
            registered = r.entered;
            listed = λ dir c f. absurd (root_ne_join dir c (sym e ∙ f));
          };
        },
      )
      | inr (dir, base, e) ↦
          let (d2, added2, closed2, extends2, listed2) = add_file-join d1 dir base r.closed in
          (
            d2,
            record {
              added =
                  rw (add_prefix, r.added, ◌>>=◌)
                    (ap (λ b. if not b then add_file d1 p else done d1)
                        (ap RepoPath.is_root e ∙ is_root-join dir base)
                      ∙ ap (add_file d1) e
                      ∙ added2);
              closed = closed2;
              extends = Extends-trans (Registered-Extends r) extends2;
              tracked = record {
                registered = extends2.dirs.keys p r.entered;
                listed = λ q c f.
                    let (same_dir, same_base) = join_injective dir q base c (sym e ∙ f) in
                    subst₂ (λ x y. IsListed d2 x y) same_dir same_base listed2;
              };
            },
          )
    ]

record AddsAll (d : Dirs) (ps : List RepoPath) (d' : Dirs) : Type 0 where
  added : add_prefixes d ps ≡ done d'
  closed : IsClosed d'.dirs
  extends : Extends d d'
  tracked : (p : RepoPath) → Sets.contains ps p ≡ true → IsTracked d' p

add_prefixes_lem : (d : Dirs) (ps : List RepoPath) → IsClosed d.dirs → (d' : Dirs) × AddsAll d ps d'
unfolding add_prefixes
add_prefixes_lem d [] closed =
    (d, record { added = refl; closed = closed; extends = Extends-refl d; tracked = λ p h. cc })
add_prefixes_lem d (p ∷ ps) closed =
    let (d1, one) = add_prefix_lem d p closed in
    let (d2, rest) = add_prefixes_lem d1 ps one.closed in
    (
      d2,
      record {
        added = rw (add_prefixes, one.added, ◌>>=◌) rest.added;
        closed = rest.closed;
        extends = Extends-trans one.extends rest.extends;
        tracked = λ q h. elim (or_true _ _ h) [
          | inl e ↦
              subst (IsTracked d2) (eq_of_beq p q e) (Extends-IsTracked rest.extends one.tracked)
          | inr k ↦ rest.tracked q k
        ];
      },
    )

module _ (m : PrefixMatcher) (closed : IsClosed m.dirs.dirs)
    (tracked : (p : RepoPath) → Sets.contains m.prefixes p ≡ true → IsTracked m.dirs p) where
  -- A prefix of a path below a directory that does not match lies below that directory.
  prefix_below :
      (dir : RepoPath) (c : RepoPathComponent) (rest : List RepoPathComponent)
      → prefix_matches m dir ≡ false
      → prefix_matches m (below dir c rest) ≡ true
      → (t r : List RepoPathComponent) × (rest ≡ t ++ r)
        × (Sets.contains m.prefixes (below dir c t) ≡ true)
  prefix_below dir c rest no_match h =
      let (pre, r, e, there) = (prefix_matches_iff m (below dir c rest)).0 h in
      elim (append_split dir.components c rest pre r e) [
        | inl (t, f) ↦
            let matched : prefix_matches m dir ≡ true =
              (prefix_matches_iff m dir).1 (pre, t, f, there) in
            cc (matched, no_match)
        | inr (t, f, g) ↦ (t, r, g, subst (λ l. Sets.contains m.prefixes (path l) ≡ true) f there)
      ]

  unmatched-IsSoundVisit :
      (dir : RepoPath)
      → prefix_matches m dir ≡ false
      → IsSoundVisit (prefix_matches m) dir (sets (get_dirs m.dirs dir) (get_files m.dirs dir))
  unfolding get_dirs get_files RepoPath.join
  unmatched-IsSoundVisit dir no_match = record {
    files = λ c h.
        let (t, r, e, there) = prefix_below dir c [] no_match h in
        wants_file-sets (get_dirs m.dirs dir) (get_files m.dirs dir) c
        ∙ ((tracked (below dir c t) there).listed dir c
            (ap (below dir c) (nil_of_append t r e))).listed;
    dirs = λ c e rest h.
        let (t, r, f, there) = prefix_below dir c (e ∷ rest) no_match h in
        wants_dir-sets (get_dirs m.dirs dir) (get_files m.dirs dir) c
        ∙ ChildOf-descendant m.dirs.dirs closed dir c t (tracked (below dir c t) there).registered;
    guaranteed = λ e c rest. absurd (sets_ne_all (get_dirs m.dirs dir) (get_files m.dirs dir) e);
  }

  matched-IsSoundVisit :
      (dir : RepoPath)
      → prefix_matches m dir ≡ true
      → IsSoundVisit (prefix_matches m) dir all_recursively
  matched-IsSoundVisit dir h = record {
    files = λ c k. refl;
    dirs = λ c e rest k. refl;
    guaranteed = λ _ c rest.
        let (pre, r, e, there) = (prefix_matches_iff m dir).0 h in
        (prefix_matches_iff m (below dir c rest)).1
          (pre, r ++ c ∷ rest, ap (λ l. l ++ c ∷ rest) e ∙ append_assoc pre r (c ∷ rest), there);
  }

  tracked-IsSound : IsSound (prefix_matcher m)
  unfolding prefix_matcher
  tracked-IsSound dir = elim (Bool-cases (prefix_matches m dir)) [
    | inl h ↦ rw h (matched-IsSoundVisit dir h)
    | inr h ↦ rw h (unmatched-IsSoundVisit dir h)
  ]

-- `PrefixMatcher::new` never panics; the matcher that it builds matches exactly the paths that one
-- of the given prefixes contains, and its visits are sound.
pub prefix_matcher-IsSound :
    (paths : List RepoPath)
    → (m : PrefixMatcher) × (new_prefix_matcher paths ≡ done m)
      × ((file : RepoPath)
          → ((prefix_matcher m).matches file ≡ true)
            ↔ ((p : RepoPath) × (Sets.contains paths p ≡ true) × (RepoPath.contains p file ≡ true)))
      × IsSound (prefix_matcher m)
unfolding new_prefix_matcher prefix_matcher
prefix_matcher-IsSound paths =
    let ps = Sets.collect paths in
    let (d, all) = add_prefixes_lem new ps new-IsClosed in
    let m : PrefixMatcher = record { prefixes = ps; dirs = d } in
    (
      m,
      rw (new_prefix_matcher, all.added, ◌>>=◌) refl,
      λ file. (
        λ h.
            let (pre, rest, e, there) = (prefix_matches_iff m file).0 h in
            (
              path pre,
              sym (Sets.contains-collect paths (path pre)) ∙ there,
              (contains_iff (path pre) file).1 (rest, e),
            ),
        λ (p, there, inside).
            let (rest, e) = (contains_iff p file).0 inside in
            (prefix_matches_iff m file).1
              (p.components, rest, e, Sets.contains-collect paths p ∙ there),
      ),
      tracked-IsSound m all.closed all.tracked,
    )
