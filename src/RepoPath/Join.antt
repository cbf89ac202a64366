-- ===== src/RepoPath/Join.antt =====
-- `join`, `split` and `parent` of lib/src/repo_path.rs undo one another.
use jj.Prelude.{
  ◌∙◌, some-injective, ◌-◌, ◌≡◌, refl, sym, ap, ◌⊎◌, inl, inr, true, false, none, some, List, [],
  ◌∷◌, ◌++◌, arith, length, is_empty, take, last, last-concat, take-concat, unsnoc,
}
use jj.RepoPath.{RepoPath, RepoPathComponent, root, is_root, parent, split, join}

abbrev pub path : List RepoPathComponent → RepoPath
path cs = record { components = cs }

parent_front :
    (cs front : List RepoPathComponent)
    → is_empty cs ≡ false
    → take (length cs - 1) cs ≡ front
    → parent (path cs) ≡ some (path front)
unfolding parent is_root
parent_front cs front e t = ground arith

split_front :
    (cs front : List RepoPathComponent) (y : RepoPathComponent)
    → is_empty cs ≡ false
    → take (length cs - 1) cs ≡ front
    → last cs ≡ some y
    → split (path cs) ≡ some (path front, y)
unfolding split is_root
split_front cs front y e t l = ground (arith, parent_front cs front e t)

is_empty-concat :
    (cs : List RepoPathComponent) (c : RepoPathComponent) → is_empty (cs ++ c ∷ []) ≡ false
is_empty-concat [] c = refl
is_empty-concat (d ∷ ds) c = refl

-- Splitting a path that a component was joined to gives back the directory and the component.
pub split-join : (p : RepoPath) (c : RepoPathComponent) → split (join p c) ≡ some (p, c)
unfolding join
split-join p c =
    let cs = p.components in
    split_front (cs ++ c ∷ []) cs c (is_empty-concat cs c) (take-concat cs c) (last-concat cs c)

pub parent-join : (p : RepoPath) (c : RepoPathComponent) → parent (join p c) ≡ some p
unfolding join
parent-join p c =
    let cs = p.components in
    parent_front (cs ++ c ∷ []) cs (is_empty-concat cs c) (take-concat cs c)

-- Every path is the root, or some base name joined to some directory.
pub RepoPath-cases :
    (p : RepoPath) → (p ≡ root) ⊎ ((dir : RepoPath) × (c : RepoPathComponent) × (p ≡ join dir c))
unfolding root join
RepoPath-cases p = go p.components
  where
    go :
        (cs : List RepoPathComponent)
        → (path cs ≡ root) ⊎ ((dir : RepoPath) × (c : RepoPathComponent) × (path cs ≡ join dir c))
    go [] = inl refl
    go (x ∷ xs) = let (front, y, e) = unsnoc x xs in inr (path front, y, ap path e)

-- `split` and `parent` return nothing exactly at the root; elsewhere `split` returns the parent and
-- a base name that join to the path.
pub split_cases :
    (p : RepoPath)
    → ((p ≡ root) × (split p ≡ none) × (parent p ≡ none))
      ⊎ ((dir : RepoPath) × (c : RepoPathComponent) × (p ≡ join dir c)
          × (split p ≡ some (dir, c))
          × (parent p ≡ some dir))
unfolding split parent is_root root
split_cases p = elim (RepoPath-cases p) [
  | inl e ↦ inl (e, ap split e, ap parent e)
  | inr (dir, c, e) ↦
      inr (dir, c, e, ap split e ∙ split-join dir c, ap parent e ∙ parent-join dir c)
]

pub join_injective :
    (p q : RepoPath) (c d : RepoPathComponent) → join p c ≡ join q d → (p ≡ q) × (c ≡ d)
join_injective p q c d e =
    let same : (p, c) ≡ (q, d) =
      some-injective _ _ (sym (split-join p c) ∙ ap split e ∙ split-join q d) in
    (
      ap (λ (t : RepoPath × RepoPathComponent). t.0) same,
      ap (λ (t : RepoPath × RepoPathComponent). t.1) same,
    )

pub is_root-root : is_root root ≡ true
unfolding is_root root
is_root-root = refl

pub is_root-join : (p : RepoPath) (c : RepoPathComponent) → is_root (join p c) ≡ false
unfolding is_root join
is_root-join p c = is_empty-concat p.components c
