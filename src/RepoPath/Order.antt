-- ===== src/RepoPath/Order.antt =====
-- `contains` of lib/src/repo_path.rs is the order of the directory tree.
use jj.Prelude.{
  ◌≡◌, refl, ap, ◌∙◌, ◌↔◌, true, List, [], ◌∷◌, ◌++◌, arith, ◌==◌, eq_refl, eq_of_beq, and_true,
}
use mathlib.Core.List.{append_assoc}
use jj.RepoPath.{RepoPath, RepoPathComponent, component_eq, starts_with, contains, join}

starts_with_append : (cs ds : List RepoPathComponent) → starts_with (cs ++ ds) cs ≡ true
unfolding starts_with
starts_with_append [] [] = refl
starts_with_append [] (d ∷ ds) = refl
starts_with_append (c ∷ cs) ds = ground (arith, eq_refl c, starts_with_append cs ds)

starts_with_rest :
    (cs ds : List RepoPathComponent)
    → starts_with cs ds ≡ true
    → (rest : List RepoPathComponent) × (cs ≡ ds ++ rest)
unfolding starts_with
starts_with_rest cs [] h = (cs, refl)
starts_with_rest [] (d ∷ ds) h = cc
starts_with_rest (c ∷ cs) (d ∷ ds) h =
    let (e, t) = and_true (c == d) (starts_with cs ds) h in
    let (rest, r) = starts_with_rest cs ds t in (rest, cc (eq_of_beq c d e, r))

-- A directory contains a path exactly if the path is the directory's with further components.
pub contains_iff :
    (dir p : RepoPath)
    → (contains dir p ≡ true)
      ↔ ((rest : List RepoPathComponent) × (p.components ≡ dir.components ++ rest))
unfolding contains
contains_iff dir p = (
  starts_with_rest p.components dir.components,
  λ (rest, e). ap (λ l. starts_with l dir.components) e ∙ starts_with_append dir.components rest,
)

-- Containment is transitive.
pub contains_trans :
    (a b c : RepoPath) → contains a b ≡ true → contains b c ≡ true → contains a c ≡ true
contains_trans a b c h k =
    let (r, e) = (contains_iff a b).0 h in
    let (s, f) = (contains_iff b c).0 k in
    (contains_iff a c).1 (r ++ s, f ∙ ap (λ l. l ++ s) e ∙ append_assoc a.components r s)

pub contains-join : (dir : RepoPath) (c : RepoPathComponent) → contains dir (join dir c) ≡ true
unfolding join
contains-join dir c = (contains_iff dir (join dir c)).1 (c ∷ [], refl)
