-- ===== src/Index/Ancestors.antt =====
-- `is_ancestor_pos` of lib/src/index.rs decides whether a commit is an ancestor, though it walks only
-- where generations are great enough.
use jj.Prelude.{
  ℕ, zero, suc, ◌+◌, ◌<◌, ◌≤◌, ◌≡◌, refl, sym, ◌∙◌, ◌⊎◌, inl, inr, Bool, true, false, ◌||◌, List,
  [], ◌∷◌, ◌++◌, arith, Bool-cases, length, length-append, nat_eq, beq_iff, nat_beq, nat_beq_iff,
  leb, or_true,
}
use jj.Prelude.Outcome.{Outcome, done, ◌>>=◌}
use jj.Prelude.Sets
use mathlib.Core.List.{reverse, reverse-append}
use jj.Index.Entry.{IndexPosition, GraphEntry, IndexEntry}
use jj.Index.Walk.{is_ancestor_loop, is_ancestor_pos}
use jj.Index.Graph.{
  IsGraph, IsAncestor, self, via, IsAncestor-trans, pending, pending_visit, AllBelow, parents-below,
  IsAncestor-generation,
}

contains-reverse : (l : List ℕ) (p : ℕ) → Sets.contains (reverse l) p ≡ Sets.contains l p
contains-reverse [] p = refl
contains-reverse (x ∷ xs) p = ground (
  arith,
  reverse-append (x ∷ []) xs,
  Sets.contains-append (reverse xs) (x ∷ []) p,
  contains-reverse xs p,
)

contains-reverse-append :
    (l r : List ℕ) (p : ℕ)
    → Sets.contains (reverse l ++ r) p ≡ (Sets.contains l p || Sets.contains r p)
contains-reverse-append l r p =
    Sets.contains-append (reverse l) r p ∙ rw (contains-reverse l p) refl

length-reverse : (l : List ℕ) → length (reverse l) ≡ length l
length-reverse [] = refl
length-reverse (x ∷ xs) =
    ground
      (arith, reverse-append (x ∷ []) xs, length-append (reverse xs) (x ∷ []), length-reverse xs)

module _ (size : ℕ) (graph : IndexPosition → GraphEntry)
    (entry_by_pos : IndexPosition → Outcome IndexEntry) (g : IsGraph size graph entry_by_pos)
    (a d : IndexPosition) where
  record Inv (work visited : List IndexPosition) : Type 0 where
    below : AllBelow size work
    above : (p : IndexPosition) → Sets.contains work p ≡ true → IsAncestor graph p d
    fresh : Sets.contains visited a ≡ false
    seen_below : AllBelow size visited
    closed :
        (v p : IndexPosition)
        → Sets.contains visited v ≡ true
        → (graph a).generation_number < (graph v).generation_number
        → Sets.contains (graph v).parent_positions p ≡ true
        → (Sets.contains visited p || Sets.contains work p) ≡ true
    started : (Sets.contains visited d || Sets.contains work d) ≡ true

  -- With no work left, the ancestors on a path to `a` are all visited.
  visited_path :
      (visited : List IndexPosition) {c : IndexPosition}
      → Inv [] visited
      → Sets.contains visited c ≡ true
      → IsAncestor graph a c
      → Sets.contains visited a ≡ true
  visited_path visited i h self = h
  visited_path visited {c} i h (via p e r) =
      let c_below = i.seen_below c h in
      let less = g.generations c p c_below e in
      let higher : (graph a).generation_number < (graph c).generation_number =
        elim (IsAncestor-generation graph size entry_by_pos g
          (parents-below graph size entry_by_pos g c c_below p e) r) [
            | inl same ↦ rw same less
            | inr l ↦ omega arith
          ] in
      let p_seen : Sets.contains visited p ≡ true = ground (arith, i.closed c p h higher e) in
      visited_path visited i p_seen r

  finished : (visited : List IndexPosition) → Inv [] visited → IsAncestor graph a d → ⊥
  finished visited i r = cc (visited_path visited i (ground (arith, i.started)) r, i.fresh)

  -- The three ways in which a round goes on.
  skip :
      (w : IndexPosition) (work visited : List IndexPosition)
      → Inv (w ∷ work) visited
      → Sets.contains visited w ≡ true
      → Inv work visited
  skip w work visited i h = record {
    below = λ p q. i.below p (ground arith);
    above = λ p q. i.above p (ground arith);
    fresh = i.fresh;
    seen_below = i.seen_below;
    closed = λ v p x y z. ground (arith, i.closed v p x y z, beq_iff w p);
    started = ground (arith, i.started, beq_iff w d);
  }

  prune :
      (w : IndexPosition) (work visited : List IndexPosition)
      → Inv (w ∷ work) visited
      → nat_beq w a ≡ false
      → (graph w).generation_number ≤ (graph a).generation_number
      → Inv work (w ∷ visited)
  prune w work visited i ne h = record {
    below = λ p q. i.below p (ground arith);
    above = λ p q. i.above p (ground arith);
    fresh = ground (arith, i.fresh);
    seen_below = λ p q. ground (arith, i.below p, i.seen_below p);
    closed = λ v p x y z. ground (arith, i.closed v p, y, z, x, beq_iff w p, beq_iff w v);
    started = ground (arith, i.started, beq_iff w d);
  }

  expand :
      (w : IndexPosition) (work visited : List IndexPosition)
      → Inv (w ∷ work) visited
      → nat_beq w a ≡ false
      → Inv (reverse (graph w).parent_positions ++ work) (w ∷ visited)
  expand w work visited i ne =
      let ps = (graph w).parent_positions in
      let w_below = i.below w (ground (arith, beq_iff w w)) in
      let in_work : (p : IndexPosition)
          → Sets.contains (reverse ps ++ work) p ≡ (Sets.contains ps p || Sets.contains work p) =
        contains-reverse-append ps work in
      record {
        below = λ p q.
            ground
              (arith, in_work p, q, parents-below graph size entry_by_pos g w w_below p, i.below p);
        above = λ p q.
            elim (or_true (Sets.contains ps p) (Sets.contains work p) (sym (in_work p) ∙ q)) [
              | inl e ↦
                  IsAncestor-trans graph (via p e self) (i.above w (ground (arith, beq_iff w w)))
              | inr e ↦ i.above p (ground arith)
            ];
        fresh = ground (arith, i.fresh);
        seen_below = λ p q. ground (arith, i.below p, i.seen_below p);
        closed =
            λ v p x y z. ground (arith, in_work p, i.closed v p, y, z, x, beq_iff w p, beq_iff w v);
        started = ground (arith, in_work d, i.started, beq_iff w d);
      }

  abbrev pub Decides : Outcome Bool → Type 0
  Decides r =
      ((r ≡ done true) × IsAncestor graph a d) ⊎ ((r ≡ done false) × (IsAncestor graph a d → ⊥))

  abbrev loop : ℕ → List IndexPosition → List IndexPosition → Outcome Bool
  loop fuel work visited =
      is_ancestor_loop entry_by_pos fuel a (graph a).generation_number work visited

  loop-Decides :
      (fuel : ℕ) (work visited : List IndexPosition)
      → Inv work visited
      → length work + pending graph size visited < fuel
      → Decides (loop fuel work visited)
  unfolding is_ancestor_loop
  loop-Decides zero work visited i f = absurd (omega arith)
  loop-Decides (suc fuel) [] visited i f = inr (refl, finished visited i)
  loop-Decides (suc fuel) (w ∷ work) visited i f =
      let w_below = i.below w (ground (arith, beq_iff w w)) in
      let entry = g.found w w_below in
      elim (Bool-cases (nat_beq w a)) [
        | inl e ↦
            let same : w ≡ a = (nat_beq_iff w a).0 e in
            rw (entry, e, ◌>>=◌)
              (inl (refl, rw (sym same) (i.above w (ground (arith, beq_iff w w)))))
        | inr ne ↦ elim (Bool-cases (Sets.contains visited w)) [
          | inl seen ↦
              rw (entry, ne, ◌>>=◌, seen)
                (loop-Decides fuel work visited (skip w work visited i seen) (omega arith))
          | inr new ↦
              let p = pending_visit graph size w visited w_below new in
              elim (Bool-cases (leb (graph w).generation_number (graph a).generation_number)) [
                | inl low ↦
                    rw (entry, ne, ◌>>=◌, new, low)
                      (loop-Decides fuel work (w ∷ visited)
                        (prune w work visited i ne (ground arith)) (omega arith))
                | inr high ↦
                    let n = length-append (reverse (graph w).parent_positions) work in
                    let m = length-reverse (graph w).parent_positions in
                    rw (entry, ne, ◌>>=◌, new, high)
                      (loop-Decides fuel (reverse (graph w).parent_positions ++ work) (w ∷ visited)
                        (expand w work visited i ne) (omega arith))
              ]
        ]
      ]

  -- With fuel for the two commits and the edges of the graph, `is_ancestor_pos` of two commits in the
  -- index neither panics nor runs out of fuel: it returns true if the first is an ancestor of the
  -- second or the same, and false if it is not.
  pub is_ancestor_pos_lem :
      (fuel : ℕ)
      → a < size
      → d < size
      → 1 + pending graph size [] < fuel
      → Decides (is_ancestor_pos entry_by_pos fuel a d)
  unfolding is_ancestor_pos
  is_ancestor_pos_lem fuel a_below d_below f =
      rw (g.found a a_below) (loop-Decides fuel (d ∷ []) [] start f)
    where
      start : Inv (d ∷ []) []
      start = record {
        below = λ p h. ground (arith, beq_iff d p);
        above = λ p h. start_above p h;
        fresh = refl;
        seen_below = λ p h. absurd (ground arith);
        closed = λ v p x y z. cc;
        started = ground (arith, beq_iff d d);
      }
        where
          start_above : (p : IndexPosition) → Sets.contains (d ∷ []) p ≡ true → IsAncestor graph p d
          start_above p h = let same : d ≡ p = ground (arith, beq_iff d p) in rw same self
