-- ===== src/Index/HeadsStart.antt =====
-- The first loop of `heads_pos` in lib/src/index.rs, and the whole function.
use jj.Prelude.{
  ℕ, ◌+◌, ◌<◌, ◌≤◌, ◌≡◌, refl, sym, ◌∙◌, ◌⊎◌, inl, inr, true, List, [], ◌∷◌, ◌++◌, arith,
  if◌then◌else◌, Bool-cases, length, length-append, nat_eq, ◌==◌, beq_iff, ltb, or_true,
}
use jj.Prelude.Outcome.{Outcome, done, ◌>>=◌}
use jj.Prelude.Sets
use jj.Index.Entry.{IndexPosition, GraphEntry, IndexEntry}
use jj.Index.Walk.{heads_start, heads_pos}
use jj.Index.Graph.{IsGraph, self, pending, AllBelow, entries_at, parents_lem, parents-below}
use jj.Index.Heads.{
  positions, AllAt, AllAt-append, AllAt-entries_at, length-entries_at, contains-entries_at, Inv,
  AreHeads, heads_loop_lem,
}

module _ (size : ℕ) (graph : IndexPosition → GraphEntry)
    (entry_by_pos : IndexPosition → Outcome IndexEntry) (g : IsGraph size graph entry_by_pos) where
  -- The edges out of some commits.
  abbrev pub edges : List IndexPosition → ℕ
  edges [] = 0
  edges (c ∷ cs) = length (graph c).parent_positions + edges cs

  -- A parent of one of the commits.
  abbrev IsParent : List IndexPosition → IndexPosition → Type 0
  IsParent l p =
      (c : IndexPosition) × (Sets.contains l c ≡ true)
      × (Sets.contains (graph c).parent_positions p ≡ true)

  record Started (l : List IndexPosition) (min0 : ℕ) (work0 : List IndexEntry) (min : ℕ)
      (work : List IndexEntry) : Type 0 where
    ends : heads_start entry_by_pos min0 work0 l ≡ done (min, work)
    below : min ≤ min0
    least : (c : IndexPosition) → Sets.contains l c ≡ true → min ≤ (graph c).generation_number
    valid : AllAt graph work0 → AllAt graph work
    members :
        (p : IndexPosition)
        → Sets.contains (positions work) p ≡ true
        → (Sets.contains (positions work0) p ≡ true) ⊎ IsParent l p
    kept :
        (p : IndexPosition)
        → Sets.contains (positions work0) p ≡ true
        → Sets.contains (positions work) p ≡ true
    all_parents :
        (c p : IndexPosition)
        → Sets.contains l c ≡ true
        → Sets.contains (graph c).parent_positions p ≡ true
        → Sets.contains (positions work) p ≡ true
    sized : length work ≡ length work0 + edges l

  heads_start_lem :
      (l : List IndexPosition) (min0 : ℕ) (work0 : List IndexEntry)
      → AllBelow size l
      → (min : ℕ) × (work : List IndexEntry) × Started l min0 work0 min work
  unfolding heads_start
  heads_start_lem [] min0 work0 b = (
    min0,
    work0,
    record {
      ends = refl;
      below = omega arith;
      least = λ c h. cc;
      valid = λ a. a;
      members = λ p h. inl h;
      kept = λ p h. h;
      all_parents = λ c p h i. cc;
      sized = omega arith;
    },
  )
  heads_start_lem (x ∷ xs) min0 work0 b =
      let x_below : x < size = b x (ground (arith, beq_iff x x)) in
      let ps = (graph x).parent_positions in
      let gen = (graph x).generation_number in
      let min1 = if ltb gen min0 then gen else min0 in
      let work1 = entries_at graph ps ++ work0 in
      let (min, work, s) = heads_start_lem xs min1 work1 (λ q i. b q (ground arith)) in
      let has = contains-entries_at graph ps work0 in
      (
        min,
        work,
        record {
          ends =
              rw (g.found x x_below, parents_lem graph size entry_by_pos g x x_below, heads_start)
                s.ends;
          below = ground (arith, s.below);
          least = λ c h. ground (arith, s.below, s.least c, beq_iff x c);
          valid = λ a.
              s.valid
                (AllAt-append graph (entries_at graph ps) work0 (AllAt-entries_at graph ps) a);
          members = λ p h. elim (s.members p h) [
            | inl e ↦
                elim (or_true (Sets.contains ps p) (Sets.contains (positions work0) p)
                  (sym (has p) ∙ e)) [
                    | inl f ↦ inr (x, ground (arith, beq_iff x x), f)
                    | inr f ↦ inl f
                  ]
            | inr (c, e, f) ↦ inr (c, ground arith, f)
          ];
          kept = λ p h. s.kept p (has p ∙ ground arith);
          all_parents = λ c p h i. elim (Bool-cases (x == c)) [
            | inl e ↦
                let same : x ≡ c = (beq_iff x c).0 e in
                let i' : Sets.contains ps p ≡ true = rw same i in s.kept p (has p ∙ ground arith)
            | inr e ↦ s.all_parents c p (ground arith) i
          ];
          sized = omega (
            arith,
            s.sized,
            length-append (entries_at graph ps) work0,
            length-entries_at graph ps,
          );
        },
      )

  -- With fuel for the edges out of the candidates and those of the graph, `heads_pos` of candidates in
  -- the index neither panics nor runs out of fuel, and returns exactly the candidates that are no
  -- ancestor of a parent of a candidate.
  pub heads_pos_lem :
      (fuel : ℕ) (candidates : List IndexPosition) (b : AllBelow size candidates)
      → edges candidates + pending graph size [] < fuel
      → (result : List IndexPosition) × (heads_pos entry_by_pos fuel candidates ≡ done result)
        × AreHeads size graph entry_by_pos g candidates b result
  unfolding heads_pos
  heads_pos_lem fuel candidates b f =
      let (min, work, s) = heads_start_lem candidates 4_294_967_295 [] b in
      let sized = s.sized in
      let (r, ends, heads) =
        heads_loop_lem size graph entry_by_pos g candidates b min fuel work [] candidates
          (start min work s) (omega arith) in
      (r, rw (s.ends, ◌>>=◌) ends, heads)
    where
      parent_of :
          (min : ℕ) (work : List IndexEntry) (s : Started candidates 4_294_967_295 [] min work)
          (p : IndexPosition)
          → Sets.contains (positions work) p ≡ true
          → IsParent candidates p
      parent_of min work s p h = elim (s.members p h) [ inl e ↦ absurd (ground arith) | inr q ↦ q ]

      start :
          (min : ℕ) (work : List IndexEntry)
          → Started candidates 4_294_967_295 [] min work
          → Inv size graph entry_by_pos g candidates b min work [] candidates
      start min work s = record {
        valid = s.valid tt;
        below = λ p h.
            let (c, x, y) = parent_of min work s p h in
            parents-below graph size entry_by_pos g c (b c x) p y;
        beaten = λ p h. let (c, x, y) = parent_of min work s p h in (c, x, p, y, self);
        seen_beaten = λ p h. absurd (ground arith);
        seen_below = λ p h. absurd (ground arith);
        started = λ c q x y. s.all_parents c q x y;
        closed = λ v q x y. absurd (ground arith);
        lefts = λ p. ground arith;
        least = s.least;
      }
