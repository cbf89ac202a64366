-- ===== src/Index/Heads.antt =====
-- `heads_pos` of lib/src/index.rs: of some commits, those that are no ancestors of another.
use jj.Prelude.{
  ℕ, zero, suc, ◌+◌, ◌<◌, ◌≤◌, ◌≡◌, refl, sym, ap, ◌∙◌, inl, inr, ◌↔◌, true, false, not, ◌&&◌, ◌||◌,
  none, some, List, [], ◌∷◌, ◌++◌, arith, Bool-cases, Option-cases, length, length-append, nat_eq,
  ◌==◌, beq_iff, ltb, or_true, subst, some-injective,
}
use jj.Prelude.Outcome.{Outcome, done}
use jj.Prelude.Order.{Ordering-cases}
use jj.Prelude.Sets
use Prim.Native.Nat.Ordering.{lt}
use jj.Index.Entry.{IndexPosition, GraphEntry, IndexEntry}
use jj.Index.Walk.{parents, generation_cmp, pop_last, heads_loop}
use jj.Index.Graph.{
  at, IsGraph, IsAncestor, self, via, IsAncestor-trans, pending, pending_visit, AllBelow,
  entries_at, parents_lem, parents-below, IsAncestor-generation,
}

abbrev pub generation : IndexEntry → ℕ
generation e = e.entry.generation_number

abbrev pub positions : List IndexEntry → List IndexPosition
positions [] = []
positions (x ∷ xs) = x.pos ∷ positions xs

-- No entry has a greater generation.
abbrev pub AllUpTo : ℕ → List IndexEntry → Type 0
AllUpTo n [] = Unit {0}
AllUpTo n (x ∷ xs) = (generation x ≤ n) × AllUpTo n xs

AllUpTo-le : (m n : ℕ) (l : List IndexEntry) → m ≤ n → AllUpTo m l → AllUpTo n l
AllUpTo-le m n [] h a = tt
AllUpTo-le m n (x ∷ xs) h a = (omega arith, AllUpTo-le m n xs h a.1)

generation_cmp-lt : (x y : IndexEntry) → generation_cmp x y ≡ lt → generation x ≤ generation y
unfolding generation_cmp
generation_cmp-lt x y h = ground arith

generation_cmp-ge : (x y : IndexEntry) → (generation_cmp x y ≡ lt → ⊥) → generation y ≤ generation x
unfolding generation_cmp
generation_cmp-ge x y h = ground arith

pop_last-none : (l : List IndexEntry) → pop_last l ≡ none → l ≡ []
unfolding pop_last
pop_last-none [] h = refl
pop_last-none (x ∷ xs) h = ground arith

module _ (graph : IndexPosition → GraphEntry) where
  -- Every entry is that of its position.
  abbrev pub AllAt : List IndexEntry → Type 0
  AllAt [] = Unit {0}
  AllAt (x ∷ xs) = (x ≡ at graph x.pos) × AllAt xs

  pub AllAt-append : (xs ys : List IndexEntry) → AllAt xs → AllAt ys → AllAt (xs ++ ys)
  AllAt-append [] ys a b = b
  AllAt-append (x ∷ xs) ys a b = (a.0, AllAt-append xs ys a.1 b)

  pub AllAt-entries_at : (l : List IndexPosition) → AllAt (entries_at graph l)
  AllAt-entries_at [] = tt
  AllAt-entries_at (p ∷ ps) = (refl, AllAt-entries_at ps)

  pub contains-entries_at :
      (l : List IndexPosition) (rest : List IndexEntry) (p : IndexPosition)
      → Sets.contains (positions (entries_at graph l ++ rest)) p
        ≡ (Sets.contains l p || Sets.contains (positions rest) p)
  contains-entries_at [] rest p = refl
  contains-entries_at (x ∷ xs) rest p = ground (arith, contains-entries_at xs rest p)

  pub length-entries_at : (l : List IndexPosition) → length (entries_at graph l) ≡ length l
  length-entries_at [] = refl
  length-entries_at (p ∷ ps) = ap suc (length-entries_at ps)

  -- What is popped is one of the entries, the others are left, and none of them is greater.
  record Popped (l : List IndexEntry) (m : IndexEntry) (rest : List IndexEntry) : Type 0 where
    members :
        (p : IndexPosition)
        → Sets.contains (positions l) p ≡ (m.pos == p || Sets.contains (positions rest) p)
    size : length l ≡ suc (length rest)
    greatest : AllUpTo (generation m) rest
    all : AllUpTo (generation m) l
    valid : AllAt l → (m ≡ at graph m.pos) × AllAt rest

  Popped-some :
      (l : List IndexEntry) (a b : IndexEntry × List IndexEntry)
      → some a ≡ some b
      → Popped l a.0 a.1
      → Popped l b.0 b.1
  Popped-some l a b e =
      subst (λ (q : IndexEntry × List IndexEntry). Popped l q.0 q.1) (some-injective _ _ e)

  pop_only : (x : IndexEntry) → Popped (x ∷ []) x []
  pop_only x = record {
    members = λ p. refl;
    size = refl;
    greatest = tt;
    all = (omega arith, tt);
    valid = λ a. (a.0, tt);
  }

  pop_later :
      (x n : IndexEntry) (xs r : List IndexEntry)
      → generation x ≤ generation n
      → Popped xs n r
      → Popped (x ∷ xs) n (x ∷ r)
  pop_later x n xs r h b = record {
    members = λ p. ground (arith, b.members p);
    size = ap suc b.size;
    greatest = (h, b.greatest);
    all = (h, b.all);
    valid = λ a. let (v, w) = b.valid a.1 in (v, (a.0, w));
  }

  pop_first :
      (x n : IndexEntry) (xs r : List IndexEntry)
      → generation n ≤ generation x
      → Popped xs n r
      → Popped (x ∷ xs) x xs
  pop_first x n xs r h b = record {
    members = λ p. refl;
    size = refl;
    greatest = AllUpTo-le (generation n) (generation x) xs h b.all;
    all = (omega arith, AllUpTo-le (generation n) (generation x) xs h b.all);
    valid = λ a. (a.0, a.1);
  }

  pop_last-Popped :
      (l : List IndexEntry) (m : IndexEntry) (rest : List IndexEntry)
      → pop_last l ≡ some (m, rest)
      → Popped l m rest
  unfolding pop_last
  pop_last-Popped [] m rest h = absurd (cc)
  pop_last-Popped (x ∷ xs) m rest h = elim (Option-cases (pop_last xs)) [
    | inl e ↦
        let one : some (x, []) ≡ some (m, rest) = rw (e, pop_last) at h in
        rw (pop_last-none xs e) (Popped-some (x ∷ []) (x, []) (m, rest) one (pop_only x))
    | inr ((n, r), e) ↦
        let below = pop_last-Popped xs n r e in
        elim (Ordering-cases (generation_cmp x n)) [
          | inl c ↦
              let one : some (n, x ∷ r) ≡ some (m, rest) = rw (e, c, pop_last) at h in
              Popped-some (x ∷ xs) (n, x ∷ r) (m, rest) one
                (pop_later x n xs r (generation_cmp-lt x n c) below)
          | inr (inl c) ↦
              let ge = generation_cmp-ge x n (λ d. ground (arith, c, d)) in
              let one : some (x, xs) ≡ some (m, rest) = rw (e, c, pop_last) at h in
              Popped-some (x ∷ xs) (x, xs) (m, rest) one (pop_first x n xs r ge below)
          | inr (inr c) ↦
              let ge = generation_cmp-ge x n (λ d. ground (arith, c, d)) in
              let one : some (x, xs) ≡ some (m, rest) = rw (e, c, pop_last) at h in
              Popped-some (x ∷ xs) (x, xs) (m, rest) one (pop_first x n xs r ge below)
        ]
  ]

module _ (size : ℕ) (graph : IndexPosition → GraphEntry)
    (entry_by_pos : IndexPosition → Outcome IndexEntry) (g : IsGraph size graph entry_by_pos)
    (candidates : List IndexPosition) (candidates_below : AllBelow size candidates) where
  -- The commit is an ancestor of a parent of one of the candidates.
  abbrev pub IsBeaten : IndexPosition → Type 0
  IsBeaten p =
      (c : IndexPosition) × (Sets.contains candidates c ≡ true)
      × (q : IndexPosition) × (Sets.contains (graph c).parent_positions q ≡ true)
      × IsAncestor graph p q

  IsBeaten-parent :
      (p q : IndexPosition)
      → Sets.contains (graph p).parent_positions q ≡ true
      → IsBeaten p
      → IsBeaten q
  IsBeaten-parent p q h (c, i, r, j, a) = (c, i, r, j, IsAncestor-trans graph (via q h self) a)

  pub record Inv (min : ℕ) (work : List IndexEntry) (visited left : List IndexPosition)
      : Type 0 where
    pub valid : AllAt graph work
    pub below : AllBelow size (positions work)
    pub beaten : (p : IndexPosition) → Sets.contains (positions work) p ≡ true → IsBeaten p
    pub seen_beaten : (p : IndexPosition) → Sets.contains visited p ≡ true → IsBeaten p
    pub seen_below : AllBelow size visited
    pub started :
        (c q : IndexPosition)
        → Sets.contains candidates c ≡ true
        → Sets.contains (graph c).parent_positions q ≡ true
        → (Sets.contains visited q || Sets.contains (positions work) q) ≡ true
    pub closed :
        (v q : IndexPosition)
        → Sets.contains visited v ≡ true
        → Sets.contains (graph v).parent_positions q ≡ true
        → (Sets.contains visited q || Sets.contains (positions work) q) ≡ true
    pub lefts :
        (p : IndexPosition)
        → Sets.contains left p ≡ (Sets.contains candidates p && not (Sets.contains visited p))
    pub least :
        (c : IndexPosition) → Sets.contains candidates c ≡ true → min ≤ (graph c).generation_number

  -- Where all work has too small a generation, what reaches a visited commit is visited.
  visited_path :
      (min : ℕ) (work : List IndexEntry) (visited left : List IndexPosition) (p : IndexPosition)
      {q : IndexPosition}
      → Inv min work visited left
      → ((r : IndexPosition)
          → Sets.contains (positions work) r ≡ true
          → (graph r).generation_number < min)
      → min ≤ (graph p).generation_number
      → q < size
      → (Sets.contains visited q || Sets.contains (positions work) q) ≡ true
      → IsAncestor graph p q
      → Sets.contains visited p ≡ true
  visited_path min work visited left p {q} i small m b h self = ground (arith, small q)
  visited_path min work visited left p {q} i small m b h (via r e a) =
      let q_seen : Sets.contains visited q ≡ true =
        elim (IsAncestor-generation graph size entry_by_pos g b (via r e a)) [
          | inl same ↦ ground (arith, small q, same)
          | inr l ↦ ground (arith, small q)
        ] in
      visited_path min work visited left p i small m
        (parents-below graph size entry_by_pos g q b r e) (i.closed q r q_seen e) a

  -- What is left at the end are the candidates that are not beaten.
  abbrev pub AreHeads : List IndexPosition → Type 0
  AreHeads result =
      (p : IndexPosition)
      → (Sets.contains result p ≡ true) ↔ ((Sets.contains candidates p ≡ true) × (IsBeaten p → ⊥))

  finished :
      (min : ℕ) (work : List IndexEntry) (visited left : List IndexPosition)
      → Inv min work visited left
      → ((r : IndexPosition)
          → Sets.contains (positions work) r ≡ true
          → (graph r).generation_number < min)
      → AreHeads left
  finished min work visited left i small p = (
    λ h. (
      ground (arith, i.lefts p),
      λ b.
          let (c, x, q, y, a) = b in
          ground (
            arith,
            visited_path min work visited left p i small (i.least p (ground (arith, i.lefts p)))
                (parents-below graph size entry_by_pos g c (candidates_below c x) q y)
                (i.started c q x y) a,
            i.lefts p,
          ),
    ),
    λ h. elim (Bool-cases (Sets.contains visited p)) [
      | inl seen ↦ absurd (h.1 (i.seen_beaten p seen))
      | inr new ↦ ground (arith, i.lefts p)
    ],
  )

  -- The rounds of the loop.
  module _ (min : ℕ) (work : List IndexEntry) (visited left : List IndexPosition)
      (i : Inv min work visited left) (m : IndexEntry) (rest : List IndexEntry)
      (popped : Popped graph work m rest) where
    skip : Sets.contains visited m.pos ≡ true → Inv min rest visited left
    skip seen = record {
      valid = (popped.valid i.valid).1;
      below = λ p h. i.below p (ground (arith, popped.members p));
      beaten = λ p h. i.beaten p (ground (arith, popped.members p));
      seen_beaten = i.seen_beaten;
      seen_below = i.seen_below;
      started = λ c q x y. ground (arith, i.started c q x y, popped.members q, beq_iff m.pos q);
      closed = λ v q x y. ground (arith, i.closed v q x y, popped.members q, beq_iff m.pos q);
      lefts = i.lefts;
      least = i.least;
    }

    item_in : Sets.contains (positions work) m.pos ≡ true
    item_in = ground (arith, popped.members m.pos, beq_iff m.pos m.pos)

    small_work :
        (r : IndexPosition)
        → Sets.contains (positions work) r ≡ true
        → (graph r).generation_number ≤ generation m
    small_work = up_to work i.valid popped.all
      where
        up_to :
            (l : List IndexEntry)
            → AllAt graph l
            → AllUpTo (generation m) l
            → (r : IndexPosition) → Sets.contains (positions l) r ≡ true
            → (graph r).generation_number ≤ generation m
        up_to [] a u r h = cc
        up_to (x ∷ xs) a u r h = elim (Bool-cases (x.pos == r)) [
          | inl e ↦
              let same : x.pos ≡ r = (beq_iff x.pos r).0 e in
              let g : generation x ≡ (graph x.pos).generation_number = ap generation a.0 in
              rw (sym same) (omega (arith, g, u.0))
          | inr e ↦ up_to xs a.1 u.1 r (ground arith)
        ]

    expand :
        Sets.contains visited m.pos ≡ false
        → Inv min
            (entries_at graph (graph m.pos).parent_positions ++ rest)
            (m.pos ∷ visited)
            (Sets.remove m.pos left)
    expand new =
        let m_below = i.below m.pos item_in in
        let m_beaten = i.beaten m.pos item_in in
        record {
          valid =
              AllAt-append graph (entries_at graph (graph m.pos).parent_positions) rest
                (AllAt-entries_at graph (graph m.pos).parent_positions) (popped.valid i.valid).1;
          below = λ p h. ground (
            arith,
            contains-entries_at graph (graph m.pos).parent_positions rest p,
            parents-below graph size entry_by_pos g m.pos m_below p,
            i.below p,
            popped.members p,
          );
          beaten = λ p h.
              elim (or_true (Sets.contains (graph m.pos).parent_positions p)
                (Sets.contains (positions rest) p)
                (sym (contains-entries_at graph (graph m.pos).parent_positions rest p) ∙ h)) [
                  | inl e ↦ IsBeaten-parent m.pos p e m_beaten
                  | inr e ↦ i.beaten p (ground (arith, popped.members p))
                ];
          seen_beaten = λ p h. elim (or_true (m.pos == p) (Sets.contains visited p) h) [
            | inl e ↦ rw (sym ((beq_iff m.pos p).0 e)) m_beaten
            | inr e ↦ i.seen_beaten p e
          ];
          seen_below = λ p h. ground (arith, i.seen_below p, m_below, beq_iff m.pos p);
          started = λ c q x y. ground (
            arith,
            i.started c q x y,
            popped.members q,
            contains-entries_at graph (graph m.pos).parent_positions rest q,
            beq_iff m.pos q,
          );
          closed = λ v q x y. ground (
            arith,
            i.closed v q,
            x,
            y,
            popped.members q,
            contains-entries_at graph (graph m.pos).parent_positions rest q,
            beq_iff m.pos q,
            beq_iff m.pos v,
          );
          lefts = λ p. ground (arith, i.lefts p, Sets.contains-remove m.pos p left);
          least = i.least;
        }

  pub heads_loop_lem :
      (min fuel : ℕ) (work : List IndexEntry) (visited left : List IndexPosition)
      → Inv min work visited left
      → length work + pending graph size visited < fuel
      → (result : List IndexPosition) × (heads_loop entry_by_pos fuel min work visited left
          ≡ done result)
        × AreHeads result
  unfolding heads_loop
  heads_loop_lem min zero work visited left i f = absurd (omega arith)
  heads_loop_lem min (suc fuel) work visited left i f = elim (Option-cases (pop_last work)) [
    | inl e ↦ (
      left,
      rw (e, heads_loop) refl,
      finished min work visited left i (λ r h. ground (arith, pop_last-none work e)),
    )
    | inr ((m, rest), e) ↦
        let popped = pop_last-Popped graph work m rest e in
        let (m_at, _) = popped.valid i.valid in
        let m_below = i.below m.pos (item_in min work visited left i m rest popped) in
        let sized = popped.size in
        elim (Bool-cases (Sets.contains visited m.pos)) [
          | inl seen ↦
              let (r, ends, heads) =
                heads_loop_lem min fuel rest visited left
                  (skip min work visited left i m rest popped seen) (omega arith) in
              (r, rw (e, heads_loop, seen) ends, heads)
          | inr new ↦ elim (Bool-cases (ltb m.entry.generation_number min)) [
            | inl low ↦ (
              left,
              rw (e, heads_loop, new, low) refl,
              finished min work visited left i
                  (λ r h. ground (arith, small_work min work visited left i m rest popped r h)),
            )
            | inr high ↦
                let ps = (graph m.pos).parent_positions in
                let some_parents : parents entry_by_pos m ≡ done (entries_at graph ps) =
                  ap (parents entry_by_pos) m_at
                  ∙ parents_lem graph size entry_by_pos g m.pos m_below in
                let l1 = length-append (entries_at graph ps) rest in
                let l2 = length-entries_at graph ps in
                let v = pending_visit graph size m.pos visited m_below new in
                let (r, ends, heads) =
                  heads_loop_lem min fuel (entries_at graph ps ++ rest) (m.pos ∷ visited)
                    (Sets.remove m.pos left) (expand min work visited left i m rest popped new)
                    (omega arith) in
                (r, rw (e, heads_loop, new, high, some_parents) ends, heads)
          ]
        ]
  ]
