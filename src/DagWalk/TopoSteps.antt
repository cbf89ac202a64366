-- ===== src/DagWalk/TopoSteps.antt =====
-- What holds between two rounds of `topo_order_reverse` in lib/src/dag_walk.rs, and that each kind of
-- round keeps it.
use jj.Prelude.{
  ℕ, ◌<◌, ◌≤◌, ◌≡◌, sym, ◌∙◌, ap, inl, inr, Bool, true, false, ◌||◌, List, [], ◌∷◌, ◌++◌, arith,
  Bool-cases, Eq, ◌==◌, beq_iff, or_true,
}
use jj.Prelude.Sets
use jj.DagWalk.{push_all, TopoState}
use jj.DagWalk.Order.{
  ids, IsTopological, Waiting, Waiting-weaken, Waiting-push_all, Ranked, Ranked-Lower,
  Ranked-push_all, opened, not_opened, opened-push_all,
}
use jj.DagWalk.Dag.{on_stack, contains-on_stack-push_all, IsDag}

module _ {ℓ κ} {T : Type ℓ} {ID : Type κ} ⦃e : Eq ID⦄ (id_fn : T → ID)
    (neighbors_fn : T → List T) where
  module _ (all : List T) (rank : ID → ℕ) (g : IsDag id_fn neighbors_fn all rank) where
    abbrev pub in_all : ID → Bool
    in_all x = Sets.contains (ids id_fn all) x

    abbrev pub seen_by : TopoState T ID → ID → Bool
    seen_by s x = Sets.contains s.visiting x || Sets.contains s.emitted x

    -- What holds between two rounds of the loop.
    pub record Inv (stack : List (T × Bool)) (s : TopoState T ID) : Type (ℓ ⊔ κ) where
      pub waiting : Waiting id_fn neighbors_fn s.emitted [] stack
      pub ranked : Ranked id_fn neighbors_fn rank [] stack
      pub visits :
          (x : ID)
          → Sets.contains s.visiting x ≡ Sets.contains (opened id_fn neighbors_fn rank stack) x
      pub fresh :
          (x : ID)
          → Sets.contains (opened id_fn neighbors_fn rank stack) x ≡ true
          → Sets.contains s.emitted x ≡ false
      pub results : (x : ID) → Sets.contains s.emitted x ≡ Sets.contains (ids id_fn s.result) x
      pub ordered : IsTopological id_fn neighbors_fn s.result
      pub known :
          (x : ID) → Sets.contains (on_stack id_fn neighbors_fn stack) x ≡ true → in_all x ≡ true
      pub known_result : (x : ID) → Sets.contains s.emitted x ≡ true → in_all x ≡ true

    -- A node that is emitted already is dropped.
    pub Inv-skip :
        (n : T) (b : Bool) (stack : List (T × Bool)) (s : TopoState T ID)
        → Inv ((n, b) ∷ stack) s
        → Sets.contains s.emitted (id_fn n) ≡ true
        → Inv stack s
    Inv-skip n true stack s i h =
        absurd (cc (h, i.fresh (id_fn n) (ground (arith, beq_iff (id_fn n) (id_fn n)))))
    Inv-skip n false stack s i h = record {
      waiting =
          Waiting-weaken id_fn neighbors_fn s.emitted s.emitted (id_fn n ∷ []) [] stack
            (λ x j. elim (Bool-cases (id_fn n == x)) [
              | inl q ↦
                  ground (arith, ap (λ y. Sets.contains s.emitted y) ((beq_iff (id_fn n) x).0 q))
              | inr q ↦ ground arith
            ])
            i.waiting;
      ranked = Ranked-Lower id_fn neighbors_fn rank (id_fn n ∷ []) [] stack (λ x j. cc) i.ranked;
      visits = i.visits;
      fresh = i.fresh;
      results = i.results;
      ordered = i.ordered;
      known = λ x j. i.known x (ground arith);
      known_result = i.known_result;
    }

    -- A node whose neighbors are pushed.
    abbrev pub expand : T → List (T × Bool) → List (T × Bool)
    expand n stack = push_all (neighbors_fn n) ((n, true) ∷ stack)

    abbrev pub visit : T → TopoState T ID → TopoState T ID
    visit n s = record s { visiting = id_fn n ∷ s.visiting }

    pub Inv-expand :
        (n : T) (stack : List (T × Bool)) (s : TopoState T ID)
        → Inv ((n, false) ∷ stack) s
        → Sets.contains s.emitted (id_fn n) ≡ false
        → Inv (expand n stack) (visit n s)
    Inv-expand n stack s i h =
        let ns = ids id_fn (neighbors_fn n) in
        let app = λ (x : ID). Sets.contains-append ns [] x in
        let open_same =
          opened-push_all id_fn neighbors_fn rank (neighbors_fn n) ((n, true) ∷ stack) in
        let n_known : in_all (id_fn n) ≡ true =
          i.known (id_fn n) (ground (arith, beq_iff (id_fn n) (id_fn n))) in
        record {
          waiting =
              Waiting-push_all id_fn neighbors_fn s.emitted [] (neighbors_fn n) ((n, true) ∷ stack)
                (
                  λ x j. ground (arith, app x),
                  Waiting-weaken id_fn neighbors_fn s.emitted s.emitted (id_fn n ∷ [])
                      (id_fn n ∷ ns ++ []) stack (λ x j. ground arith) i.waiting,
                );
          ranked = Ranked-push_all id_fn neighbors_fn rank [] (neighbors_fn n) ((n, true) ∷ stack) (
            λ x j. g.falls n x n_known (ground (arith, app x)),
            Ranked-Lower id_fn neighbors_fn rank (id_fn n ∷ []) (id_fn n ∷ ns ++ []) stack
                (λ x j. (
                  id_fn n,
                  ground (arith, beq_iff (id_fn n) (id_fn n)),
                  lower x (ground (arith, app x)),
                ))
                i.ranked,
          );
          visits = λ x. rw open_same (ground (arith, i.visits x));
          fresh = λ x j.
              let j' : Sets.contains (id_fn n ∷ opened id_fn neighbors_fn rank stack) x ≡ true =
                ap (λ l. Sets.contains l x) (sym open_same) ∙ j in
              elim (Bool-cases (id_fn n == x)) [
                | inl q ↦ ap (λ y. Sets.contains s.emitted y) (sym ((beq_iff (id_fn n) x).0 q)) ∙ h
                | inr q ↦ i.fresh x (ground arith)
              ];
          results = i.results;
          ordered = i.ordered;
          known = λ x j.
              elim (or_true (Sets.contains ns x)
                (Sets.contains (id_fn n ∷ on_stack id_fn neighbors_fn stack) x)
                (sym (
                    contains-on_stack-push_all id_fn neighbors_fn (neighbors_fn n)
                      ((n, true) ∷ stack) x)
                  ∙ j)) [ inl q ↦ g.closed n x n_known q | inr q ↦ i.known x q ];
          known_result = i.known_result;
        }
      where
        lower :
            (x : ID)
            → (id_fn n == x || Sets.contains (ids id_fn (neighbors_fn n)) x) ≡ true
            → rank x ≤ rank (id_fn n)
        lower x j = elim (Bool-cases (id_fn n == x)) [
          | inl q ↦ let same : id_fn n ≡ x = (beq_iff (id_fn n) x).0 q in rw same (omega arith)
          | inr q ↦
              let less : rank x < rank (id_fn n) =
                g.falls n x (i.known (id_fn n) (ground (arith, beq_iff (id_fn n) (id_fn n))))
                  (ground arith) in
              omega arith
        ]

    abbrev pub emit : T → TopoState T ID → TopoState T ID
    emit n s = record {
      visiting = Sets.remove (id_fn n) s.visiting;
      emitted = id_fn n ∷ s.emitted;
      result = n ∷ s.result;
    }

    pub Inv-emit :
        (n : T) (stack : List (T × Bool)) (s : TopoState T ID)
        → Inv ((n, true) ∷ stack) s
        → Sets.contains s.emitted (id_fn n) ≡ false
        → Inv stack (emit n s)
    Inv-emit n stack s i h =
        let closed_now : Sets.contains (opened id_fn neighbors_fn rank stack) (id_fn n) ≡ false =
          not_opened id_fn neighbors_fn rank (id_fn n ∷ []) (id_fn n) stack i.ranked.1
            (ground (arith, beq_iff (id_fn n) (id_fn n))) in
        record {
          waiting =
              Waiting-weaken id_fn neighbors_fn s.emitted (id_fn n ∷ s.emitted) (id_fn n ∷ []) []
                stack (λ x j. ground arith) i.waiting.1;
          ranked =
              Ranked-Lower id_fn neighbors_fn rank (id_fn n ∷ []) [] stack (λ x j. cc) i.ranked.1;
          visits = λ x. elim (Bool-cases (id_fn n == x)) [
            | inl q ↦
                let gone : Sets.contains (opened id_fn neighbors_fn rank stack) x ≡ false =
                  ap (λ y. Sets.contains (opened id_fn neighbors_fn rank stack) y)
                    (sym ((beq_iff (id_fn n) x).0 q))
                  ∙ closed_now in
                ground (arith, Sets.contains-remove (id_fn n) x s.visiting)
            | inr q ↦ ground (arith, Sets.contains-remove (id_fn n) x s.visiting, i.visits x)
          ];
          fresh = λ x j. elim (Bool-cases (id_fn n == x)) [
            | inl q ↦ absurd (
                cc (
                  j,
                  closed_now,
                  ap (λ y. Sets.contains (opened id_fn neighbors_fn rank stack) y)
                      ((beq_iff (id_fn n) x).0 q),
                ))
            | inr q ↦ ground (arith, i.fresh x)
          ];
          results = λ x. ground (arith, i.results x);
          ordered = (
            λ x j. sym (i.results x) ∙ ground (arith, i.waiting.0 x),
            sym (i.results (id_fn n)) ∙ h,
            i.ordered,
          );
          known = λ x j. i.known x (ground arith);
          known_result = λ x j. elim (Bool-cases (id_fn n == x)) [
            | inl q ↦ i.known x (ground arith)
            | inr q ↦ i.known_result x (ground arith)
          ];
        }
