-- ===== src/DagWalk/Topo.antt =====
-- The loops of `topo_order_reverse` in lib/src/dag_walk.rs.
use jj.Prelude.{
  ℕ, zero, suc, ◌+◌, ◌<◌, ◌≤◌, ◌≡◌, refl, sym, ◌∙◌, ap, inl, inr, Bool, true, false, ◌||◌, List, [],
  ◌∷◌, arith, Bool-cases, length, Eq, ◌==◌, beq_iff,
}
use jj.Prelude.Outcome.{done, ◌>>=◌}
use jj.Prelude.Sets
use jj.DagWalk.{TopoState, topo_loop, topo_starts, topo_order_reverse}
use jj.DagWalk.Order.{ids, IsTopological, not_opened}
use mathlib.Core.List.{reverse, reverse_aux}
use jj.DagWalk.Dag.{
  on_stack, contains-on_stack-push_all, length-push_all, potential, potential-le, potential-visit,
  IsDag,
}
use jj.DagWalk.TopoSteps.{seen_by, Inv, Inv-skip, expand, visit, Inv-expand, emit, Inv-emit}

module _ {ℓ κ} {T : Type ℓ} {ID : Type κ} ⦃e : Eq ID⦄ (id_fn : T → ID)
    (neighbors_fn : T → List T) where
  module _ (all : List T) (rank : ID → ℕ) (g : IsDag id_fn neighbors_fn all rank) where
    -- What a run of the loop gives: every node on the stack is emitted, and those before it.
    record Ran (stack : List (T × Bool)) (s s' : TopoState T ID) : Type (ℓ ⊔ κ) where
      inv : Inv id_fn neighbors_fn all rank g [] s'
      kept : (x : ID) → Sets.contains s.emitted x ≡ true → Sets.contains s'.emitted x ≡ true
      emitted_all :
          (x : ID)
          → Sets.contains (on_stack id_fn neighbors_fn stack) x ≡ true
          → Sets.contains s'.emitted x ≡ true

    Ran-skip :
        (n : T) (b : Bool) (stack : List (T × Bool)) (s s' : TopoState T ID)
        → Sets.contains s.emitted (id_fn n) ≡ true
        → Ran stack s s'
        → Ran ((n, b) ∷ stack) s s'
    Ran-skip n b stack s s' h r = record {
      inv = r.inv;
      kept = r.kept;
      emitted_all = λ x j. elim (Bool-cases (id_fn n == x)) [
        | inl w ↦
            r.kept x (ap (λ y. Sets.contains s.emitted y) (sym ((beq_iff (id_fn n) x).0 w)) ∙ h)
        | inr w ↦ r.emitted_all x (ground arith)
      ];
    }

    Ran-expand :
        (n : T) (stack : List (T × Bool)) (s s' : TopoState T ID)
        → Ran
            (expand id_fn neighbors_fn all rank g n stack)
            (visit id_fn neighbors_fn all rank g n s)
            s'
        → Ran ((n, false) ∷ stack) s s'
    Ran-expand n stack s s' r = record {
      inv = r.inv;
      kept = r.kept;
      emitted_all = λ x j. r.emitted_all x (
          ground (
            arith,
            contains-on_stack-push_all id_fn neighbors_fn (neighbors_fn n) ((n, true) ∷ stack) x,
          ));
    }

    Ran-emit :
        (n : T) (stack : List (T × Bool)) (s s' : TopoState T ID)
        → Ran stack (emit id_fn neighbors_fn all rank g n s) s'
        → Ran ((n, true) ∷ stack) s s'
    Ran-emit n stack s s' r = record {
      inv = r.inv;
      kept = λ x j. r.kept x (ground arith);
      emitted_all = λ x j. elim (Bool-cases (id_fn n == x)) [
        | inl w ↦ r.kept x (ground arith)
        | inr w ↦ r.emitted_all x (ground arith)
      ];
    }

    -- A node that is opened now was not, and is one of the graph.
    not_visiting :
        (n : T) (stack : List (T × Bool)) (s : TopoState T ID)
        → Inv id_fn neighbors_fn all rank g ((n, false) ∷ stack) s
        → Sets.contains s.visiting (id_fn n) ≡ false
    not_visiting n stack s i =
        i.visits (id_fn n)
        ∙ not_opened id_fn neighbors_fn rank (id_fn n ∷ []) (id_fn n) stack i.ranked
            (ground (arith, beq_iff (id_fn n) (id_fn n)))

    potential-expand :
        (n : T) (stack : List (T × Bool)) (s : TopoState T ID)
        → Inv id_fn neighbors_fn all rank g ((n, false) ∷ stack) s
        → Sets.contains s.emitted (id_fn n) ≡ false
        → length (expand id_fn neighbors_fn all rank g n stack)
            + potential id_fn neighbors_fn
                (seen_by id_fn neighbors_fn all rank g (visit id_fn neighbors_fn all rank g n s))
                all
          ≤ length stack
            + potential id_fn neighbors_fn (seen_by id_fn neighbors_fn all rank g s) all
    potential-expand n stack s i q =
        let less =
          potential-visit id_fn neighbors_fn (seen_by id_fn neighbors_fn all rank g s)
            (seen_by id_fn neighbors_fn all rank g (visit id_fn neighbors_fn all rank g n s)) all n
            g.one_node (λ x j. ground arith) (ground (arith, not_visiting n stack s i))
            (ground (arith, beq_iff (id_fn n) (id_fn n)))
            (i.known (id_fn n) (ground (arith, beq_iff (id_fn n) (id_fn n)))) in
        omega (arith, less, length-push_all id_fn neighbors_fn (neighbors_fn n) ((n, true) ∷ stack))

    potential-emit :
        (n : T) (s : TopoState T ID)
        → potential id_fn neighbors_fn
            (seen_by id_fn neighbors_fn all rank g (emit id_fn neighbors_fn all rank g n s))
            all
          ≤ potential id_fn neighbors_fn (seen_by id_fn neighbors_fn all rank g s) all
    potential-emit n s =
        potential-le id_fn neighbors_fn (seen_by id_fn neighbors_fn all rank g s)
          (seen_by id_fn neighbors_fn all rank g (emit id_fn neighbors_fn all rank g n s)) all
          (λ x j. ground (arith, Sets.contains-remove (id_fn n) x s.visiting))

    -- Between two rounds, `length stack + potential` falls.
    topo_loop_lem :
        (fuel : ℕ) (stack : List (T × Bool)) (s : TopoState T ID)
        → Inv id_fn neighbors_fn all rank g stack s
        → length stack + potential id_fn neighbors_fn (seen_by id_fn neighbors_fn all rank g s) all
          < fuel
        → (s' : TopoState T ID) × (topo_loop id_fn neighbors_fn fuel stack s ≡ done s')
          × Ran stack s s'
    unfolding topo_loop
    topo_loop_lem zero stack s i f = absurd (omega arith)
    topo_loop_lem (suc fuel) [] s i f =
        (s, refl, record { inv = i; kept = λ x h. h; emitted_all = λ x h. absurd (cc h) })
    topo_loop_lem (suc fuel) ((n, false) ∷ stack) s i f =
        elim (Bool-cases (Sets.contains s.emitted (id_fn n))) [
          | inl q ↦
              let (s', ends, r) =
                topo_loop_lem fuel stack s
                  (Inv-skip id_fn neighbors_fn all rank g n false stack s i q) (omega arith) in
              (s', rw (topo_loop, q) ends, Ran-skip n false stack s s' q r)
          | inr q ↦
              let (s', ends, r) =
                topo_loop_lem fuel (expand id_fn neighbors_fn all rank g n stack)
                  (visit id_fn neighbors_fn all rank g n s)
                  (Inv-expand id_fn neighbors_fn all rank g n stack s i q)
                  (omega (arith, potential-expand n stack s i q)) in
              (s', rw (topo_loop, q, not_visiting n stack s i) ends, Ran-expand n stack s s' r)
        ]
    topo_loop_lem (suc fuel) ((n, true) ∷ stack) s i f =
        elim (Bool-cases (Sets.contains s.emitted (id_fn n))) [
          | inl q ↦
              let (s', ends, r) =
                topo_loop_lem fuel stack s
                  (Inv-skip id_fn neighbors_fn all rank g n true stack s i q) (omega arith) in
              (s', rw (topo_loop, q) ends, Ran-skip n true stack s s' q r)
          | inr q ↦
              let (s', ends, r) =
                topo_loop_lem fuel stack (emit id_fn neighbors_fn all rank g n s)
                  (Inv-emit id_fn neighbors_fn all rank g n stack s i q)
                  (omega (arith, potential-emit n s)) in
              (s', rw (topo_loop, q) ends, Ran-emit n stack s s' r)
        ]

    -- Fuel for one start node.
    abbrev Enough : ℕ → Type 0
    Enough fuel = suc (potential id_fn neighbors_fn (λ x. false) all) < fuel

    record RanAll (starts : List T) (s s' : TopoState T ID) : Type (ℓ ⊔ κ) where
      inv : Inv id_fn neighbors_fn all rank g [] s'
      kept : (x : ID) → Sets.contains s.emitted x ≡ true → Sets.contains s'.emitted x ≡ true
      emitted_all :
          (x : ID) → Sets.contains (ids id_fn starts) x ≡ true → Sets.contains s'.emitted x ≡ true

    Inv-start :
        (n : T) (s : TopoState T ID)
        → Inv id_fn neighbors_fn all rank g [] s
        → Sets.contains (ids id_fn all) (id_fn n) ≡ true
        → Inv id_fn neighbors_fn all rank g ((n, false) ∷ []) s
    Inv-start n s i k = record {
      waiting = tt;
      ranked = tt;
      visits = i.visits;
      fresh = i.fresh;
      results = i.results;
      ordered = i.ordered;
      known = λ x j. elim (Bool-cases (id_fn n == x)) [
        | inl w ↦ ap (λ y. Sets.contains (ids id_fn all) y) (sym ((beq_iff (id_fn n) x).0 w)) ∙ k
        | inr w ↦ absurd (ground arith)
      ];
      known_result = i.known_result;
    }

    topo_starts_lem :
        (fuel : ℕ) (starts : List T) (s : TopoState T ID)
        → Inv id_fn neighbors_fn all rank g [] s
        → Enough fuel
        → ((x : ID)
            → Sets.contains (ids id_fn starts) x ≡ true
            → Sets.contains (ids id_fn all) x ≡ true)
        → (s' : TopoState T ID) × (topo_starts id_fn neighbors_fn fuel starts s ≡ done s')
          × RanAll starts s s'
    unfolding topo_starts
    topo_starts_lem fuel [] s i f k =
        (s, refl, record { inv = i; kept = λ x h. h; emitted_all = λ x h. absurd (cc h) })
    topo_starts_lem fuel (n ∷ ns) s i f k =
        let less =
          potential-le id_fn neighbors_fn (λ x. false) (seen_by id_fn neighbors_fn all rank g s) all
            (λ x j. absurd (cc j)) in
        let (s1, ends1, r1) =
          topo_loop_lem fuel ((n, false) ∷ []) s
            (Inv-start n s i (k (id_fn n) (ground (arith, beq_iff (id_fn n) (id_fn n)))))
            (omega (arith, less)) in
        let (s2, ends2, r2) = topo_starts_lem fuel ns s1 r1.inv f (λ x j. k x (ground arith)) in
        (
          s2,
          rw (ends1, ◌>>=◌) ends2,
          record {
            inv = r2.inv;
            kept = λ x j. r2.kept x (r1.kept x j);
            emitted_all = λ x j. elim (Bool-cases (id_fn n == x)) [
              | inl w ↦ r2.kept x (r1.emitted_all x (ground arith))
              | inr w ↦ r2.emitted_all x (ground arith)
            ];
          },
        )

    contains-reverse :
        (xs : List T) (x : ID)
        → Sets.contains (ids id_fn (reverse xs)) x ≡ Sets.contains (ids id_fn xs) x
    contains-reverse xs x = onto xs [] ∙ ground arith
      where
        onto :
            (ys zs : List T)
            → Sets.contains (ids id_fn (reverse_aux ys zs)) x
              ≡ (Sets.contains (ids id_fn ys) x || Sets.contains (ids id_fn zs) x)
        onto [] zs = refl
        onto (y ∷ ys) zs = onto ys (y ∷ zs) ∙ ground arith

    -- What `topo_order_reverse` promises: each node once and before its neighbors, with all the
    -- start nodes, and only nodes of the graph.
    abbrev pub IsTopoOrder : List T → List T → Type κ
    IsTopoOrder start result =
        IsTopological id_fn neighbors_fn result
        × ((x : ID)
            → (Sets.contains (ids id_fn start) x ≡ true → Sets.contains (ids id_fn result) x ≡ true)
              × (Sets.contains (ids id_fn result) x ≡ true
                  → Sets.contains (ids id_fn all) x ≡ true))

    -- On a finite graph without cycles, with fuel for the nodes and edges, `topo_order_reverse` neither
    -- panics nor runs out of fuel: it returns every start node, each node once and before its neighbors,
    -- with all the neighbors, and only nodes of the graph.
    pub topo_order_reverse_lem :
        (fuel : ℕ) (start : List T)
        → Enough fuel
        → ((x : ID)
            → Sets.contains (ids id_fn start) x ≡ true
            → Sets.contains (ids id_fn all) x ≡ true)
        → (result : List T) × (topo_order_reverse id_fn neighbors_fn fuel start ≡ done result)
          × IsTopoOrder start result
    unfolding topo_order_reverse
    topo_order_reverse_lem fuel start f k =
        let (s, ends, r) =
          topo_starts_lem fuel (reverse start) nothing empty f
            (λ x j. k x (sym (contains-reverse start x) ∙ j)) in
        let i = r.inv in
        (
          s.result,
          rw (ends, ◌>>=◌) refl,
          (
            i.ordered,
            λ x. (
              λ j. sym (i.results x) ∙ r.emitted_all x (contains-reverse start x ∙ j),
              λ j. i.known_result x (i.results x ∙ j),
            ),
          ),
        )
      where
        nothing : TopoState T ID
        nothing = record { visiting = []; emitted = []; result = [] }

        empty : Inv id_fn neighbors_fn all rank g [] nothing
        empty = record {
          waiting = tt;
          ranked = tt;
          visits = λ x. refl;
          fresh = λ x j. absurd (cc j);
          results = λ x. refl;
          ordered = tt;
          known = λ x j. absurd (cc j);
          known_result = λ x j. absurd (cc j);
        }
