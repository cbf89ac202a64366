-- ===== src/DagWalk/Dag.antt =====
-- The graphs that `topo_order_reverse` of lib/src/dag_walk.rs orders, and how much there is to push.
use jj.Prelude.{
  ℕ, suc, ◌+◌, ◌<◌, ◌≤◌, ◌≡◌, refl, ◌∙◌, ap, inl, inr, Bool, true, false, ◌||◌, List, [], ◌∷◌,
  arith, if◌then◌else◌, Bool-cases, length, Eq, ◌==◌, beq_iff,
}
use jj.Prelude.Sets
use jj.DagWalk.{push_all}
use jj.DagWalk.Order.{ids}

module _ {ℓ κ} {T : Type ℓ} {ID : Type κ} ⦃e : Eq ID⦄ (id_fn : T → ID)
    (neighbors_fn : T → List T) where
  -- The ids on the stack.
  abbrev pub on_stack : List (T × Bool) → List ID
  on_stack [] = []
  on_stack ((n, b) ∷ stack) = id_fn n ∷ on_stack stack

  pub contains-on_stack-push_all :
      (nodes : List T) (stack : List (T × Bool)) (x : ID)
      → Sets.contains (on_stack (push_all nodes stack)) x
        ≡ (Sets.contains (ids id_fn nodes) x || Sets.contains (on_stack stack) x)
  unfolding push_all
  contains-on_stack-push_all [] stack x = refl
  contains-on_stack-push_all (n ∷ ns) stack x =
      ground (arith, contains-on_stack-push_all ns ((n, false) ∷ stack) x)

  pub length-push_all :
      (nodes : List T) (stack : List (T × Bool))
      → length (push_all nodes stack) ≡ length nodes + length stack
  unfolding push_all
  length-push_all [] stack = omega arith
  length-push_all (n ∷ ns) stack = omega (arith, length-push_all ns ((n, false) ∷ stack))

  -- What the nodes that were not seen can still push, themselves included.
  abbrev pub potential : (ID → Bool) → List T → ℕ
  potential seen [] = 0
  potential seen (x ∷ xs) =
      (if seen (id_fn x) then 0 else suc (length (neighbors_fn x))) + potential seen xs

  pub potential-le :
      (seen seen' : ID → Bool) (all : List T)
      → ((x : ID) → seen x ≡ true → seen' x ≡ true)
      → potential seen' all ≤ potential seen all
  potential-le seen seen' [] h = omega arith
  potential-le seen seen' (x ∷ xs) h = ground (arith, h (id_fn x), potential-le seen seen' xs h)

  -- A graph: its nodes, with what they lead to, and a rank that falls along its edges.
  pub record IsDag (all : List T) (rank : ID → ℕ) : Type (ℓ ⊔ κ) where
    pub one_node : (x y : T) → id_fn x ≡ id_fn y → x ≡ y
    pub closed :
        (n : T) (x : ID)
        → Sets.contains (ids id_fn all) (id_fn n) ≡ true
        → Sets.contains (ids id_fn (neighbors_fn n)) x ≡ true
        → Sets.contains (ids id_fn all) x ≡ true
    pub falls :
        (n : T) (x : ID)
        → Sets.contains (ids id_fn all) (id_fn n) ≡ true
        → Sets.contains (ids id_fn (neighbors_fn n)) x ≡ true
        → rank x < rank (id_fn n)

  pub potential-visit :
      (seen seen' : ID → Bool) (all : List T) (n : T)
      → ((x y : T) → id_fn x ≡ id_fn y → x ≡ y)
      → ((x : ID) → seen x ≡ true → seen' x ≡ true)
      → seen (id_fn n) ≡ false
      → seen' (id_fn n) ≡ true
      → Sets.contains (ids id_fn all) (id_fn n) ≡ true
      → potential seen' all + suc (length (neighbors_fn n)) ≤ potential seen all
  potential-visit seen seen' [] n one h f f' i = absurd (ground arith)
  potential-visit seen seen' (x ∷ xs) n one h f f' i = elim (Bool-cases (id_fn x == id_fn n)) [
    | inl q ↦
        let same : x ≡ n = one x n ((beq_iff (id_fn x) (id_fn n)).0 q) in
        let le : potential seen' xs ≤ potential seen xs = potential-le seen seen' xs h in
        let new : seen (id_fn x) ≡ false = ap (λ y. seen (id_fn y)) same ∙ f in
        let new' : seen' (id_fn x) ≡ true = ap (λ y. seen' (id_fn y)) same ∙ f' in
        let sized : length (neighbors_fn x) ≡ length (neighbors_fn n) =
          ap (λ y. length (neighbors_fn y)) same in
        rw (new, new') (omega arith)
    | inr q ↦
        let there : Sets.contains (ids id_fn xs) (id_fn n) ≡ true = ground arith in
        ground (arith, h (id_fn x), potential-visit seen seen' xs n one h f f' there)
  ]
