-- ===== src/DagWalk/Order.antt =====
-- `topo_order_reverse` of lib/src/dag_walk.rs puts every node before its neighbors.
use jj.Prelude.{
  ℕ, ◌<◌, ◌≤◌, ◌≡◌, refl, inl, inr, Bool, true, false, ◌||◌, List, [], ◌∷◌, ◌++◌, arith, Eq, ◌==◌,
  beq_iff, or_true,
}
use jj.Prelude.Sets
use jj.DagWalk.{push_all}

module _ {ℓ κ} {T : Type ℓ} {ID : Type κ} (id_fn : T → ID) where
  abbrev pub ids : List T → List ID
  ids [] = []
  ids (x ∷ xs) = id_fn x ∷ ids xs

module _ {ℓ κ} {T : Type ℓ} {ID : Type κ} ⦃e : Eq ID⦄ (id_fn : T → ID)
    (neighbors_fn : T → List T) where
  -- Every node stands once, and its neighbors behind it.
  abbrev pub IsTopological : List T → Type κ
  IsTopological [] = Unit {κ}
  IsTopological (n ∷ rest) =
      ((x : ID)
        → Sets.contains (ids id_fn (neighbors_fn n)) x ≡ true
        → Sets.contains (ids id_fn rest) x ≡ true)
      × (Sets.contains (ids id_fn rest) (id_fn n) ≡ false)
      × IsTopological rest

  -- For each node on the stack whose neighbors were pushed: they are emitted, or above it.
  abbrev pub Waiting : List ID → List ID → List (T × Bool) → Type κ
  Waiting emitted above [] = Unit {κ}
  Waiting emitted above ((n, false) ∷ stack) = Waiting emitted (id_fn n ∷ above) stack
  Waiting emitted above ((n, true) ∷ stack) =
      ((x : ID)
        → Sets.contains (ids id_fn (neighbors_fn n)) x ≡ true
        → (Sets.contains emitted x || Sets.contains above x) ≡ true)
      × Waiting emitted (id_fn n ∷ above) stack

  pub Waiting-weaken :
      (emitted emitted' above above' : List ID) (stack : List (T × Bool))
      → ((x : ID)
          → (Sets.contains emitted x || Sets.contains above x) ≡ true
          → (Sets.contains emitted' x || Sets.contains above' x) ≡ true)
      → Waiting emitted above stack
      → Waiting emitted' above' stack
  Waiting-weaken m m' a a' [] h w = tt
  Waiting-weaken m m' a a' ((n, false) ∷ stack) h w =
      Waiting-weaken m m' (id_fn n ∷ a) (id_fn n ∷ a') stack (λ x i. ground (arith, h x)) w
  Waiting-weaken m m' a a' ((n, true) ∷ stack) h w = (
    λ x i. h x (w.0 x i),
    Waiting-weaken m m' (id_fn n ∷ a) (id_fn n ∷ a') stack (λ x i. ground (arith, h x)) w.1,
  )

  -- The pushed nodes come above what was on the stack.
  pub Waiting-push_all :
      (emitted above : List ID) (nodes : List T) (stack : List (T × Bool))
      → Waiting emitted (ids id_fn nodes ++ above) stack
      → Waiting emitted above (push_all nodes stack)
  unfolding push_all
  Waiting-push_all m a [] stack w = w
  Waiting-push_all m a (x ∷ xs) stack w = Waiting-push_all m a xs ((x, false) ∷ stack) w

  module _ (rank : ID → ℕ) where
    -- What is above a node whose neighbors were pushed has a smaller rank.
    abbrev pub Ranked : List ID → List (T × Bool) → Type κ
    Ranked above [] = Unit {κ}
    Ranked above ((n, false) ∷ stack) = Ranked (id_fn n ∷ above) stack
    Ranked above ((n, true) ∷ stack) =
        ((x : ID) → Sets.contains above x ≡ true → rank x < rank (id_fn n))
        × Ranked (id_fn n ∷ above) stack

    -- Each of the first ids is at most as high as one of the second.
    abbrev Lower : List ID → List ID → Type κ
    Lower above' above =
        (x : ID)
        → Sets.contains above' x ≡ true
        → (y : ID) × (Sets.contains above y ≡ true) × (rank x ≤ rank y)

    Lower-cons : (a a' : List ID) (n : ID) → Lower a' a → Lower (n ∷ a') (n ∷ a)
    Lower-cons a a' n h x i = elim (or_true (n == x) (Sets.contains a' x) i) [
      | inl q ↦
          let same : n ≡ x = (beq_iff n x).0 q in
          (n, ground (arith, beq_iff n n), rw same (omega arith))
      | inr q ↦ let (y, r, l) = h x q in (y, ground arith, l)
    ]

    pub Ranked-Lower :
        (a a' : List ID) (stack : List (T × Bool)) → Lower a' a → Ranked a stack → Ranked a' stack
    Ranked-Lower a a' [] h r = tt
    Ranked-Lower a a' ((n, false) ∷ stack) h r =
        Ranked-Lower (id_fn n ∷ a) (id_fn n ∷ a') stack (Lower-cons a a' (id_fn n) h) r
    Ranked-Lower a a' ((n, true) ∷ stack) h r = (
      λ x i. let (y, j, l) = h x i in let m = r.0 y j in omega arith,
      Ranked-Lower (id_fn n ∷ a) (id_fn n ∷ a') stack (Lower-cons a a' (id_fn n) h) r.1,
    )

    pub Ranked-push_all :
        (a : List ID) (nodes : List T) (stack : List (T × Bool))
        → Ranked (ids id_fn nodes ++ a) stack
        → Ranked a (push_all nodes stack)
    unfolding push_all
    Ranked-push_all a [] stack r = r
    Ranked-push_all a (x ∷ xs) stack r = Ranked-push_all a xs ((x, false) ∷ stack) r

    -- The ids of the nodes whose neighbors were pushed.
    abbrev pub opened : List (T × Bool) → List ID
    opened [] = []
    opened ((n, false) ∷ stack) = opened stack
    opened ((n, true) ∷ stack) = id_fn n ∷ opened stack

    pub not_opened :
        (a : List ID) (x : ID) (stack : List (T × Bool))
        → Ranked a stack
        → Sets.contains a x ≡ true
        → Sets.contains (opened stack) x ≡ false
    not_opened a x [] r h = refl
    not_opened a x ((n, false) ∷ stack) r h = not_opened (id_fn n ∷ a) x stack r (ground arith)
    not_opened a x ((n, true) ∷ stack) r h =
        ground (arith, not_opened (id_fn n ∷ a) x stack r.1, r.0 x h, beq_iff (id_fn n) x)

    pub opened-push_all :
        (nodes : List T) (stack : List (T × Bool)) → opened (push_all nodes stack) ≡ opened stack
    unfolding push_all
    opened-push_all [] stack = refl
    opened-push_all (x ∷ xs) stack = opened-push_all xs ((x, false) ∷ stack)
