-- ===== src/Prelude/Sets.antt =====
-- `HashSet` and `BTreeSet` as lists without an order of their own: membership is what is read.
use jj.Prelude.Tests.{if◌then◌else◌}
use jj.Prelude.Equality.{Eq, ◌==◌, beq_iff}
use jj.Prelude.Lists.{get_elem?, remove_at}
use Prim.Native.Nat.{ℕ, zero, suc}
use mathlib.Core.Logic.{◌⊎◌, inr, ◌≢◌}
use mathlib.Core.Option.{some}
use mathlib.Core.Path.{◌≡◌, refl, ap}
use mathlib.Core.Bool.{Bool, true, false, ◌&&◌, ◌||◌, not}
use mathlib.Core.List.{List, [], ◌∷◌, ◌++◌}
use native.Mathlib.Omega.{arith}

module _ {ℓ} {A : Type ℓ} ⦃e : Eq A⦄ where
  abbrev pub contains : List A → A → Bool
  contains [] a = false
  contains (x ∷ xs) a = x == a || contains xs a

  abbrev pub insert : A → List A → List A
  insert a xs = if contains xs a then xs else a ∷ xs

  abbrev pub remove : A → List A → List A
  remove a [] = []
  remove a (x ∷ xs) = if x == a then remove a xs else x ∷ remove a xs

  abbrev pub intersection : List A → List A → List A
  intersection [] ys = []
  intersection (x ∷ xs) ys = if contains ys x then x ∷ intersection xs ys else intersection xs ys

  abbrev pub collect : List A → List A
  collect [] = []
  collect (x ∷ xs) = insert x (collect xs)

  pub contains-insert :
      (a b : A) (xs : List A) → contains (insert a xs) b ≡ (a == b || contains xs b)
  contains-insert a b xs = ground (arith, beq_iff a b)

  pub contains-remove :
      (a b : A) (xs : List A) → contains (remove a xs) b ≡ (not (a == b) && contains xs b)
  contains-remove a b [] = ground arith
  contains-remove a b (x ∷ xs) =
      ground (arith, contains-remove a b xs, beq_iff a b, beq_iff x a, beq_iff x b)

  pub contains-intersection :
      (xs ys : List A) (b : A) → contains (intersection xs ys) b ≡ (contains xs b && contains ys b)
  contains-intersection [] ys b = refl
  contains-intersection (x ∷ xs) ys b = ground (arith, contains-intersection xs ys b, beq_iff x b)

  pub contains-collect : (xs : List A) (b : A) → contains (collect xs) b ≡ contains xs b
  contains-collect [] b = refl
  contains-collect (x ∷ xs) b =
      ground (arith, contains-insert x b (collect xs), contains-collect xs b)

  pub contains-append :
      (xs ys : List A) (b : A) → contains (xs ++ ys) b ≡ (contains xs b || contains ys b)
  contains-append [] ys b = refl
  contains-append (x ∷ xs) ys b = ground (arith, contains-append xs ys b)

  pub contains-get_elem? :
      (xs : List A) (i : ℕ) (a : A) → get_elem? xs i ≡ some a → contains xs a ≡ true
  contains-get_elem? [] i a h = cc
  contains-get_elem? (x ∷ xs) zero a h = ground (arith, beq_iff x a)
  contains-get_elem? (x ∷ xs) (suc i) a h = ground (arith, contains-get_elem? xs i a)

  pub contains-remove_at :
      (xs : List A) (i : ℕ) (a : A) → contains (remove_at i xs) a ≡ true → contains xs a ≡ true
  contains-remove_at [] i a h = h
  contains-remove_at (x ∷ xs) zero a h = ground arith
  contains-remove_at (x ∷ xs) (suc i) a h = ground (arith, contains-remove_at xs i a)

  -- What is at another place stays when one place is removed.
  pub contains-remove_at_ne :
      (xs : List A) (i j : ℕ) (a : A)
      → i ≢ j
      → get_elem? xs j ≡ some a
      → contains (remove_at i xs) a ≡ true
  contains-remove_at_ne [] i j a n h = cc
  contains-remove_at_ne (x ∷ xs) zero zero a n h = absurd (n refl)
  contains-remove_at_ne (x ∷ xs) zero (suc j) a n h = contains-get_elem? xs j a h
  contains-remove_at_ne (x ∷ xs) (suc i) zero a n h = ground (arith, beq_iff x a)
  contains-remove_at_ne (x ∷ xs) (suc i) (suc j) a n h =
      ground (arith, contains-remove_at_ne xs i j a (λ e. n (ap suc e)))

  -- What is in a list is at the removed place, or stays.
  pub contains-remove_at_cases :
      (xs : List A) (i : ℕ) (a : A)
      → contains xs a ≡ true
      → (get_elem? xs i ≡ some a) ⊎ (contains (remove_at i xs) a ≡ true)
  contains-remove_at_cases [] i a h = inr h
  contains-remove_at_cases (x ∷ xs) zero a h = ground (arith, beq_iff x a)
  contains-remove_at_cases (x ∷ xs) (suc i) a h = ground (arith, contains-remove_at_cases xs i a)
