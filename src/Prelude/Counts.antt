-- ===== src/Prelude/Counts.antt =====
-- How often an element stands in a list, and where it stands first.
use jj.Prelude.Tests.{if◌then◌else◌}
use jj.Prelude.Equality.{Eq, ◌==◌, beq_iff}
use jj.Prelude.Lists.{remove_at}
use jj.Prelude.Sets.{contains}
use Prim.Native.Nat.{ℕ, zero, suc, ◌+◌, ◌<◌}
use mathlib.Core.Path.{◌≡◌, refl}
use mathlib.Core.Bool.{true}
use mathlib.Core.Logic.{◌↔◌}
use mathlib.Core.Option.{Option, none, some}
use mathlib.Core.List.{List, [], ◌∷◌, ◌++◌}
use native.Mathlib.Omega.{arith}

module _ {ℓ} {A : Type ℓ} ⦃e : Eq A⦄ where
  abbrev pub count : A → List A → ℕ
  count a [] = 0
  count a (x ∷ xs) = if x == a then suc (count a xs) else count a xs

  -- The index of the first element that is equal to the given one.
  abbrev pub position : A → List A → Option ℕ
  position a [] = none
  position a (x ∷ xs) =
      let rest = position a xs in
      if x == a then some 0 else elim rest [ none ↦ none | some i ↦ some (suc i) ]

  pub count-append : (a : A) (xs ys : List A) → count a (xs ++ ys) ≡ count a xs + count a ys
  count-append a [] ys = omega arith
  count-append a (x ∷ xs) ys = ground (arith, count-append a xs ys)

  pub count-remove_at :
      (a c : A) (xs : List A) (i : ℕ)
      → position a xs ≡ some i
      → count c xs ≡ (if a == c then suc (count c (remove_at i xs)) else count c (remove_at i xs))
  count-remove_at a c [] i h = cc
  count-remove_at a c (x ∷ xs) zero h = ground (arith, beq_iff x a)
  count-remove_at a c (x ∷ xs) (suc i) h =
      ground (arith, count-remove_at a c xs i, beq_iff a c, beq_iff x c)

  pub count_absent : (a : A) (xs : List A) → position a xs ≡ none → count a xs ≡ 0
  count_absent a [] h = refl
  count_absent a (x ∷ xs) h = ground (arith, count_absent a xs)

  pub contains-count : (a : A) (xs : List A) → (contains xs a ≡ true) ↔ (0 < count a xs)
  contains-count a [] = ((λ h. cc), λ h. absurd (omega arith))
  contains-count a (x ∷ xs) = ground (arith, contains-count a xs)
