-- ===== src/Prelude/Order.antt =====
-- The trait `Ord` with the laws that its documentation asks for, and the order of texts.
use Prim.Native.Nat.Ordering.{lt, eq, gt}
use mathlib.Core.Path.{◌≡◌, refl}
use mathlib.Core.Logic.{◌⊎◌, inl, inr}
use mathlib.Core.List.{List, [], ◌∷◌}
use native.Mathlib.Omega.{arith}
use Prim.Native.Nat.{ℕ, compare, Ordering}

pub record Ord {ℓ} (K : Type ℓ) : Type ℓ where
  pub cmp : K → K → Ordering
  pub cmp_refl : (k : K) → cmp k k ≡ eq
  pub eq_of_cmp : (a b : K) → cmp a b ≡ eq → a ≡ b
  pub gt_of_lt : (a b : K) → cmp a b ≡ lt → cmp b a ≡ gt
  pub lt_of_gt : (a b : K) → cmp a b ≡ gt → cmp b a ≡ lt
  pub lt_trans : (a b c : K) → cmp a b ≡ lt → cmp b c ≡ lt → cmp a c ≡ lt

pub Ordering-cases : (o : Ordering) → (o ≡ lt) ⊎ (o ≡ eq) ⊎ (o ≡ gt)
Ordering-cases lt = inl refl
Ordering-cases eq = inr (inl refl)
Ordering-cases gt = inr (inr refl)

-- Lexicographic, as on strings and on slices of bytes.
abbrev pub text_cmp : List ℕ → List ℕ → Ordering
text_cmp [] [] = eq
text_cmp [] (y ∷ ys) = lt
text_cmp (x ∷ xs) [] = gt
text_cmp (x ∷ xs) (y ∷ ys) = elim (compare x y) [ lt ↦ lt | gt ↦ gt | eq ↦ text_cmp xs ys ]

pub text_cmp_refl : (a : List ℕ) → text_cmp a a ≡ eq
text_cmp_refl [] = refl
text_cmp_refl (x ∷ xs) = ground (arith, text_cmp_refl xs)

pub text_eq_of_cmp : (a b : List ℕ) → text_cmp a b ≡ eq → a ≡ b
text_eq_of_cmp [] [] h = refl
text_eq_of_cmp [] (y ∷ ys) h = cc
text_eq_of_cmp (x ∷ xs) [] h = cc
text_eq_of_cmp (x ∷ xs) (y ∷ ys) h = ground (arith, text_eq_of_cmp xs ys)

pub text_gt_of_lt : (a b : List ℕ) → text_cmp a b ≡ lt → text_cmp b a ≡ gt
text_gt_of_lt [] [] h = cc
text_gt_of_lt [] (y ∷ ys) h = refl
text_gt_of_lt (x ∷ xs) [] h = cc
text_gt_of_lt (x ∷ xs) (y ∷ ys) h = ground (arith, text_gt_of_lt xs ys)

pub text_lt_of_gt : (a b : List ℕ) → text_cmp a b ≡ gt → text_cmp b a ≡ lt
text_lt_of_gt [] [] h = cc
text_lt_of_gt [] (y ∷ ys) h = cc
text_lt_of_gt (x ∷ xs) [] h = refl
text_lt_of_gt (x ∷ xs) (y ∷ ys) h = ground (arith, text_lt_of_gt xs ys)

pub text_lt_trans : (a b c : List ℕ) → text_cmp a b ≡ lt → text_cmp b c ≡ lt → text_cmp a c ≡ lt
text_lt_trans [] [] c h k = cc
text_lt_trans [] (y ∷ ys) [] h k = cc
text_lt_trans [] (y ∷ ys) (z ∷ zs) h k = refl
text_lt_trans (x ∷ xs) [] c h k = cc
text_lt_trans (x ∷ xs) (y ∷ ys) [] h k = cc
text_lt_trans (x ∷ xs) (y ∷ ys) (z ∷ zs) h k = ground (arith, text_lt_trans xs ys zs)

instance abbrev pub text_ord : Ord (List ℕ)
text_ord = record {
  cmp = text_cmp;
  cmp_refl = text_cmp_refl;
  eq_of_cmp = text_eq_of_cmp;
  gt_of_lt = text_gt_of_lt;
  lt_of_gt = text_lt_of_gt;
  lt_trans = text_lt_trans;
}

pub compare_refl : (k : ℕ) → compare k k ≡ eq
compare_refl k = ground arith

pub eq_of_compare : (a b : ℕ) → compare a b ≡ eq → a ≡ b
eq_of_compare a b h = ground arith

pub gt_of_compare : (a b : ℕ) → compare a b ≡ lt → compare b a ≡ gt
gt_of_compare a b h = ground arith

pub lt_of_compare : (a b : ℕ) → compare a b ≡ gt → compare b a ≡ lt
lt_of_compare a b h = ground arith

pub compare_trans : (a b c : ℕ) → compare a b ≡ lt → compare b c ≡ lt → compare a c ≡ lt
compare_trans a b c h k = ground arith

instance abbrev pub nat_ord : Ord ℕ
nat_ord = record {
  cmp = compare;
  cmp_refl = compare_refl;
  eq_of_cmp = eq_of_compare;
  gt_of_lt = gt_of_compare;
  lt_of_gt = lt_of_compare;
  lt_trans = compare_trans;
}
