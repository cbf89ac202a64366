-- ===== src/Prelude/BTree.antt =====
-- `BTreeMap`, where the order of its entries is seen: an association list in the order of its keys.
use jj.Prelude.Order.{Ord}
use Prim.Native.Nat.Ordering.{lt, eq, gt}
use mathlib.Core.Path.{◌≡◌, refl}
use mathlib.Core.Option.{Option, none, some}
use mathlib.Core.List.{List, [], ◌∷◌}
use native.Mathlib.Omega.{arith}

abbrev pub BTree {ℓ κ} : Type ℓ → Type κ → Type (ℓ ⊔ κ)
BTree K V = List (K × V)

module _ {ℓ κ} {K : Type ℓ} {V : Type κ} ⦃o : Ord K⦄ where
  unfoldable pub get : BTree K V → K → Option V
  get [] k = none
  get ((j, v) ∷ m) k = elim (o.cmp k j) [ lt ↦ none | eq ↦ some v | gt ↦ get m k ]

  unfoldable pub insert : K → V → BTree K V → BTree K V
  insert k v [] = (k, v) ∷ []
  insert k v ((j, w) ∷ m) = elim (o.cmp k j) [
    | lt ↦ (k, v) ∷ (j, w) ∷ m
    | eq ↦ (k, v) ∷ m
    | gt ↦ (j, w) ∷ insert k v m
  ]

  unfoldable pub remove : K → BTree K V → BTree K V
  remove k [] = []
  remove k ((j, w) ∷ m) = elim (o.cmp k j) [ lt ↦ (j, w) ∷ m | eq ↦ m | gt ↦ (j, w) ∷ remove k m ]

  -- The key is below all keys of the list.
  abbrev pub IsBelow : K → BTree K V → Type 0
  IsBelow k [] = Unit {0}
  IsBelow k ((j, w) ∷ m) = (o.cmp k j ≡ lt) × IsBelow k m

  abbrev pub IsSorted : BTree K V → Type 0
  IsSorted [] = Unit {0}
  IsSorted ((j, w) ∷ m) = IsBelow j m × IsSorted m

  pub IsBelow-trans : (a b : K) (m : BTree K V) → o.cmp a b ≡ lt → IsBelow b m → IsBelow a m
  IsBelow-trans a b [] h i = tt
  IsBelow-trans a b ((j, w) ∷ m) h i = (o.lt_trans a b j h i.0, IsBelow-trans a b m h i.1)

  pub get-IsBelow : (k : K) (m : BTree K V) → IsBelow k m → get m k ≡ none
  unfolding get
  get-IsBelow k [] h = refl
  get-IsBelow k ((j, w) ∷ m) h = rw (h.0, get)

  pub get-insert :
      (k q : K) (v : V) (m : BTree K V)
      → IsSorted m
      → get (insert k v m) q ≡ elim (o.cmp q k) [ eq ↦ some v | _ ↦ get m q ]
  unfolding get insert
  get-insert k q v [] s = ground arith
  get-insert k q v ((j, w) ∷ m) s = ground (
    arith,
    get-insert k q v m,
    o.eq_of_cmp q k,
    o.eq_of_cmp k j,
    o.lt_trans q k j,
    o.gt_of_lt k j,
    o.lt_of_gt k j,
    o.gt_of_lt q k,
    o.lt_of_gt q k,
    o.eq_of_cmp q j,
    o.cmp_refl j,
    o.cmp_refl k,
  )

  pub get-remove :
      (k q : K) (m : BTree K V)
      → IsSorted m
      → get (remove k m) q ≡ elim (o.cmp q k) [ eq ↦ none | _ ↦ get m q ]
  unfolding get remove
  get-remove k q [] s = ground arith
  get-remove k q ((j, w) ∷ m) s = ground (
    arith,
    get-remove k q m,
    o.eq_of_cmp q k,
    o.eq_of_cmp k j,
    o.lt_trans q k j,
    o.eq_of_cmp q j,
    o.cmp_refl j,
    o.cmp_refl k,
    get-IsBelow j m,
    get-IsBelow q m,
    IsBelow-trans q j m,
    o.gt_of_lt k j,
    o.lt_of_gt q k,
  )

  insert-IsBelow :
      (a k : K) (v : V) (m : BTree K V) → o.cmp a k ≡ lt → IsBelow a m → IsBelow a (insert k v m)
  unfolding insert
  insert-IsBelow a k v [] h b = (h, tt)
  insert-IsBelow a k v ((j, w) ∷ m) h b = ground (arith, insert-IsBelow a k v m)

  remove-IsBelow : (a k : K) (m : BTree K V) → IsBelow a m → IsBelow a (remove k m)
  unfolding remove
  remove-IsBelow a k [] b = tt
  remove-IsBelow a k ((j, w) ∷ m) b = ground (arith, remove-IsBelow a k m)

  pub insert-IsSorted : (k : K) (v : V) (m : BTree K V) → IsSorted m → IsSorted (insert k v m)
  unfolding insert
  insert-IsSorted k v [] s = (tt, tt)
  insert-IsSorted k v ((j, w) ∷ m) s = ground (
    arith,
    insert-IsSorted k v m,
    insert-IsBelow j k v m,
    IsBelow-trans k j m,
    o.eq_of_cmp k j,
    o.lt_of_gt k j,
  )

  pub remove-IsSorted : (k : K) (m : BTree K V) → IsSorted m → IsSorted (remove k m)
  unfolding remove
  remove-IsSorted k [] s = tt
  remove-IsSorted k ((j, w) ∷ m) s = ground (arith, remove-IsSorted k m, remove-IsBelow j k m)

  -- The first entry is found under its key, and skipped for any other.
  pub get-cons :
      (j q : K) (w : V) (m : BTree K V)
      → IsBelow j m
      → get ((j, w) ∷ m) q ≡ elim (o.cmp q j) [ eq ↦ some w | _ ↦ get m q ]
  unfolding get
  get-cons j q w m b = ground (arith, get-IsBelow q m, IsBelow-trans q j m)
