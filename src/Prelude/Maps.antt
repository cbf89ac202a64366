-- ===== src/Prelude/Maps.antt =====
-- `HashMap` and `BTreeMap` as association lists with one entry for a key.
use jj.Prelude.Tests.{if◌then◌else◌}
use jj.Prelude.Equality.{Eq, ◌==◌, beq_iff, eq_refl}
use jj.Prelude.Lists.{is_empty}
use mathlib.Core.Path.{◌≡◌, refl, sym, ap, ◌∙◌}
use mathlib.Core.Bool.{Bool, true, false}
use mathlib.Core.Logic.{◌↔◌}
use mathlib.Core.Option.{Option, none, some}
use mathlib.Core.List.{List, [], ◌∷◌, ◌++◌, append_assoc, append-nil}
use native.Mathlib.Omega.{arith}

abbrev pub Map {ℓ κ} : Type ℓ → Type κ → Type (ℓ ⊔ κ)
Map K V = List (K × V)

module _ {ℓ κ} {K : Type ℓ} {V : Type κ} ⦃e : Eq K⦄ where
  unfoldable pub get : Map K V → K → Option V
  get [] k = none
  get ((j, v) ∷ m) k = if j == k then some v else get m k

  unfoldable pub insert : K → V → Map K V → Map K V
  insert key v [] = (key, v) ∷ []
  insert key v ((j, w) ∷ m) = if j == key then (key, v) ∷ m else (j, w) ∷ insert key v m

  unfoldable pub remove : K → Map K V → Map K V
  remove k [] = []
  remove k ((j, w) ∷ m) = if j == k then remove k m else (j, w) ∷ remove k m

  unfoldable pub has_key : Map K V → K → Bool
  has_key m k = elim (get m k) [ none ↦ false | some v ↦ true ]

  -- `map.get(k).cloned().unwrap_or(d)`
  unfoldable pub get_or : Map K V → K → V → V
  get_or m k d = elim (get m k) [ none ↦ d | some v ↦ v ]

  pub get-insert :
      (k j : K) (v : V) (m : Map K V) → get (insert k v m) j ≡ (if k == j then some v else get m j)
  unfolding get insert
  get-insert k j v [] = refl
  get-insert k j v ((i, w) ∷ m) =
      ground (arith, get-insert k j v m, beq_iff k j, beq_iff i k, beq_iff i j)

  pub get-remove : (k j : K) (m : Map K V) → get (remove k m) j ≡ (if k == j then none else get m j)
  unfolding get remove
  get-remove k j [] = ground arith
  get-remove k j ((i, w) ∷ m) =
      ground (arith, get-remove k j m, beq_iff k j, beq_iff i k, beq_iff i j)

  -- A map with no entry is one in which no key is found.
  pub get-is_empty : (m : Map K V) → (is_empty m ≡ true) ↔ ((k : K) → get m k ≡ none)
  unfolding get
  get-is_empty [] = (λ _ k. refl, λ _. refl)
  get-is_empty ((j, v) ∷ m) = (λ h. absurd (ground arith), λ h. ground (arith, h j, eq_refl j))

  pub has_key-insert :
      (k j : K) (v : V) (m : Map K V)
      → has_key (insert k v m) j ≡ (if k == j then true else has_key m j)
  unfolding has_key
  has_key-insert k j v m = ground (arith, get-insert k j v m)

  pub get_or-insert :
      (k j : K) (v d : V) (m : Map K V)
      → get_or (insert k v m) j d ≡ (if k == j then v else get_or m j d)
  unfolding get_or
  get_or-insert k j v d m = ground (arith, get-insert k j v m)

  pub get_of_is_empty : (m : Map K V) (k : K) → is_empty m ≡ true → get m k ≡ none
  get_of_is_empty m k h = (get-is_empty m).0 h k

  pub get-nil : (k : K) → get [] k ≡ none
  unfolding get
  get-nil k = refl

  pub is_empty-insert : (k : K) (v : V) (m : Map K V) → is_empty (insert k v m) ≡ false
  unfolding insert
  is_empty-insert k v [] = refl
  is_empty-insert k v ((j, w) ∷ m) = ground arith

  -- Inserting the entries of a list in order, as the loops and `collect` do.
  unfoldable pub insert_all : Map K V → List (K × V) → Map K V
  insert_all acc [] = acc
  insert_all acc ((k, v) ∷ m) = insert_all (insert k v acc) m

  -- Every key has one entry.
  abbrev pub IsUnique : Map K V → Type κ
  IsUnique [] = Unit {κ}
  IsUnique ((k, v) ∷ m) = (get m k ≡ none) × IsUnique m

  -- No key of the second map is one of the first.
  abbrev pub IsFresh : Map K V → Map K V → Type κ
  IsFresh acc [] = Unit {κ}
  IsFresh acc ((k, v) ∷ m) = (get acc k ≡ none) × IsFresh acc m

  insert_fresh : (k : K) (v : V) (m : Map K V) → get m k ≡ none → insert k v m ≡ m ++ (k, v) ∷ []
  unfolding get insert
  insert_fresh k v [] h = refl
  insert_fresh k v ((j, w) ∷ m) h = ground (arith, insert_fresh k v m)

  IsFresh-insert :
      (acc m : Map K V) (k : K) (v : V)
      → get m k ≡ none
      → IsFresh acc m
      → IsFresh (insert k v acc) m
  IsFresh-insert acc [] k v h f = tt
  IsFresh-insert acc ((j, w) ∷ m) k v h f =
      let later : get m k ≡ none = rest_none h in
      (
        ground (arith, get-insert k j v acc, beq_iff j k, beq_iff k j, first_none h),
        IsFresh-insert acc m k v later f.1,
      )
    where
      rest_none : get ((j, w) ∷ m) k ≡ none → get m k ≡ none
      rest_none h = unfold get in ground arith

      first_none : get ((j, w) ∷ m) k ≡ none → (j == k) ≡ false
      first_none h = unfold get in ground arith

  insert_all_fresh : (acc m : Map K V) → IsUnique m → IsFresh acc m → insert_all acc m ≡ acc ++ m
  unfolding insert_all
  insert_all_fresh acc [] u f = sym (append-nil acc)
  insert_all_fresh acc ((k, v) ∷ m) u f =
      insert_all_fresh (insert k v acc) m u.1 (IsFresh-insert acc m k v u.0 f.1)
      ∙ ap (λ l. l ++ m) (insert_fresh k v acc f.0)
      ∙ append_assoc acc ((k, v) ∷ []) m

  IsFresh-nil : (m : Map K V) → IsFresh [] m
  unfolding get
  IsFresh-nil [] = tt
  IsFresh-nil ((k, v) ∷ m) = (refl, IsFresh-nil m)

  -- Inserting the entries of a map into an empty one gives the map.
  pub insert_all-nil : (m : Map K V) → IsUnique m → insert_all [] m ≡ m
  insert_all-nil m u = insert_all_fresh [] m u (IsFresh-nil m)
