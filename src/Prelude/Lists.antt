-- ===== src/Prelude/Lists.antt =====
-- Lists measured and indexed by native numbers, under the library's names.
use Prim.Native.Nat.{ℕ, zero, suc, ◌+◌, ◌-◌, ◌<◌}
use mathlib.Core.Path.{◌≡◌, refl, ap, sym, ◌∙◌}
use mathlib.Core.Logic.{◌⊎◌, inl, inr}
use mathlib.Core.List.{List, [], ◌∷◌, ◌++◌}
use mathlib.Core.Option.{Option, none, some}
use mathlib.Core.Bool.{Bool, true, false}
use native.Mathlib.Omega.{arith}

module _ {ℓ} {A : Type ℓ} where
  abbrev pub length : List A → ℕ
  length [] = 0
  length (x ∷ xs) = suc (length xs)

  abbrev pub is_empty : List A → Bool
  is_empty [] = true
  is_empty (x ∷ xs) = false

  abbrev pub get_elem? : List A → ℕ → Option A
  get_elem? [] i = none
  get_elem? (x ∷ xs) zero = some x
  get_elem? (x ∷ xs) (suc i) = get_elem? xs i

  abbrev pub take : ℕ → List A → List A
  take zero xs = []
  take (suc n) [] = []
  take (suc n) (x ∷ xs) = x ∷ take n xs

  abbrev pub drop : ℕ → List A → List A
  drop zero xs = xs
  drop (suc n) [] = []
  drop (suc n) (x ∷ xs) = drop n xs

  -- `Vec::remove`; out of bounds it changes nothing (the source panics there).
  abbrev pub remove_at : ℕ → List A → List A
  remove_at i [] = []
  remove_at zero (x ∷ xs) = xs
  remove_at (suc i) (x ∷ xs) = x ∷ remove_at i xs

  pub length-append : (xs ys : List A) → length (xs ++ ys) ≡ length xs + length ys
  length-append [] ys = omega arith
  length-append (x ∷ xs) ys = omega (arith, length-append xs ys)

  pub length-remove_at :
      (i : ℕ) (xs : List A) → i < length xs → suc (length (remove_at i xs)) ≡ length xs
  length-remove_at i [] h = absurd (omega arith)
  length-remove_at zero (x ∷ xs) h = refl
  length-remove_at (suc i) (x ∷ xs) h = ap suc (length-remove_at i xs (omega arith))

  -- The last element.
  abbrev pub last : List A → Option A
  last [] = none
  last (x ∷ []) = some x
  last (x ∷ y ∷ xs) = last (y ∷ xs)

  pub take-append : (xs ys : List A) → take (length xs) (xs ++ ys) ≡ xs
  take-append [] [] = refl
  take-append [] (y ∷ ys) = refl
  take-append (x ∷ xs) ys = ap (λ l. x ∷ l) (take-append xs ys)

  pub last-concat : (xs : List A) (x : A) → last (xs ++ x ∷ []) ≡ some x
  last-concat [] x = refl
  last-concat (y ∷ []) x = refl
  last-concat (y ∷ z ∷ xs) x = last-concat (z ∷ xs) x

  -- A list that is not empty is its front and its last element.
  pub unsnoc : (x : A) (xs : List A) → (front : List A) × (y : A) × (x ∷ xs ≡ front ++ y ∷ [])
  unsnoc x [] = ([], x, refl)
  unsnoc x (y ∷ ys) = let (front, z, e) = unsnoc y ys in (x ∷ front, z, ap (λ l. x ∷ l) e)

  pub take-concat : (xs : List A) (x : A) → take (length (xs ++ x ∷ []) - 1) (xs ++ x ∷ []) ≡ xs
  take-concat xs x = rw (sized xs x) (take-append xs (x ∷ []))
    where
      sized : (xs : List A) (x : A) → length (xs ++ x ∷ []) - 1 ≡ length xs
      sized xs x = omega (arith, length-append xs (x ∷ []))

  -- `starts_with` of a slice.
  abbrev pub IsPrefix : List A → List A → Type ℓ
  IsPrefix xs ys = (rest : List A) × (ys ≡ xs ++ rest)

  pub take-append-drop : (n : ℕ) (xs : List A) → take n xs ++ drop n xs ≡ xs
  take-append-drop zero xs = refl
  take-append-drop (suc n) [] = refl
  take-append-drop (suc n) (x ∷ xs) = ap (λ l. x ∷ l) (take-append-drop n xs)

  -- Two ways to cut one list: the second cut lies within the first part, or behind it.
  pub append_split :
      (xs : List A) (y : A) (ys ps rs : List A)
      → xs ++ y ∷ ys ≡ ps ++ rs
      → ((t : List A) × (xs ≡ ps ++ t)) ⊎ ((t : List A) × (ps ≡ xs ++ y ∷ t) × (ys ≡ t ++ rs))
  append_split [] y ys [] rs e = inl ([], refl)
  append_split [] y ys (p ∷ ps) rs e = inr (ps, cc, cc)
  append_split (x ∷ xs) y ys [] rs e = inl (x ∷ xs, refl)
  append_split (x ∷ xs) y ys (p ∷ ps) rs e = elim (append_split xs y ys ps rs (cc)) [
    | inl (t, f) ↦ inl (t, cc)
    | inr (t, f, g) ↦ inr (t, cc, g)
  ]

  pub nil_of_append : (xs ys : List A) → [] ≡ xs ++ ys → xs ≡ []
  nil_of_append [] ys e = refl
  nil_of_append (x ∷ xs) ys e = cc

  pub lt-length_of_get_elem? :
      (xs : List A) (i : ℕ) (x : A) → get_elem? xs i ≡ some x → i < length xs
  lt-length_of_get_elem? [] i x h = cc
  lt-length_of_get_elem? (y ∷ ys) zero x h = omega arith
  lt-length_of_get_elem? (y ∷ ys) (suc i) x h = omega (arith, lt-length_of_get_elem? ys i x h)

  pub get_elem?_lt : (xs : List A) (i : ℕ) → i < length xs → (x : A) × (get_elem? xs i ≡ some x)
  get_elem?_lt [] i h = absurd (omega arith)
  get_elem?_lt (x ∷ xs) zero h = (x, refl)
  get_elem?_lt (x ∷ xs) (suc i) h = get_elem?_lt xs i (omega arith)

  pub get_elem?-append :
      (xs ys : List A) (i : ℕ) → i < length xs → get_elem? (xs ++ ys) i ≡ get_elem? xs i
  get_elem?-append [] ys i h = absurd (omega arith)
  get_elem?-append (x ∷ xs) ys zero h = refl
  get_elem?-append (x ∷ xs) ys (suc i) h = get_elem?-append xs ys i (omega arith)

  pub get_elem?-concat : (xs : List A) (x : A) → get_elem? (xs ++ x ∷ []) (length xs) ≡ some x
  get_elem?-concat [] x = refl
  get_elem?-concat (y ∷ ys) x = get_elem?-concat ys x

  -- `xs[i] = x`; out of bounds it changes nothing (the source panics there).
  abbrev pub set : List A → ℕ → A → List A
  set [] i x = []
  set (y ∷ ys) zero x = x ∷ ys
  set (y ∷ ys) (suc i) x = y ∷ set ys i x

  -- `vec![x; n]`
  abbrev pub replicate : ℕ → A → List A
  replicate zero x = []
  replicate (suc n) x = x ∷ replicate n x

  -- The element at a place, or a default.
  abbrev pub at : A → List A → ℕ → A
  at d [] i = d
  at d (x ∷ xs) zero = x
  at d (x ∷ xs) (suc i) = at d xs i

  pub get_elem?-at :
      (d : A) (xs : List A) (i : ℕ) → i < length xs → get_elem? xs i ≡ some (at d xs i)
  get_elem?-at d [] i h = absurd (omega arith)
  get_elem?-at d (x ∷ xs) zero h = refl
  get_elem?-at d (x ∷ xs) (suc i) h = get_elem?-at d xs i (omega arith)

  pub at_of_get_elem? :
      (d : A) (xs : List A) (i : ℕ) (x : A) → get_elem? xs i ≡ some x → at d xs i ≡ x
  at_of_get_elem? d [] i x h = cc
  at_of_get_elem? d (y ∷ ys) zero x h = cc
  at_of_get_elem? d (y ∷ ys) (suc i) x h = at_of_get_elem? d ys i x h

  pub at-set : (d : A) (xs : List A) (i : ℕ) (x : A) → i < length xs → at d (set xs i x) i ≡ x
  at-set d [] i x h = absurd (omega arith)
  at-set d (y ∷ ys) zero x h = refl
  at-set d (y ∷ ys) (suc i) x h = at-set d ys i x (omega arith)

  pub at-set_ne : (d : A) (xs : List A) (i j : ℕ) (x : A) → j < i → at d (set xs i x) j ≡ at d xs j
  at-set_ne d [] i j x h = refl
  at-set_ne d (y ∷ ys) zero j x h = absurd (omega arith)
  at-set_ne d (y ∷ ys) (suc i) zero x h = refl
  at-set_ne d (y ∷ ys) (suc i) (suc j) x h = at-set_ne d ys i j x (omega arith)

  pub length-set : (xs : List A) (i : ℕ) (x : A) → length (set xs i x) ≡ length xs
  length-set [] i x = refl
  length-set (y ∷ ys) zero x = refl
  length-set (y ∷ ys) (suc i) x = ap suc (length-set ys i x)

  pub length-replicate : (n : ℕ) (x : A) → length (replicate n x) ≡ n
  length-replicate zero x = refl
  length-replicate (suc n) x = ap suc (length-replicate n x)

  drop-nil : (n : ℕ) → drop n [] ≡ []
  drop-nil zero = refl
  drop-nil (suc n) = refl

  take-nil : (n : ℕ) → take n [] ≡ []
  take-nil zero = refl
  take-nil (suc n) = refl

  take-length : (xs : List A) → take (length xs) xs ≡ xs
  take-length [] = refl
  take-length (x ∷ xs) = ap (λ l. x ∷ l) (take-length xs)

  pub drop-drop : (m n : ℕ) (xs : List A) → drop m (drop n xs) ≡ drop (n + m) xs
  drop-drop m zero xs = ap (λ k. drop k xs) (omega arith)
  drop-drop m (suc n) [] = drop-nil m ∙ sym (drop-nil (suc n + m))
  drop-drop m (suc n) (x ∷ xs) =
      let e : suc (n + m) ≡ suc n + m = omega arith in
      drop-drop m n xs ∙ ap (λ k. drop k (x ∷ xs)) e

  pub take_all : (n : ℕ) (xs : List A) → take (length xs - n) (drop n xs) ≡ drop n xs
  take_all zero xs = ap (λ k. take k xs) (omega arith) ∙ take-length xs
  take_all (suc n) [] = take-nil (0 - suc n)
  take_all (suc n) (x ∷ xs) = ap (λ k. take k (drop n xs)) (omega arith) ∙ take_all n xs

  pub length-drop : (n : ℕ) (xs : List A) → length (drop n xs) ≡ length xs - n
  length-drop zero xs = omega arith
  length-drop (suc n) [] = omega arith
  length-drop (suc n) (x ∷ xs) = omega (arith, length-drop n xs)
