-- ===== src/Prelude/Outcome.antt =====
-- What code gives that may panic, or that recurs on fuel.
use mathlib.Core.Option.{Option, none, some}
use mathlib.Core.List.{List, [], ◌∷◌}
use mathlib.Core.Bool.{◌&&◌}
use Prim.Native.Nat.{ℕ, ◌-◌}
use jj.Prelude.Lists.{length, take, drop}
use jj.Prelude.Tests.{leb, if◌then◌else◌}

pub data Outcome {ℓ} (A : Type ℓ) : Type ℓ where
  done : A → Outcome A
  panic out_of_fuel : Outcome A

infixl 5 ◌>>=◌
abbrev pub ◌>>=◌ {ℓ κ} : {A : Type ℓ} {B : Type κ} → Outcome A → (A → Outcome B) → Outcome B
done a >>= f = f a
panic >>= f = panic
out_of_fuel >>= f = out_of_fuel

-- `unwrap` and `expect`
abbrev pub unwrap {ℓ} : {A : Type ℓ} → Option A → Outcome A
unwrap none = panic
unwrap (some a) = done a

-- `iter().map(f).collect()`, where `f` may panic.
unfoldable pub map_all {ℓ κ} :
    {A : Type ℓ} {B : Type κ} → (A → Outcome B) → List A → Outcome (List B)
map_all f [] = done []
map_all f (x ∷ xs) = do y ← f x; ys ← map_all f xs; done (y ∷ ys)

-- `&xs[first..past]`
abbrev pub slice {ℓ} : {A : Type ℓ} → List A → ℕ → ℕ → Outcome (List A)
slice xs first past =
    if leb first past && leb past (length xs)
    then done (take (past - first) (drop first xs))
    else panic
