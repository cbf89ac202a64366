-- ===== src/Prelude/Split.antt =====
-- `split_inclusive(|b| *b == b'\n')` of slices, as the standard library documents it: the lines with
-- their newlines, and what follows the last one unless it is empty.
use Prim.Native.Nat.{ℕ}
use mathlib.Core.List.{List, [], ◌∷◌}
use jj.Prelude.Tests.{if◌then◌else◌}
use jj.Prelude.Equality.{◌==◌, nat_eq}

-- A byte stands before the rest of its line.
unfoldable pub put_before : ℕ → List (List ℕ) → List (List ℕ)
put_before b [] = (b ∷ []) ∷ []
put_before b (line ∷ lines) = (b ∷ line) ∷ lines

unfoldable pub split_inclusive : List ℕ → List (List ℕ)
split_inclusive [] = []
split_inclusive (b ∷ bytes) =
    let lines = split_inclusive bytes in if b == b'\n' then (b ∷ []) ∷ lines else put_before b lines
