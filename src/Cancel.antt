-- ===== src/Cancel.antt =====
-- The loop that removes matching pairs from the adds and the removes of a conflict, which
-- lib/src/files.rs and lib/src/tree.rs share. The adds before `add_index` are those that are kept;
-- the rest are still to be looked at.
pub mod Laws
use jj.Prelude.{ℕ, Option, none, some, List, [], ◌∷◌, ◌++◌, remove_at, Eq}
use jj.Prelude.Counts.{position}

module _ {ℓ} {A : Type ℓ} ⦃e : Eq A⦄ where
  unfoldable pub cancel_loop : List A → List A → List A → List A × List A
  cancel_loop kept [] removes = (kept, removes)
  cancel_loop kept (add ∷ adds) removes = elim (position add removes) [
    | some remove_index ↦ cancel_loop kept adds (remove_at remove_index removes)
    | none ↦ cancel_loop (kept ++ add ∷ []) adds removes
  ]

  -- The adds and the removes that are left.
  unfoldable pub cancel_pairs : List A → List A → List A × List A
  cancel_pairs adds removes = cancel_loop [] adds removes
