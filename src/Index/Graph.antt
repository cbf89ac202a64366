-- ===== src/Index/Graph.antt =====
-- The graph of the commits that an index (lib/src/index.rs) holds, its ancestors, and how much of it
-- a walk has left.
use jj.Prelude.{
  ℕ, zero, suc, ◌+◌, ◌<◌, ◌≤◌, ◌≡◌, refl, ◌⊎◌, inl, inr, true, false, List, [], ◌∷◌, arith,
  if◌then◌else◌, length, nat_eq, beq_iff,
}
use jj.Prelude.Outcome.{Outcome, done, map_all}
use jj.Prelude.Sets
use jj.Index.Entry.{IndexPosition, GraphEntry, IndexEntry}
use jj.Index.Walk.{parents}

-- An entry at its position.
abbrev pub at : (IndexPosition → GraphEntry) → IndexPosition → IndexEntry
at graph p = record { pos = p; entry = graph p }

-- The entries at the positions below a size: the parents of a commit stand at smaller positions, and
-- have smaller generations.
pub record IsGraph (size : ℕ) (graph : IndexPosition → GraphEntry)
    (entry_by_pos : IndexPosition → Outcome IndexEntry) : Type 0 where
  pub found : (p : IndexPosition) → p < size → entry_by_pos p ≡ done (at graph p)
  pub earlier :
      (p q : IndexPosition) → p < size → Sets.contains (graph p).parent_positions q ≡ true → q < p
  pub generations :
      (p q : IndexPosition)
      → p < size
      → Sets.contains (graph p).parent_positions q ≡ true
      → (graph q).generation_number < (graph p).generation_number

-- The first commit is the second, or an ancestor of it.
pub data IsAncestor (graph : IndexPosition → GraphEntry) (a : IndexPosition)
    : IndexPosition → Type 0 where
  self : IsAncestor graph a a
  via :
      {d : IndexPosition} (p : IndexPosition)
      → Sets.contains (graph d).parent_positions p ≡ true
      → IsAncestor graph a p
      → IsAncestor graph a d

-- The positions of a list are below the size.
abbrev pub AllBelow : ℕ → List IndexPosition → Type 0
AllBelow size l = (p : IndexPosition) → Sets.contains l p ≡ true → p < size

module _ (graph : IndexPosition → GraphEntry) where
  pub IsAncestor-trans :
      {a b c : IndexPosition} → IsAncestor graph a b → IsAncestor graph b c → IsAncestor graph a c
  IsAncestor-trans r self = r
  IsAncestor-trans r (via p h s) = via p h (IsAncestor-trans r s)

  -- The edges out of the positions below `n` that are not visited.
  abbrev pub pending : ℕ → List IndexPosition → ℕ
  pending zero visited = 0
  pending (suc n) visited =
      (if Sets.contains visited n then 0 else length (graph n).parent_positions) + pending n visited

  pending_later :
      (n : ℕ) (p : IndexPosition) (visited : List IndexPosition)
      → n ≤ p
      → pending n (p ∷ visited) ≡ pending n visited
  pending_later zero p visited h = refl
  pending_later (suc n) p visited h = ground (arith, pending_later n p visited, beq_iff p n)

  -- To visit a position takes its edges away.
  pub pending_visit :
      (n : ℕ) (p : IndexPosition) (visited : List IndexPosition)
      → p < n
      → Sets.contains visited p ≡ false
      → pending n (p ∷ visited) + length (graph p).parent_positions ≡ pending n visited
  pending_visit zero p visited h absent = absurd (omega arith)
  pending_visit (suc n) p visited h absent =
      ground (arith, pending_visit n p visited, pending_later n p visited, beq_iff p n)

  abbrev pub entries_at : List IndexPosition → List IndexEntry
  entries_at [] = []
  entries_at (p ∷ ps) = at graph p ∷ entries_at ps

  module _ (size : ℕ) (entry_by_pos : IndexPosition → Outcome IndexEntry)
      (g : IsGraph size graph entry_by_pos) where
    pub map_all-entries_at :
        (l : List IndexPosition) → AllBelow size l → map_all entry_by_pos l ≡ done (entries_at l)
    unfolding map_all
    map_all-entries_at [] h = refl
    map_all-entries_at (p ∷ ps) h = rw (
      g.found p (h p (ground (arith, beq_iff p p))),
      map_all-entries_at ps (λ q i. h q (ground arith)),
    )

    pub parents-below : (p : IndexPosition) → p < size → AllBelow size (graph p).parent_positions
    parents-below p h q i = omega (arith, g.earlier p q h i)

    pub parents_lem :
        (p : IndexPosition)
        → p < size
        → parents entry_by_pos (at graph p) ≡ done (entries_at (graph p).parent_positions)
    unfolding parents
    parents_lem p h = map_all-entries_at (graph p).parent_positions (parents-below p h)

    -- An ancestor has no greater generation, and a smaller one if it is not the commit itself.
    pub IsAncestor-generation :
        {a d : IndexPosition}
        → d < size
        → IsAncestor graph a d
        → (a ≡ d) ⊎ ((graph a).generation_number < (graph d).generation_number)
    IsAncestor-generation h self = inl refl
    IsAncestor-generation {d = d} h (via p i r) =
        let below = g.generations d p h i in
        elim (IsAncestor-generation (parents-below d h p i) r) [
          | inl e ↦ inr (rw e below)
          | inr l ↦ inr (omega arith)
        ]
