-- ===== src/Index/Answers.antt =====
-- What a mutable index (lib/src/index.rs) answers about ids.
use jj.Prelude.{ℕ, ◌+◌, ◌<◌, ◌≡◌, inl, inr, true, some, [], arith}
use jj.Prelude.Outcome.{done}
use jj.OpStore.{CommitId}
use jj.Index.Entry.{IndexPosition, GraphEntry}
use jj.Index.Graph.{IsAncestor-trans, pending}
use jj.Index.Ancestors.{Decides, is_ancestor_pos_lem}
use jj.Index.{MutableIndex, mutable_composite, entry_by_pos, commit_id_to_pos}
use jj.Index.Composite.{is_ancestor}
use jj.Index.Push.{IsIndexed}

module _ (self : MutableIndex) (size : ℕ) (graph : IndexPosition → GraphEntry)
    (i : IsIndexed self size graph) (fuel : ℕ) (enough : 1 + pending graph size [] < fuel) where
  pos_below :
      (id : CommitId) (p : IndexPosition)
      → commit_id_to_pos (mutable_composite self) id ≡ done (some p)
      → p < size
  pos_below id p h = elim (i.finds id) [
    | inl none_found ↦ absurd (ground (arith, h, none_found))
    | inr (q, found, l, named) ↦ ground (arith, h, found, l)
  ]

  -- With fuel for the edges of the graph, `is_ancestor` of two ids in the index returns true if the
  -- first commit is an ancestor of the second or the same, and false if it is not.
  pub is_ancestor_lem :
      (a d : CommitId) (p q : IndexPosition)
      → commit_id_to_pos (mutable_composite self) a ≡ done (some p)
      → commit_id_to_pos (mutable_composite self) d ≡ done (some q)
      → Decides size graph
          (entry_by_pos (mutable_composite self))
          i.is_graph
          p
          q
          (is_ancestor fuel (mutable_composite self) a d)
  unfolding is_ancestor
  is_ancestor_lem a d p q e f =
      rw (e, f)
        (is_ancestor_pos_lem size graph (entry_by_pos (mutable_composite self)) i.is_graph p q fuel
          (pos_below a p e) (pos_below d q f) enough)

  -- Of ids in the index, `is_ancestor` is transitive.
  pub is_ancestor_trans :
      (a b c : CommitId) (p q r : IndexPosition)
      → commit_id_to_pos (mutable_composite self) a ≡ done (some p)
      → commit_id_to_pos (mutable_composite self) b ≡ done (some q)
      → commit_id_to_pos (mutable_composite self) c ≡ done (some r)
      → is_ancestor fuel (mutable_composite self) a b ≡ done true
      → is_ancestor fuel (mutable_composite self) b c ≡ done true
      → is_ancestor fuel (mutable_composite self) a c ≡ done true
  is_ancestor_trans a b c p q r e f g h1 h2 =
      let d1 = is_ancestor_lem a b p q e f in
      let d2 = is_ancestor_lem b c q r f g in
      let d3 = is_ancestor_lem a c p r e g in
      elim d3 [
        | inl (yes_3, _) ↦ yes_3
        | inr (_, no_3) ↦ elim d1 [
          | inr (no_1, _) ↦ absurd (ground (arith, h1, no_1))
          | inl (_, a1) ↦ elim d2 [
            | inr (no_2, _) ↦ absurd (ground (arith, h2, no_2))
            | inl (_, a2) ↦ absurd (no_3 (IsAncestor-trans graph a1 a2))
          ]
        ]
      ]
