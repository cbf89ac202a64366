-- ===== src/Index/Push.antt =====
-- Adding a commit to an index (lib/src/index.rs) keeps it an index of a graph.
use jj.Prelude.{
  ℕ, suc, ◌+◌, ◌-◌, ◌≤◌, ◌<◌, ◌≡◌, refl, sym, ap, ◌∙◌, ◌⊎◌, inl, inr, true, false, none, some, List,
  [], ◌∷◌, arith, if◌then◌else◌, leb, Bool-cases, length, length-append, get_elem?-append,
  get_elem?-concat, list_eq, nat_eq, ◌==◌, beq_iff, nat_beq, eq_refl, eq_of_beq,
}
use jj.Prelude.Outcome.{done}
use jj.Prelude.Order.{text_ord}
use jj.Prelude.Sets
use jj.Prelude.BTree
use jj.Prelude.BTree.{IsSorted}
use jj.OpStore.{CommitId}
use jj.Index.Entry.{IndexPosition, GraphEntry}
use jj.Index.Graph.{IsGraph}
use jj.Index.{
  as_u32, ReadonlyIndex, MutableIndex, IndexSegment, mutable_segment, mutable_composite,
  local_entry, entry_in, entry_by_pos, pos_in, commit_id_to_pos,
}
use jj.Index.Mutable.{push_entry}

pub as_u32-lt : (n : ℕ) → n < 4_294_967_296 → as_u32 n ≡ n
unfolding as_u32
as_u32-lt n h = omega arith

-- What a mutable index holds: a graph of so many commits, each of which is found by its id.
pub record IsIndexed (self : MutableIndex) (size : ℕ) (graph : IndexPosition → GraphEntry)
    : Type 0 where
  pub sized : self.num_parent_commits + length self.graph ≡ size
  pub sorted : IsSorted self.lookup
  pub is_graph : IsGraph size graph (entry_by_pos (mutable_composite self))
  pub generation_le : (p : IndexPosition) → p < size → (graph p).generation_number ≤ p
  pub known :
      (p : IndexPosition)
      → p < size
      → commit_id_to_pos (mutable_composite self) (graph p).commit_id ≡ done (some p)
  pub finds :
      (id : CommitId)
      → (commit_id_to_pos (mutable_composite self) id ≡ done none)
        ⊎ ((p : IndexPosition) × (commit_id_to_pos (mutable_composite self) id ≡ done (some p))
            × (p < size)
            × ((graph p).commit_id ≡ id))

-- The graph with one more entry.
abbrev pub extend : ℕ → GraphEntry → (IndexPosition → GraphEntry) → IndexPosition → GraphEntry
extend size entry graph p = if nat_beq p size then entry else graph p

entry_in-local :
    (s : IndexSegment) (files : List ReadonlyIndex) (p : IndexPosition)
    → s.num_parent_commits ≤ p
    → entry_in s files p ≡ local_entry s p
unfolding entry_in
entry_in-local s [] p h =
    let test : leb s.num_parent_commits p ≡ true = ground arith in rw (test, entry_in) refl
entry_in-local s (f ∷ fs) p h =
    let test : leb s.num_parent_commits p ≡ true = ground arith in rw (test, entry_in) refl

-- Below the local entries two segments on the same files have the same entries.
entry_in_below :
    (s t : IndexSegment) (files : List ReadonlyIndex) (p : IndexPosition)
    → s.num_parent_commits ≡ t.num_parent_commits
    → p < s.num_parent_commits
    → entry_in s files p ≡ entry_in t files p
unfolding entry_in
entry_in_below s t [] p e h =
    let left : leb s.num_parent_commits p ≡ false = ground arith in
    let right : leb t.num_parent_commits p ≡ false = ground arith in rw (left, right, entry_in) refl
entry_in_below s t (f ∷ fs) p e h =
    let left : leb s.num_parent_commits p ≡ false = ground arith in
    let right : leb t.num_parent_commits p ≡ false = ground arith in rw (left, right, entry_in) refl

pos_in_same :
    (s t : IndexSegment) (files : List ReadonlyIndex) (id : CommitId)
    → s.commit_id_to_pos id ≡ t.commit_id_to_pos id
    → pos_in s files id ≡ pos_in t files id
unfolding pos_in
pos_in_same s t [] id e = e
pos_in_same s t (f ∷ fs) id e = rw (e, pos_in) refl

pos_in-local :
    (s : IndexSegment) (files : List ReadonlyIndex) (id : CommitId) (p : IndexPosition)
    → s.commit_id_to_pos id ≡ done (some p)
    → pos_in s files id ≡ done (some p)
unfolding pos_in
pos_in-local s [] id p e = e
pos_in-local s (f ∷ fs) id p e = rw (e, pos_in) refl

module _ (self : MutableIndex) (entry : GraphEntry) where
  -- The old entries stand where they stood.
  entry-push_old :
      (p : IndexPosition)
      → p < self.num_parent_commits + length self.graph
      → entry_by_pos (mutable_composite (push_entry self entry)) p
        ≡ entry_by_pos (mutable_composite self) p
  unfolding entry_by_pos mutable_composite push_entry mutable_segment local_entry
  entry-push_old p h = elim (Bool-cases (leb self.num_parent_commits p)) [
    | inl local ↦
        let l : self.num_parent_commits ≤ p = ground arith in
        entry_in-local (mutable_segment (push_entry self entry)) self.parent_files p l
        ∙ rw (get_elem?-append self.graph (entry ∷ []) (p - self.num_parent_commits) (omega arith))
            refl
        ∙ sym (entry_in-local (mutable_segment self) self.parent_files p l)
    | inr below ↦
        entry_in_below (mutable_segment (push_entry self entry)) (mutable_segment self)
          self.parent_files p refl (ground arith)
  ]

  entry-push_new :
      (p : IndexPosition)
      → p ≡ self.num_parent_commits + length self.graph
      → entry_by_pos (mutable_composite (push_entry self entry)) p
        ≡ done (record { pos = p; entry = entry })
  unfolding entry_by_pos mutable_composite push_entry mutable_segment local_entry
  entry-push_new p h =
      let i : p - self.num_parent_commits ≡ length self.graph = omega arith in
      entry_in-local (mutable_segment (push_entry self entry)) self.parent_files p (omega arith)
      ∙ rw (i, get_elem?-concat self.graph entry) refl

  -- The new id is found at the new position, the others as before.
  pos-push :
      (id : CommitId)
      → IsSorted self.lookup
      → self.num_parent_commits + length self.graph < 4_294_967_296
      → commit_id_to_pos (mutable_composite (push_entry self entry)) id ≡ (
          if entry.commit_id == id
          then done (some (self.num_parent_commits + length self.graph))
          else commit_id_to_pos (mutable_composite self) id)
  unfolding commit_id_to_pos mutable_composite push_entry mutable_segment
  pos-push id s h =
      let n : as_u32 (as_u32 (length self.graph) + self.num_parent_commits)
          ≡ self.num_parent_commits + length self.graph =
        omega (
          arith,
          as_u32-lt (length self.graph) (omega arith),
          as_u32-lt (as_u32 (length self.graph) + self.num_parent_commits)
              (omega (arith, as_u32-lt (length self.graph) (omega arith))),
        ) in
      let found =
        BTree.get-insert entry.commit_id id
          (as_u32 (as_u32 (length self.graph) + self.num_parent_commits)) self.lookup s in
      elim (Bool-cases (entry.commit_id == id)) [
        | inl e ↦
            let same = eq_of_beq entry.commit_id id e in
            rw e (
              pos_in-local (mutable_segment (push_entry self entry)) self.parent_files id _
                (ap done (found ∙ ground (arith, n, same, text_ord.cmp_refl id))))
        | inr e ↦ rw e (
            pos_in_same (mutable_segment (push_entry self entry)) (mutable_segment self)
              self.parent_files id
              (ap done (
                found
                ∙ ground
                    (arith, e, text_ord.eq_of_cmp id entry.commit_id, beq_iff entry.commit_id id))))
      ]

extend_old :
    (size : ℕ) (entry : GraphEntry) (graph : IndexPosition → GraphEntry) (p : IndexPosition)
    → p < size
    → extend size entry graph p ≡ graph p
extend_old size entry graph p h = let t : nat_beq p size ≡ false = ground arith in rw t refl

extend_new :
    (size : ℕ) (entry : GraphEntry) (graph : IndexPosition → GraphEntry)
    → extend size entry graph size ≡ entry
extend_new size entry graph = let t : nat_beq size size ≡ true = ground arith in rw t refl

below_cases : (p n : ℕ) → p < suc n → (p < n) ⊎ (p ≡ n)
below_cases p n h = ground arith

-- The parents are in the graph, and have smaller generations; there is room for the generation.
pub record IsReady (size : ℕ) (graph : IndexPosition → GraphEntry) (entry : GraphEntry)
    : Type 0 where
  pub parents_lt : (q : IndexPosition) → Sets.contains entry.parent_positions q ≡ true → q < size
  pub generations :
      (q : IndexPosition)
      → Sets.contains entry.parent_positions q ≡ true
      → (graph q).generation_number < entry.generation_number
  pub generation_le : entry.generation_number ≤ size

module _ (self : MutableIndex) (size : ℕ) (graph : IndexPosition → GraphEntry)
    (i : IsIndexed self size graph) (entry : GraphEntry) (r : IsReady size graph entry)
    (room : size < 4_294_967_296) where
  push_entry-IsGraph :
      IsGraph
        (suc size)
        (extend size entry graph)
        (entry_by_pos (mutable_composite (push_entry self entry)))
  push_entry-IsGraph =
      let sized = i.sized in
      record {
        found = λ p h. elim (below_cases p size h) [
          | inl l ↦
              entry-push_old self entry p (omega arith)
              ∙ i.is_graph.found p l
              ∙ rw (extend_old size entry graph p l) refl
          | inr e ↦
              entry-push_new self entry p (omega arith) ∙ rw (e, extend_new size entry graph) refl
        ];
        earlier = λ p q h c. elim (below_cases p size h) [
          | inl l ↦ i.is_graph.earlier p q l (rw (extend_old size entry graph p l) at c)
          | inr e ↦ rw e (r.parents_lt q (rw (e, extend_new size entry graph) at c))
        ];
        generations = λ p q h c. elim (below_cases p size h) [
          | inl l ↦
              let c' = rw (extend_old size entry graph p l) at c in
              let q_lt = i.is_graph.earlier p q l c' in
              rw (extend_old size entry graph p l, extend_old size entry graph q (omega arith))
                (i.is_graph.generations p q l c')
          | inr e ↦
              let c' = rw (e, extend_new size entry graph) at c in
              rw (e, extend_new size entry graph, extend_old size entry graph q (r.parents_lt q c'))
                (r.generations q c')
        ];
      }

  -- An entry with a new id, whose parents are in the graph, may be pushed.
  pub push_entry-IsIndexed :
      commit_id_to_pos (mutable_composite self) entry.commit_id ≡ done none
      → IsIndexed (push_entry self entry) (suc size) (extend size entry graph)
  unfolding push_entry
  push_entry-IsIndexed absent =
      let sized = i.sized in
      let sum : self.num_parent_commits + length self.graph < 4_294_967_296 = omega arith in
      let at_size : self.num_parent_commits + length self.graph ≡ size = sized in
      let look = λ (id : CommitId). pos-push self entry id i.sorted sum in
      record {
        sized = omega (arith, length-append self.graph (entry ∷ []));
        sorted = BTree.insert-IsSorted entry.commit_id _ self.lookup i.sorted;
        is_graph = push_entry-IsGraph;
        generation_le = λ p h. elim (below_cases p size h) [
          | inl l ↦ rw (extend_old size entry graph p l) (i.generation_le p l)
          | inr e ↦ rw (e, extend_new size entry graph) r.generation_le
        ];
        known = λ p h. elim (below_cases p size h) [
          | inl l ↦
              rw (extend_old size entry graph p l)
                (look (graph p).commit_id ∙ old_known p l ∙ i.known p l)
          | inr e ↦
              rw (e, extend_new size entry graph)
                (look entry.commit_id ∙ rw (eq_refl entry.commit_id, at_size) refl)
        ];
        finds = λ id. elim (Bool-cases (entry.commit_id == id)) [
          | inl e ↦ inr (
            size,
            look id ∙ rw (e, at_size) refl,
            omega arith,
            rw (extend_new size entry graph) (eq_of_beq entry.commit_id id e),
          )
          | inr e ↦ elim (i.finds id) [
            | inl none_found ↦ inl (look id ∙ rw e none_found)
            | inr (p, found, l, named) ↦
                inr
                  (p, look id ∙ rw e found, omega arith, rw (extend_old size entry graph p l) named)
          ]
        ];
      }
    where
      old_known :
          (p : IndexPosition)
          → p < size
          → (if entry.commit_id == (graph p).commit_id
              then done (some (self.num_parent_commits + length self.graph))
              else commit_id_to_pos (mutable_composite self) (graph p).commit_id)
            ≡ commit_id_to_pos (mutable_composite self) (graph p).commit_id
      old_known p l = elim (Bool-cases (entry.commit_id == (graph p).commit_id)) [
        | inl e ↦
            let same = eq_of_beq entry.commit_id (graph p).commit_id e in
            absurd (ground (arith, absent, i.known p l, same))
        | inr e ↦ rw e refl
      ]
