-- ===== src/Index/Adds.antt =====
-- `add_commit_data` of lib/src/index.rs.
use jj.Prelude.{
  ℕ, suc, ◌+◌, ◌<◌, ◌≡◌, refl, sym, ◌∙◌, ◌⊎◌, inl, inr, ◌↔◌, true, ◌||◌, none, some, List, [], ◌∷◌,
  ◌++◌, arith, if◌then◌else◌, ltb, Bool-cases, list_eq, nat_eq, ◌==◌, beq_iff, eq_of_beq,
}
use jj.Prelude.Outcome.{done}
use jj.Prelude.Sets
use jj.OpStore.{CommitId}
use jj.Backend.Commits.{ChangeId}
use jj.Index.Entry.{IndexPosition, GraphEntry}
use jj.Index.Graph.{at}
use jj.Index.{as_u32, MutableIndex, mutable_composite, entry_by_id, has_id, commit_id_to_pos}
use jj.Index.Mutable.{add_parents, push_entry, add_commit_data}
use jj.Index.Push.{as_u32-lt, IsIndexed, extend, IsReady, push_entry-IsIndexed}

module _ (self : MutableIndex) (size : ℕ) (graph : IndexPosition → GraphEntry)
    (i : IsIndexed self size graph) (room : size < 4_294_967_296) where
  -- Every id of the list is in the index.
  abbrev pub AllKnown : List CommitId → Type 0
  AllKnown [] = Unit {0}
  AllKnown (id ∷ ids) =
      ((p : IndexPosition) × (commit_id_to_pos (mutable_composite self) id ≡ done (some p)))
      × AllKnown ids

  -- The id is found at a commit of the graph that has it.
  pos_of :
      (id : CommitId) (p : IndexPosition)
      → commit_id_to_pos (mutable_composite self) id ≡ done (some p)
      → (p < size) × ((graph p).commit_id ≡ id)
  pos_of id p h = elim (i.finds id) [
    | inl none_found ↦ absurd (ground (arith, h, none_found))
    | inr (q, found, l, named) ↦
        let same : q ≡ p = ground (arith, h, found) in rw (sym same) (l, named)
  ]

  entry_of :
      (id : CommitId) (p : IndexPosition)
      → commit_id_to_pos (mutable_composite self) id ≡ done (some p)
      → entry_by_id (mutable_composite self) id ≡ done (some (at graph p))
  unfolding entry_by_id
  entry_of id p h = rw (h, i.is_graph.found p (pos_of id p h).0) refl

  -- What the loop over the parents makes of an entry.
  record Added (ids : List CommitId) (before after : GraphEntry) : Type 0 where
    ends : add_parents (mutable_composite self) before ids ≡ done after
    id : after.commit_id ≡ before.commit_id
    change : after.change_id ≡ before.change_id
    ready : IsReady size graph after
    kept :
        (q : IndexPosition)
        → Sets.contains before.parent_positions q ≡ true
        → Sets.contains after.parent_positions q ≡ true
    listed :
        (q : IndexPosition)
        → q < size
        → Sets.contains ids (graph q).commit_id ≡ true
        → Sets.contains after.parent_positions q ≡ true
    only :
        (q : IndexPosition)
        → Sets.contains after.parent_positions q ≡ true
        → (Sets.contains before.parent_positions q || Sets.contains ids (graph q).commit_id) ≡ true

  abbrev with_parent : GraphEntry → IndexPosition → GraphEntry
  with_parent entry p =
      let next_generation = as_u32 ((graph p).generation_number + 1) in
      record entry {
        generation_number =
            if ltb entry.generation_number next_generation
            then next_generation
            else entry.generation_number;
        parent_positions = entry.parent_positions ++ p ∷ [];
      }

  IsReady-with_parent :
      (entry : GraphEntry) (p : IndexPosition)
      → p < size
      → IsReady size graph entry
      → IsReady size graph (with_parent entry p)
  IsReady-with_parent entry p h r =
      let n : as_u32 ((graph p).generation_number + 1) ≡ (graph p).generation_number + 1 =
        as_u32-lt ((graph p).generation_number + 1) (omega (arith, i.generation_le p h)) in
      let has : (q : IndexPosition)
          → Sets.contains (entry.parent_positions ++ p ∷ []) q
            ≡ (Sets.contains entry.parent_positions q || Sets.contains (p ∷ []) q) =
        Sets.contains-append entry.parent_positions (p ∷ []) in
      record {
        parents_lt = λ q c. ground (arith, has q, r.parents_lt q, beq_iff p q);
        generations = λ q c. ground (arith, n, has q, r.generations q, beq_iff p q);
        generation_le = ground (arith, n, r.generation_le, i.generation_le p h);
      }

  add_parents-Added :
      (ids : List CommitId) (before : GraphEntry)
      → AllKnown ids
      → IsReady size graph before
      → (after : GraphEntry) × Added ids before after
  unfolding add_parents
  add_parents-Added [] before k r = (
    before,
    record {
      ends = refl;
      id = refl;
      change = refl;
      ready = r;
      kept = λ q h. h;
      listed = λ q l h. cc;
      only = λ q h. ground arith;
    },
  )
  add_parents-Added (x ∷ xs) before ((p, found), k) r =
      let (p_lt, named) = pos_of x p found in
      let (after, a) =
        add_parents-Added xs (with_parent before p) k (IsReady-with_parent before p p_lt r) in
      let has : (q : IndexPosition)
          → Sets.contains (before.parent_positions ++ p ∷ []) q
            ≡ (Sets.contains before.parent_positions q || Sets.contains (p ∷ []) q) =
        Sets.contains-append before.parent_positions (p ∷ []) in
      (
        after,
        record {
          ends = rw (entry_of x p found, add_parents) a.ends;
          id = a.id;
          change = a.change;
          ready = a.ready;
          kept = λ q h. a.kept q (has q ∙ ground arith);
          listed = λ q l h. elim (Bool-cases (x == (graph q).commit_id)) [
            | inl e ↦
                let same : x ≡ (graph q).commit_id = eq_of_beq x (graph q).commit_id e in
                let p_q : p ≡ q = ground (arith, found, i.known q l, same) in
                a.kept q (has q ∙ ground (arith, beq_iff p q))
            | inr e ↦ a.listed q l (ground arith)
          ];
          only = λ q h.
              ground (arith, a.only q h, has q, beq_iff p q, beq_iff x (graph q).commit_id, named);
        },
      )

  -- The index after a commit that it lacked, and the entry of the commit.
  pub record IsAdded (commit_id : CommitId) (change_id : ChangeId) (parent_ids : List CommitId)
      (self' : MutableIndex) (entry : GraphEntry) : Type 0 where
    pub new : commit_id_to_pos (mutable_composite self) commit_id ≡ done none
    pub indexed : IsIndexed self' (suc size) (extend size entry graph)
    pub id : entry.commit_id ≡ commit_id
    pub change : entry.change_id ≡ change_id
    pub parents :
        (q : IndexPosition)
        → (Sets.contains entry.parent_positions q ≡ true)
          ↔ ((q < size) × (Sets.contains parent_ids (graph q).commit_id ≡ true))

-- In an index of fewer than 2 ^ 32 commits that has all the parents, `add_commit_data` does not
-- panic. If it has the commit already, it stays as it is; if not, it becomes the index of the graph
-- with one more entry, that of the commit, whose parents are the positions of the given parents: it
-- is found by its id, all others are found as before, and parents still stand earlier and have
-- smaller generations.
pub add_commit_data_lem :
    (self : MutableIndex) (size : ℕ) (graph : IndexPosition → GraphEntry)
    (i : IsIndexed self size graph) (room : size < 4_294_967_296) (commit_id : CommitId)
    (change_id : ChangeId) (parent_ids : List CommitId)
    → AllKnown self size graph i room parent_ids
    → ((p : IndexPosition) × (commit_id_to_pos (mutable_composite self) commit_id ≡ done (some p))
        × (add_commit_data self commit_id change_id parent_ids ≡ done self))
      ⊎ ((self' : MutableIndex) × (entry : GraphEntry) × (add_commit_data self commit_id change_id
              parent_ids
            ≡ done self')
          × IsAdded self size graph i room commit_id change_id parent_ids self' entry)
unfolding add_commit_data has_id
add_commit_data_lem self size graph i room id change parent_ids k = elim (i.finds id) [
  | inr (p, found, l, named) ↦ inl (p, found, rw (found, add_commit_data, has_id) refl)
  | inl absent ↦
      let blank : GraphEntry = record {
        commit_id = id;
        change_id = change;
        generation_number = 0;
        parent_positions = [];
      } in
      let ready : IsReady size graph blank = record {
        parents_lt = λ q c. cc;
        generations = λ q c. cc;
        generation_le = omega arith;
      } in
      let (entry, a) = add_parents-Added self size graph i room parent_ids blank k ready in
      inr (
        push_entry self entry,
        entry,
        rw (absent, add_commit_data, has_id, a.ends) refl,
        record {
          new = absent;
          indexed = push_entry-IsIndexed self size graph i entry a.ready room (rw a.id absent);
          id = a.id;
          change = a.change;
          parents = λ q.
              (λ h. (a.ready.parents_lt q h, ground (arith, a.only q h)), λ h. a.listed q h.0 h.1);
        },
      )
]
