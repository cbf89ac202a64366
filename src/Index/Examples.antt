-- ===== src/Index/Examples.antt =====
-- Tests and instances for lib/src/index.rs: an index of a root commit, a child and a grandchild.
use jj.Prelude.{
  list_eq, nat_eq, ℕ, ◌<◌, ◌≡◌, refl, ◌⊎◌, inl, true, some, List, [], ◌∷◌, arith, beq_iff,
}
use jj.Prelude.Outcome.{panic, done}
use jj.Prelude.BTree
use jj.Index.Entry.{IndexPosition, GraphEntry}
use jj.Index.{
  MutableIndex, mutable_composite, mutable_segment, entry_by_pos, entry_in, local_entry,
  commit_id_to_pos, pos_in, as_u32,
}
use jj.Index.Search.{binary_search}
use jj.Index.Prefix.{prefix_search, commit_id_byte_prefix_to_pos}
use jj.Index.Lookup.{binary_search_lem}
use jj.Index.Walk.{heads_pos, is_ancestor_pos, is_ancestor_loop}
use jj.Index.Graph.{AllBelow}
use jj.Index.Heads.{AreHeads}
use jj.Index.HeadsStart.{heads_pos_lem}
use jj.Index.Mutable.{full, push_entry, add_commit_data}
use jj.Index.Push.{IsIndexed, extend, push_entry-IsIndexed}
use jj.Index.Adds.{IsAdded, add_commit_data_lem}
use jj.Index.Ancestors.{Decides}
use jj.Index.Composite.{is_ancestor}
use jj.Index.Answers.{is_ancestor_lem, is_ancestor_trans}

binary_search_lem_example :
    binary_search ((1 ∷ [], 7) ∷ (2 ∷ [], 5) ∷ (4 ∷ [], 6) ∷ []) (4 ∷ []) ≡ done (some 6)
unfolding BTree.get
binary_search_lem_example =
    binary_search_lem ((1 ∷ [], 7) ∷ (2 ∷ [], 5) ∷ (4 ∷ [], 6) ∷ []) (4 ∷ []) (omega arith)
      ((refl, (refl, tt)), ((refl, tt), (tt, tt)))

abbrev entry_of : ℕ → ℕ → List IndexPosition → GraphEntry
entry_of id generation parents = record {
  commit_id = id ∷ [];
  change_id = [];
  generation_number = generation;
  parent_positions = parents;
}

abbrev no_graph : IndexPosition → GraphEntry
no_graph p = entry_of 0 0 []

full-IsIndexed : IsIndexed full 0 no_graph
unfolding full mutable_composite mutable_segment commit_id_to_pos pos_in BTree.get
full-IsIndexed = record {
  sized = refl;
  sorted = tt;
  is_graph = record {
    found = λ p h. absurd (omega arith);
    earlier = λ p q h. absurd (omega arith);
    generations = λ p q h. absurd (omega arith);
  };
  generation_le = λ p h. absurd (omega arith);
  known = λ p h. absurd (omega arith);
  finds = λ id. inl refl;
}

abbrev root : GraphEntry
root = entry_of 1 0 []

abbrev child : GraphEntry
child = entry_of 2 1 (0 ∷ [])

abbrev one : MutableIndex
one = push_entry full root

abbrev one_graph : IndexPosition → GraphEntry
one_graph = extend 0 root no_graph

one-IsIndexed : IsIndexed one 1 one_graph
unfolding full mutable_composite mutable_segment commit_id_to_pos pos_in BTree.get
one-IsIndexed =
    push_entry-IsIndexed full 0 no_graph full-IsIndexed root
      (record { parents_lt = λ q c. cc; generations = λ q c. cc; generation_le = omega arith })
      (omega arith) refl

abbrev two : MutableIndex
two = push_entry one child

abbrev two_graph : IndexPosition → GraphEntry
two_graph = extend 1 child one_graph

two-IsIndexed : IsIndexed two 2 two_graph
unfolding full push_entry mutable_composite mutable_segment commit_id_to_pos pos_in BTree.get
    BTree.insert as_u32
two-IsIndexed =
    push_entry-IsIndexed one 1 one_graph one-IsIndexed child
      (record {
        parents_lt = λ q c. ground (arith, beq_iff 0 q);
        generations = λ q c. ground (arith, beq_iff 0 q);
        generation_le = omega arith;
      })
      (omega arith) refl

two_found :
    (commit_id_to_pos (mutable_composite two) (1 ∷ []) ≡ done (some 0))
    × (commit_id_to_pos (mutable_composite two) (2 ∷ []) ≡ done (some 1))
unfolding full push_entry mutable_composite mutable_segment commit_id_to_pos pos_in BTree.get
    BTree.insert as_u32
two_found = (refl, refl)

is_ancestor_lem_example :
    Decides 2 two_graph
      (entry_by_pos (mutable_composite two))
      two-IsIndexed.is_graph
      0
      1
      (is_ancestor 9 (mutable_composite two) (1 ∷ []) (2 ∷ []))
is_ancestor_lem_example =
    is_ancestor_lem two 2 two_graph two-IsIndexed 9 (omega arith) (1 ∷ []) (2 ∷ []) 0 1 two_found.0
      two_found.1

is_ancestor_root_child : is_ancestor 9 (mutable_composite two) (1 ∷ []) (2 ∷ []) ≡ done true
unfolding full push_entry mutable_composite mutable_segment commit_id_to_pos pos_in BTree.get
    BTree.insert as_u32 is_ancestor is_ancestor_pos is_ancestor_loop entry_by_pos entry_in
    local_entry
is_ancestor_root_child = refl

is_ancestor_child : is_ancestor 9 (mutable_composite two) (2 ∷ []) (2 ∷ []) ≡ done true
unfolding full push_entry mutable_composite mutable_segment commit_id_to_pos pos_in BTree.get
    BTree.insert as_u32 is_ancestor is_ancestor_pos is_ancestor_loop entry_by_pos entry_in
    local_entry
is_ancestor_child = refl

is_ancestor_trans_example : is_ancestor 9 (mutable_composite two) (1 ∷ []) (2 ∷ []) ≡ done true
is_ancestor_trans_example =
    is_ancestor_trans two 2 two_graph two-IsIndexed 9 (omega arith) (1 ∷ []) (2 ∷ []) (2 ∷ []) 0 1 1
      two_found.0 two_found.1 two_found.1 is_ancestor_root_child is_ancestor_child

both_below : AllBelow 2 (0 ∷ 1 ∷ [])
both_below p h = ground (arith, beq_iff 0 p, beq_iff 1 p)

heads_pos_lem_example :
    (result : List IndexPosition) × (heads_pos (entry_by_pos (mutable_composite two)) 9 (0 ∷ 1 ∷ [])
      ≡ done result)
    × AreHeads 2 two_graph
        (entry_by_pos (mutable_composite two))
        two-IsIndexed.is_graph
        (0 ∷ 1 ∷ [])
        both_below
        result
heads_pos_lem_example =
    heads_pos_lem 2 two_graph (entry_by_pos (mutable_composite two)) two-IsIndexed.is_graph 9
      (0 ∷ 1 ∷ []) both_below (omega arith)

root_found : commit_id_to_pos (mutable_composite one) (1 ∷ []) ≡ done (some 0)
unfolding full push_entry mutable_composite mutable_segment commit_id_to_pos pos_in BTree.get
    BTree.insert as_u32
root_found = refl

room_for_one : 1 < 4_294_967_296
room_for_one = omega arith

add_commit_data_lem_example :
    ((p : IndexPosition) × (commit_id_to_pos (mutable_composite one) (2 ∷ []) ≡ done (some p))
      × (add_commit_data one (2 ∷ []) [] ((1 ∷ []) ∷ []) ≡ done one))
    ⊎ ((self' : MutableIndex) × (entry : GraphEntry) × (add_commit_data one
            (2 ∷ [])
            []
            ((1 ∷ []) ∷ [])
          ≡ done self')
        × IsAdded one 1 one_graph one-IsIndexed room_for_one
            (2 ∷ [])
            []
            ((1 ∷ []) ∷ [])
            self'
            entry)
add_commit_data_lem_example =
    add_commit_data_lem one 1 one_graph one-IsIndexed room_for_one (2 ∷ []) [] ((1 ∷ []) ∷ [])
      ((0, root_found), tt)

-- A prefix with more bytes than the ids of a file have is sliced out of range.
long_prefix_panics : commit_id_byte_prefix_to_pos ((1 ∷ 2 ∷ [], 0) ∷ []) (1 ∷ 2 ∷ 3 ∷ []) ≡ panic
unfolding commit_id_byte_prefix_to_pos prefix_search
long_prefix_panics = refl

second_by_prefix :
    commit_id_byte_prefix_to_pos ((1 ∷ 2 ∷ [], 0) ∷ (4 ∷ 2 ∷ [], 1) ∷ []) (4 ∷ []) ≡ done (some 1)
unfolding commit_id_byte_prefix_to_pos prefix_search
second_by_prefix = refl
