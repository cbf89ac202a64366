-- ===== src/Index.antt =====
-- lib/src/index.rs: the index of the commits. An index is a stack of files, each with the commits
-- that its parent file lacks; a position counts the commits of the whole stack. A `ReadonlyIndex` is
-- given by the tables that its bytes encode.
pub mod Entry
pub mod Search
pub mod Walk
pub mod Graph
pub mod Ancestors
pub mod Heads
pub mod HeadsStart
pub mod Composite
pub mod Mutable
pub mod Push
pub mod Adds
pub mod Answers
pub mod Examples
pub mod Lookup
pub mod Prefix
use jj.Prelude.{
  ℕ, zero, suc, ◌+◌, ◌-◌, ◌%◌, ◌^◌, Bool, true, false, not, ◌&&◌, Option, none, some, List, [], ◌∷◌,
  ◌++◌, if◌then◌else◌, ltb, leb, length, get_elem?, list_eq, nat_eq, ◌==◌, nat_beq, map,
}
use jj.Prelude.Outcome.{Outcome, done, panic, out_of_fuel, unwrap, ◌>>=◌, map_all}
use jj.Prelude.Order.{Ord, text_ord}
use jj.Prelude.BTree
use jj.Prelude.BTree.{BTree}
use jj.RepoPath.{Text}
use jj.OpStore.{CommitId}
use Entry.{IndexPosition, GraphEntry, IndexEntry}
use Search.{binary_search, found_pos}

-- `as u32`, and sums of `u32` as in a release build.
unfoldable pub as_u32 : ℕ → ℕ
as_u32 n = n % 4_294_967_296

pub record ReadonlyIndex : Type 0 where
  pub num_parent_commits : ℕ
  pub name : Text
  pub graph : List GraphEntry
  pub lookup : List (CommitId × IndexPosition)

-- The parent file and its ancestors are one list, the nearest first.
pub record MutableIndex : Type 0 where
  pub parent_files : List ReadonlyIndex
  pub num_parent_commits : ℕ
  pub graph : List GraphEntry
  pub lookup : BTree CommitId IndexPosition

-- The trait, whose functions on one local position are those on its entry in the table.
pub record IndexSegment : Type 0 where
  pub num_parent_commits : ℕ
  pub num_commits : ℕ
  pub name : Option Text
  pub commit_id_to_pos : CommitId → Outcome (Option IndexPosition)
  pub entry : ℕ → Option GraphEntry

unfoldable pub readonly_segment : ReadonlyIndex → IndexSegment
readonly_segment self = record {
  num_parent_commits = self.num_parent_commits;
  num_commits = length self.graph;
  name = some self.name;
  commit_id_to_pos = binary_search self.lookup;
  entry = get_elem? self.graph;
}

unfoldable pub mutable_segment : MutableIndex → IndexSegment
mutable_segment self = record {
  num_parent_commits = self.num_parent_commits;
  num_commits = as_u32 (length self.graph);
  name = none;
  commit_id_to_pos = λ id. done (BTree.get self.lookup id);
  entry = get_elem? self.graph;
}

pub record CompositeIndex : Type 0 where
  pub segment : IndexSegment
  pub parent_files : List ReadonlyIndex

unfoldable pub mutable_composite : MutableIndex → CompositeIndex
mutable_composite self = record { segment = mutable_segment self; parent_files = self.parent_files }

unfoldable pub num_commits : CompositeIndex → ℕ
num_commits self = as_u32 (self.segment.num_parent_commits + self.segment.num_commits)

-- `segment_entry_by_pos`, which panics once the entry is read out of range.
unfoldable pub local_entry : IndexSegment → IndexPosition → Outcome IndexEntry
local_entry segment pos = do
  entry ← unwrap (segment.entry (pos - segment.num_parent_commits))
  done (record { pos = pos; entry = entry })

-- `entry_by_pos` of a segment with the files below it.
unfoldable pub entry_in : IndexSegment → List ReadonlyIndex → IndexPosition → Outcome IndexEntry
entry_in segment [] pos =
    if leb segment.num_parent_commits pos then local_entry segment pos else panic
entry_in segment (file ∷ files) pos =
    let below = entry_in (readonly_segment file) files pos in
    if leb segment.num_parent_commits pos then local_entry segment pos else below

unfoldable pub entry_by_pos : CompositeIndex → IndexPosition → Outcome IndexEntry
entry_by_pos self pos = entry_in self.segment self.parent_files pos

unfoldable pub pos_in :
    IndexSegment → List ReadonlyIndex → CommitId → Outcome (Option IndexPosition)
pos_in segment [] commit_id = segment.commit_id_to_pos commit_id
pos_in segment (file ∷ files) commit_id =
    let below = pos_in (readonly_segment file) files commit_id in
    segment.commit_id_to_pos commit_id >>= λ local_match. elim local_match [
      | some pos ↦ done (some pos)
      | none ↦ below
    ]

unfoldable pub commit_id_to_pos : CompositeIndex → CommitId → Outcome (Option IndexPosition)
commit_id_to_pos self commit_id = pos_in self.segment self.parent_files commit_id

unfoldable pub entry_by_id : CompositeIndex → CommitId → Outcome (Option IndexEntry)
entry_by_id self commit_id = do
  maybe_pos ← commit_id_to_pos self commit_id
  elim maybe_pos [
    | none ↦ done none
    | some pos ↦ entry_by_pos self pos >>= λ entry. done (some entry)
  ]

unfoldable pub has_id : CompositeIndex → CommitId → Outcome Bool
has_id self commit_id = do
  maybe_pos ← commit_id_to_pos self commit_id
  done (elim maybe_pos [ none ↦ false | some pos ↦ true ])

-- The positions of ids that are in the index; it panics on another.
unfoldable pub positions_of : CompositeIndex → List CommitId → Outcome (List IndexPosition)
positions_of self ids = map_all (λ id. commit_id_to_pos self id >>= unwrap) ids

unfoldable pub commit_ids_of : CompositeIndex → List IndexPosition → Outcome (List CommitId)
commit_ids_of self positions =
    map_all (λ pos. entry_by_pos self pos >>= λ entry. done entry.entry.commit_id) positions
