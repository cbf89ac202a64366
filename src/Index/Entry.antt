-- ===== src/Index/Entry.antt =====
-- lib/src/index.rs: the entries of the commit graph.
use jj.Prelude.{ℕ, List}
use jj.OpStore.{CommitId}
use jj.Backend.Commits.{ChangeId}

abbrev pub IndexPosition : Type 0
IndexPosition = ℕ

-- `MutableGraphEntry`, and what the bytes of a `CommitGraphEntry` encode.
pub record GraphEntry : Type 0 where
  pub commit_id : CommitId
  pub change_id : ChangeId
  pub generation_number : ℕ
  pub parent_positions : List IndexPosition

-- An entry with what its accessors return.
pub record IndexEntry : Type 0 where
  pub pos : IndexPosition
  pub entry : GraphEntry
