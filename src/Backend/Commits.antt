-- ===== src/Backend/Commits.antt =====
-- lib/src/backend.rs: commits and the root commit.
use jj.Prelude.{ℕ, List, [], ◌∷◌, Bool, false}
use jj.Prelude.Int.{pos}
use jj.RepoPath.{Text}
use jj.OpStore.{CommitId, Timestamp}
use jj.Backend.{TreeId}

abbrev pub ChangeId : Type 0
ChangeId = List ℕ

pub record Signature : Type 0 where
  pub name : Text
  pub email : Text
  pub timestamp : Timestamp

pub record Commit : Type 0 where
  pub parents : List CommitId
  pub predecessors : List CommitId
  pub root_tree : TreeId
  pub change_id : ChangeId
  pub description : Text
  pub author : Signature
  pub committer : Signature
  pub is_open : Bool

abbrev pub make_root_commit : TreeId → Commit
make_root_commit empty_tree_id =
    let signature : Signature = record {
      name = [];
      email = [];
      timestamp = record { timestamp = pos 0; tz_offset = pos 0 };
    } in
    record {
      parents = [];
      predecessors = [];
      root_tree = empty_tree_id;
      change_id = 0 ∷ 0 ∷ 0 ∷ 0 ∷ 0 ∷ 0 ∷ 0 ∷ 0 ∷ 0 ∷ 0 ∷ 0 ∷ 0 ∷ 0 ∷ 0 ∷ 0 ∷ 0 ∷ [];
      description = [];
      author = signature;
      committer = signature;
      is_open = false;
    }
