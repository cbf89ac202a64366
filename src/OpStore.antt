-- ===== src/OpStore.antt =====
-- lib/src/op_store.rs: the data of a view of the repository. An id, a newtype around bytes, is the
-- list of its bytes; a `String` is the list of its code points; a set is a list that is read by
-- membership.
use jj.Prelude.{
  ℕ, ◌≡◌, ◌↔◌, Bool, true, false, ◌&&◌, Option, none, List, [], ◌∷◌, arith, Eq, ◌==◌, list_eq,
  nat_eq, list_beq_iff, option_eq,
}
use jj.Prelude.Maps.{Map}
use jj.Prelude.Int.{ℤ}
use jj.Prelude.Sets
use jj.RepoPath.{Text}

abbrev pub CommitId : Type 0
CommitId = List ℕ

abbrev pub WorkspaceId : Type 0
WorkspaceId = Text

pub data RefTarget : Type 0 where
  normal : CommitId → RefTarget
  conflict : List CommitId → List CommitId → RefTarget

-- The derived `==`; a conflict is its removes and its adds.
abbrev pub target_beq : RefTarget → RefTarget → Bool
target_beq (normal a) (normal b) = a == b
target_beq (normal a) (conflict removes adds) = false
target_beq (conflict removes adds) (normal b) = false
target_beq (conflict removes adds) (conflict removes' adds') = removes == removes' && adds == adds'

pub target_beq_iff : (a b : RefTarget) → (target_beq a b ≡ true) ↔ (a ≡ b)
target_beq_iff (normal a) (normal b) = ground (arith, list_beq_iff a b)
target_beq_iff (normal a) (conflict removes adds) = ground arith
target_beq_iff (conflict removes adds) (normal b) = ground arith
target_beq_iff (conflict removes adds) (conflict removes' adds') =
    ground (arith, list_beq_iff removes removes', list_beq_iff adds adds')

instance abbrev pub target_eq : Eq RefTarget
target_eq = record { beq = target_beq; beq_iff = target_beq_iff }

unfoldable pub is_conflict : RefTarget → Bool
is_conflict (normal id) = false
is_conflict (conflict minus plus) = true

unfoldable pub adds : RefTarget → List CommitId
adds (normal id) = id ∷ []
adds (conflict minus plus) = plus

unfoldable pub has_add : RefTarget → CommitId → Bool
has_add (normal id) needle = id == needle
has_add (conflict minus plus) needle = Sets.contains plus needle

unfoldable pub removes : RefTarget → List CommitId
removes (normal id) = []
removes (conflict minus plus) = minus

pub record BranchTarget : Type 0 where
  pub local_target : Option RefTarget
  pub remote_targets : Map Text RefTarget

-- The derived `Default`.
abbrev pub default_branch_target : BranchTarget
default_branch_target = record { local_target = none; remote_targets = [] }

pub record View : Type 0 where
  pub head_ids : List CommitId
  pub public_head_ids : List CommitId
  pub branches : Map Text BranchTarget
  pub tags : Map Text RefTarget
  pub git_refs : Map Text RefTarget
  pub git_head : Option CommitId
  pub wc_commit_ids : Map WorkspaceId CommitId

-- The derived `Default`.
abbrev pub default_view : View
default_view = record {
  head_ids = [];
  public_head_ids = [];
  branches = [];
  tags = [];
  git_refs = [];
  git_head = none;
  wc_commit_ids = [];
}

-- `Timestamp` of lib/src/backend.rs.
pub record Timestamp : Type 0 where
  pub timestamp : ℤ
  pub tz_offset : ℤ

pub record OperationMetadata : Type 0 where
  pub start_time : Timestamp
  pub end_time : Timestamp
  pub description : Text
  pub hostname : Text
  pub username : Text
  pub tags : Map Text Text

pub record Operation : Type 0 where
  pub view_id : List ℕ
  pub parents : List (List ℕ)
  pub metadata : OperationMetadata
