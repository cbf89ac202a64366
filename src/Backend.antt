-- ===== src/Backend.antt =====
-- lib/src/backend.rs: the values of a tree, conflicts between such values, and trees. An id, a
-- newtype around bytes, is the list of its bytes; the derived order of the names in a tree is that
-- of their texts.
pub mod Commits
use jj.Prelude.{
  ℕ, ◌≡◌, ◌↔◌, ap, Bool, true, false, ◌&&◌, Option, List, is_empty, arith, Eq, ◌==◌, list_eq,
  nat_eq, list_beq_iff,
}
use jj.Prelude.Order.{
  Ord, text_cmp, text_cmp_refl, text_eq_of_cmp, text_gt_of_lt, text_lt_of_gt, text_lt_trans,
}
use jj.Prelude.BTree
use jj.Prelude.BTree.{BTree}
use jj.RepoPath.{RepoPathComponent}

abbrev pub FileId : Type 0
FileId = List ℕ

abbrev pub SymlinkId : Type 0
SymlinkId = List ℕ

abbrev pub TreeId : Type 0
TreeId = List ℕ

abbrev pub ConflictId : Type 0
ConflictId = List ℕ

pub data TreeValue : Type 0 where
  normal : FileId → Bool → TreeValue
  symlink : SymlinkId → TreeValue
  tree : TreeId → TreeValue
  git_submodule : List ℕ → TreeValue
  conflict : ConflictId → TreeValue

abbrev pub bool_beq : Bool → Bool → Bool
bool_beq true b = b
bool_beq false true = false
bool_beq false false = true

-- The derived `==`.
abbrev pub value_beq : TreeValue → TreeValue → Bool
value_beq (normal a x) (normal b y) = a == b && bool_beq x y
value_beq (symlink a) (symlink b) = a == b
value_beq (tree a) (tree b) = a == b
value_beq (git_submodule a) (git_submodule b) = a == b
value_beq (conflict a) (conflict b) = a == b
value_beq _ _ = false

pub value_beq_iff : (a b : TreeValue) → (value_beq a b ≡ true) ↔ (a ≡ b)
value_beq_iff (normal a x) (normal b y) = ground (arith, list_beq_iff a b)
value_beq_iff (symlink a) (symlink b) = ground (arith, list_beq_iff a b)
value_beq_iff (tree a) (tree b) = ground (arith, list_beq_iff a b)
value_beq_iff (git_submodule a) (git_submodule b) = ground (arith, list_beq_iff a b)
value_beq_iff (conflict a) (conflict b) = ground (arith, list_beq_iff a b)
value_beq_iff _ _ = ground arith

instance abbrev pub value_eq : Eq TreeValue
value_eq = record { beq = value_beq; beq_iff = value_beq_iff }

pub record ConflictPart : Type 0 where
  pub value : TreeValue

pub part_beq_iff : (a b : ConflictPart) → (value_beq a.value b.value ≡ true) ↔ (a ≡ b)
part_beq_iff a b = (
  λ h.
      ap (λ v. let p : ConflictPart = record { value = v } in p)
        ((value_beq_iff a.value b.value).0 h),
  λ e. (value_beq_iff a.value b.value).1 (ap (λ (p : ConflictPart). p.value) e),
)

instance abbrev pub part_eq : Eq ConflictPart
part_eq = record { beq = λ a b. value_beq a.value b.value; beq_iff = part_beq_iff }

pub record Conflict : Type 0 where
  pub removes : List ConflictPart
  pub adds : List ConflictPart

-- The derived order of `RepoPathComponent`.
pub component_eq_of_cmp : (a b : RepoPathComponent) → a.value ≡ b.value → a ≡ b
component_eq_of_cmp a b e = ap (λ t. let c : RepoPathComponent = record { value = t } in c) e

instance unfoldable pub component_ord : Ord RepoPathComponent
component_ord = record {
  cmp = λ a b. text_cmp a.value b.value;
  cmp_refl = λ a. text_cmp_refl a.value;
  eq_of_cmp = λ a b h. component_eq_of_cmp a b (text_eq_of_cmp a.value b.value h);
  gt_of_lt = λ a b. text_gt_of_lt a.value b.value;
  lt_of_gt = λ a b. text_lt_of_gt a.value b.value;
  lt_trans = λ a b c. text_lt_trans a.value b.value c.value;
}

-- `Tree`, whose one field holds the entries in the order of their names; an iterator over it is the
-- list of entries that are left.
pub record Tree : Type 0 where
  pub entries : BTree RepoPathComponent TreeValue

unfoldable pub tree_is_empty : Tree → Bool
tree_is_empty t = is_empty t.entries

unfoldable pub set : Tree → RepoPathComponent → TreeValue → Tree
set t name value = record { entries = BTree.insert name value t.entries }

unfoldable pub remove : Tree → RepoPathComponent → Tree
remove t name = record { entries = BTree.remove name t.entries }

unfoldable pub value : Tree → RepoPathComponent → Option TreeValue
value t name = BTree.get t.entries name
