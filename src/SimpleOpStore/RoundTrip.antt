-- ===== src/SimpleOpStore/RoundTrip.antt =====
-- What lib/src/simple_op_store.rs writes as messages is read back.
use jj.Prelude.{
  ℕ, ◌≡◌, refl, ap, ◌∙◌, not, Option, none, some, List, [], ◌∷◌, map, if◌then◌else◌, is_empty,
  list_eq, nat_eq,
}
use jj.Prelude.Maps
use jj.Prelude.Maps.{Map}
use jj.Prelude.Sets
use jj.RepoPath.{Text}
use jj.OpStore
use jj.SimpleOpStore.Proto.{or_default}
use jj.OpStore.{CommitId, RefTarget, normal, conflict, BranchTarget, Operation}
use jj.SimpleOpStore.{
  timestamp_to_proto, timestamp_from_proto, operation_metadata_to_proto,
  operation_metadata_from_proto, operation_to_proto, operation_from_proto, ref_target_to_proto,
  ref_value_from_proto, ref_target_from_proto, remote_to_proto, branch_to_proto, tag_to_proto,
  git_ref_to_proto, view_to_proto, remotes_from_proto, local_from_proto, branch_from_proto,
  branches_from_proto, tags_from_proto, git_ref_from_proto, git_refs_from_proto,
  wc_commit_ids_from_proto, view_from_proto,
}

map_id : (xs : List (List ℕ)) → map (λ x. x) xs ≡ xs
map_id [] = refl
map_id (x ∷ xs) = ap (λ l. x ∷ l) (map_id xs)

-- Every operation comes back from its message.
pub operation_from_proto-operation_to_proto :
    (o : Operation) → operation_from_proto (operation_to_proto o) ≡ o
unfolding operation_from_proto operation_to_proto operation_metadata_from_proto
    operation_metadata_to_proto timestamp_from_proto timestamp_to_proto
operation_from_proto-operation_to_proto o =
    ap (λ parents. record o { parents = parents })
      (ap (map (λ x. x)) (map_id o.parents) ∙ map_id o.parents)

ref_target_lem : (t : RefTarget) → ref_target_from_proto (ref_target_to_proto t) ≡ some t
unfolding ref_target_from_proto ref_target_to_proto ref_value_from_proto
ref_target_lem (normal id) = refl
ref_target_lem (conflict removes adds) = refl

remotes_lem :
    (acc m : Map Text RefTarget)
    → remotes_from_proto acc (map remote_to_proto m) ≡ some (Maps.insert_all acc m)
unfolding remotes_from_proto remote_to_proto Maps.insert_all
remotes_lem acc [] = refl
remotes_lem acc ((name, t) ∷ m) = rw (ref_target_lem t) (remotes_lem (Maps.insert name t acc) m)

branch_lem :
    (name : Text) (b : BranchTarget)
    → Maps.IsUnique b.remote_targets
    → branch_from_proto (branch_to_proto (name, b)) ≡ some b
unfolding branch_from_proto branch_to_proto
branch_lem name b u = rw (
  local_lem b.local_target,
  remotes_lem [] b.remote_targets,
  Maps.insert_all-nil b.remote_targets u,
)
  where
    local_lem :
        (t : Option RefTarget)
        → local_from_proto (elim t [ none ↦ none | some x ↦ some (ref_target_to_proto x) ]) ≡ some t
    local_lem none = unfold local_from_proto in refl
    local_lem (some x) = unfold local_from_proto in rw (ref_target_lem x)

-- The remotes of every branch have one entry each.
abbrev pub AllUnique : Map Text BranchTarget → Type 0
AllUnique [] = Unit {0}
AllUnique ((name, b) ∷ m) = Maps.IsUnique b.remote_targets × AllUnique m

branches_lem :
    (acc m : Map Text BranchTarget)
    → AllUnique m
    → branches_from_proto acc (map branch_to_proto m) ≡ some (Maps.insert_all acc m)
unfolding branches_from_proto Maps.insert_all
branches_lem acc [] u = refl
branches_lem acc ((name, b) ∷ m) u =
    rw (branch_lem name b u.0, branch_name name b) (branches_lem (Maps.insert name b acc) m u.1)
  where
    branch_name : (name : Text) (b : BranchTarget) → (branch_to_proto (name, b)).name ≡ name
    branch_name name b = unfold branch_to_proto in refl

tags_lem :
    (acc m : Map Text RefTarget)
    → tags_from_proto acc (map tag_to_proto m) ≡ some (Maps.insert_all acc m)
unfolding tags_from_proto tag_to_proto Maps.insert_all
tags_lem acc [] = refl
tags_lem acc ((name, t) ∷ m) = rw (ref_target_lem t) (tags_lem (Maps.insert name t acc) m)

git_refs_lem :
    (acc m : Map Text RefTarget)
    → git_refs_from_proto acc (map git_ref_to_proto m) ≡ some (Maps.insert_all acc m)
unfolding git_refs_from_proto git_ref_from_proto git_ref_to_proto Maps.insert_all
git_refs_lem acc [] = refl
git_refs_lem acc ((name, t) ∷ m) = rw (ref_target_lem t) (git_refs_lem (Maps.insert name t acc) m)

-- A view whose maps have one entry for each key, as a `BTreeMap` or `HashMap` has.
pub record IsStorable (v : OpStore.View) : Type 0 where
  pub branches : Maps.IsUnique v.branches
  pub remotes : AllUnique v.branches
  pub tags : Maps.IsUnique v.tags
  pub git_refs : Maps.IsUnique v.git_refs
  pub wc_commit_ids : Maps.IsUnique v.wc_commit_ids

-- In a message the empty text stands for no Git head.
abbrev pub head_read_back : Option CommitId → Option CommitId
head_read_back none = none
head_read_back (some []) = none
head_read_back (some (x ∷ xs)) = some (x ∷ xs)

-- The same maps and the same members of the sets, and the same Git head unless it is the empty id.
pub record IsSameView (v w : OpStore.View) : Type 0 where
  pub head_ids : (c : CommitId) → Sets.contains w.head_ids c ≡ Sets.contains v.head_ids c
  pub public_head_ids :
      (c : CommitId) → Sets.contains w.public_head_ids c ≡ Sets.contains v.public_head_ids c
  pub branches : w.branches ≡ v.branches
  pub tags : w.tags ≡ v.tags
  pub git_refs : w.git_refs ≡ v.git_refs
  pub git_head : w.git_head ≡ head_read_back v.git_head
  pub wc_commit_ids : w.wc_commit_ids ≡ v.wc_commit_ids

git_head_lem :
    (h : Option CommitId)
    → (let b = or_default [] h in if not (is_empty b) then some b else none) ≡ head_read_back h
git_head_lem none = refl
git_head_lem (some []) = refl
git_head_lem (some (x ∷ xs)) = refl

-- Every view whose maps have one entry for each key comes back from its message, with the same maps and
-- the same members of its sets, and with the same Git head, except that a head that is the empty id
-- comes back as no head.
pub view_from_proto-view_to_proto :
    (v : OpStore.View)
    → IsStorable v
    → (w : OpStore.View) × (view_from_proto (view_to_proto v) ≡ some w) × IsSameView v w
unfolding view_from_proto view_to_proto wc_commit_ids_from_proto
view_from_proto-view_to_proto v s = (
  record {
    head_ids = Sets.collect v.head_ids;
    public_head_ids = Sets.collect v.public_head_ids;
    branches = Maps.insert_all [] v.branches;
    tags = Maps.insert_all [] v.tags;
    git_refs = Maps.insert_all [] v.git_refs;
    git_head = let b = or_default [] v.git_head in if not (is_empty b) then some b else none;
    wc_commit_ids = Maps.insert_all [] (Maps.insert_all [] v.wc_commit_ids);
  },
  rw (branches_lem [] v.branches s.remotes, tags_lem [] v.tags, git_refs_lem [] v.git_refs),
  record {
    head_ids = Sets.contains-collect v.head_ids;
    public_head_ids = Sets.contains-collect v.public_head_ids;
    branches = Maps.insert_all-nil v.branches s.branches;
    tags = Maps.insert_all-nil v.tags s.tags;
    git_refs = Maps.insert_all-nil v.git_refs s.git_refs;
    git_head = git_head_lem v.git_head;
    wc_commit_ids =
        ap (Maps.insert_all []) (Maps.insert_all-nil v.wc_commit_ids s.wc_commit_ids)
        ∙ Maps.insert_all-nil v.wc_commit_ids s.wc_commit_ids;
  },
)
