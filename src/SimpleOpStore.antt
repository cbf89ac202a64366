-- ===== src/SimpleOpStore.antt =====
-- lib/src/simple_op_store.rs: views and operations as protocol buffers messages. The files and the
-- encoding of messages as bytes are not modelled. `none` is the panic of an `unwrap`.
pub mod Proto
pub mod RoundTrip
pub mod Examples
use jj.Prelude.{
  ℕ, Bool, true, false, Option, none, some, List, [], ◌∷◌, map, if◌then◌else◌, is_empty, not,
  list_eq, nat_eq,
}
use jj.Prelude.Results.{◌>>=◌}
use jj.Prelude.Maps
use jj.Prelude.Maps.{Map}
use jj.Prelude.Sets
use jj.RepoPath.{Text}
use jj.OpStore
use jj.OpStore.{
  CommitId, WorkspaceId, RefTarget, normal, conflict, BranchTarget, Timestamp, OperationMetadata,
  Operation,
}
use Proto.{Bytes, default_target, default_timestamp, default_metadata, or_default}

unfoldable pub timestamp_to_proto : Timestamp → Proto.Timestamp
timestamp_to_proto t = record { millis_since_epoch = t.timestamp; tz_offset = t.tz_offset }

unfoldable pub timestamp_from_proto : Proto.Timestamp → Timestamp
timestamp_from_proto p = record { timestamp = p.millis_since_epoch; tz_offset = p.tz_offset }

unfoldable pub operation_metadata_to_proto : OperationMetadata → Proto.OperationMetadata
operation_metadata_to_proto m = record {
  start_time = some (timestamp_to_proto m.start_time);
  end_time = some (timestamp_to_proto m.end_time);
  description = m.description;
  hostname = m.hostname;
  username = m.username;
  tags = m.tags;
}

unfoldable pub operation_metadata_from_proto : Proto.OperationMetadata → OperationMetadata
operation_metadata_from_proto p = record {
  start_time = timestamp_from_proto (or_default default_timestamp p.start_time);
  end_time = timestamp_from_proto (or_default default_timestamp p.end_time);
  description = p.description;
  hostname = p.hostname;
  username = p.username;
  tags = p.tags;
}

-- The ids of operations and views are their bytes, so that copying them is the identity.
unfoldable pub operation_to_proto : Operation → Proto.Operation
operation_to_proto o = record {
  view_id = o.view_id;
  parents = map (λ parent. parent) o.parents;
  metadata = some (operation_metadata_to_proto o.metadata);
}

unfoldable pub operation_from_proto : Proto.Operation → Operation
operation_from_proto p = record {
  view_id = p.view_id;
  parents = map (λ parent. parent) p.parents;
  metadata = operation_metadata_from_proto (or_default default_metadata p.metadata);
}

unfoldable pub ref_target_to_proto : RefTarget → Proto.RefTarget
ref_target_to_proto (normal id) = record { value = some (Proto.RefValue.commit_id id) }
ref_target_to_proto (conflict removes adds) = record {
  value = some (Proto.RefValue.conflict (record { removes = removes; adds = adds }));
}

-- The `match` on the value of a target.
unfoldable pub ref_value_from_proto : Proto.RefValue → RefTarget
ref_value_from_proto (Proto.RefValue.commit_id id) = normal id
ref_value_from_proto (Proto.RefValue.conflict c) = conflict c.removes c.adds

unfoldable pub ref_target_from_proto : Proto.RefTarget → Option RefTarget
ref_target_from_proto p = elim p.value [
  | none ↦ none
  | some value ↦ some (ref_value_from_proto value)
]

unfoldable pub remote_to_proto : Text × RefTarget → Proto.RemoteBranch
remote_to_proto (remote_name, target) = record {
  remote_name = remote_name;
  target = some (ref_target_to_proto target);
}

unfoldable pub branch_to_proto : Text × BranchTarget → Proto.Branch
branch_to_proto (name, target) = record {
  name = name;
  local_target = elim target.local_target [
    | none ↦ none
    | some local_target ↦ some (ref_target_to_proto local_target)
  ];
  remote_branches = map remote_to_proto target.remote_targets;
}

unfoldable pub tag_to_proto : Text × RefTarget → Proto.Tag
tag_to_proto (name, target) = record { name = name; target = some (ref_target_to_proto target) }

unfoldable pub git_ref_to_proto : Text × RefTarget → Proto.GitRef
git_ref_to_proto (name, target) = record {
  name = name;
  commit_id = [];
  target = some (ref_target_to_proto target);
}

unfoldable pub view_to_proto : OpStore.View → Proto.View
view_to_proto view = record {
  head_ids = view.head_ids;
  public_head_ids = view.public_head_ids;
  wc_commit_id = [];
  wc_commit_ids = Maps.insert_all [] view.wc_commit_ids;
  branches = map branch_to_proto view.branches;
  tags = map tag_to_proto view.tags;
  git_refs = map git_ref_to_proto view.git_refs;
  git_head = or_default [] view.git_head;
}

-- The loop over `remote_branches`, with the map that is filled.
unfoldable pub remotes_from_proto :
    Map Text RefTarget → List Proto.RemoteBranch → Option (Map Text RefTarget)
remotes_from_proto acc [] = some acc
remotes_from_proto acc (r ∷ rs) = do
  target ← ref_target_from_proto (or_default default_target r.target)
  remotes_from_proto (Maps.insert r.remote_name target acc) rs

unfoldable pub local_from_proto : Option Proto.RefTarget → Option (Option RefTarget)
local_from_proto none = some none
local_from_proto (some p) = do target ← ref_target_from_proto p; some (some target)

unfoldable pub branch_from_proto : Proto.Branch → Option BranchTarget
branch_from_proto p = do
  local_target ← local_from_proto p.local_target
  remote_targets ← remotes_from_proto [] p.remote_branches
  some (record { local_target = local_target; remote_targets = remote_targets })

unfoldable pub branches_from_proto :
    Map Text BranchTarget → List Proto.Branch → Option (Map Text BranchTarget)
branches_from_proto acc [] = some acc
branches_from_proto acc (b ∷ bs) = do
  branch ← branch_from_proto b
  branches_from_proto (Maps.insert b.name branch acc) bs

unfoldable pub tags_from_proto : Map Text RefTarget → List Proto.Tag → Option (Map Text RefTarget)
tags_from_proto acc [] = some acc
tags_from_proto acc (t ∷ ts) = do
  target ← ref_target_from_proto (or_default default_target t.target)
  tags_from_proto (Maps.insert t.name target acc) ts

-- A ref without a target has the commit id of the legacy format.
unfoldable pub git_ref_from_proto : Proto.GitRef → Option RefTarget
git_ref_from_proto g = elim g.target [
  | some target ↦ ref_target_from_proto target
  | none ↦ some (normal g.commit_id)
]

unfoldable pub git_refs_from_proto :
    Map Text RefTarget → List Proto.GitRef → Option (Map Text RefTarget)
git_refs_from_proto acc [] = some acc
git_refs_from_proto acc (g ∷ gs) = do
  target ← git_ref_from_proto g
  git_refs_from_proto (Maps.insert g.name target acc) gs

-- `WorkspaceId::default()`
abbrev pub default_workspace : WorkspaceId
default_workspace = b'd' ∷ b'e' ∷ b'f' ∷ b'a' ∷ b'u' ∷ b'l' ∷ b't' ∷ []

unfoldable pub wc_commit_ids_from_proto : Proto.View → Map WorkspaceId CommitId
wc_commit_ids_from_proto p =
    let legacy =
      if not (is_empty p.wc_commit_id)
      then Maps.insert default_workspace p.wc_commit_id []
      else [] in
    Maps.insert_all legacy p.wc_commit_ids

unfoldable pub view_from_proto : Proto.View → Option OpStore.View
view_from_proto p = do
  branches ← branches_from_proto [] p.branches
  tags ← tags_from_proto [] p.tags
  git_refs ← git_refs_from_proto [] p.git_refs
  some (record {
    head_ids = Sets.collect p.head_ids;
    public_head_ids = Sets.collect p.public_head_ids;
    branches = branches;
    tags = tags;
    git_refs = git_refs;
    git_head = if not (is_empty p.git_head) then some p.git_head else none;
    wc_commit_ids = wc_commit_ids_from_proto p;
  })
