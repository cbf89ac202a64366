-- ===== src/SimpleOpStore/Examples.antt =====
-- Tests and instances for lib/src/simple_op_store.rs.
use jj.Prelude.{◌≡◌, refl, none, some, [], ◌∷◌}
use jj.Prelude.Int.{pos}
use jj.Prelude.Maps
use jj.OpStore
use jj.OpStore.{Operation}
use jj.SimpleOpStore.{
  view_to_proto, view_from_proto, operation_to_proto, operation_from_proto, ref_target_from_proto,
  tags_from_proto,
}
use jj.SimpleOpStore.RoundTrip.{
  IsStorable, IsSameView, view_from_proto-view_to_proto, operation_from_proto-operation_to_proto,
}
use jj.Refs.Examples.{commit}

abbrev stored : OpStore.View
stored = record {
  head_ids = (2 ∷ []) ∷ [];
  public_head_ids = [];
  branches =
      (
        b'm' ∷ [],
        record { local_target = some (commit 2); remote_targets = (b'o' ∷ [], commit 1) ∷ [] },
      )
      ∷ [];
  tags = (b't' ∷ [], commit 1) ∷ (b'u' ∷ [], commit 2) ∷ [];
  git_refs = [];
  git_head = some (2 ∷ []);
  wc_commit_ids = (b'w' ∷ [], 2 ∷ []) ∷ [];
}

stored-IsStorable : IsStorable stored
unfolding Maps.get
stored-IsStorable = record {
  branches = (refl, tt);
  remotes = ((refl, tt), tt);
  tags = (refl, (refl, tt));
  git_refs = tt;
  wc_commit_ids = (refl, tt);
}

view_from_proto-view_to_proto_example :
    (w : OpStore.View) × (view_from_proto (view_to_proto stored) ≡ some w) × IsSameView stored w
view_from_proto-view_to_proto_example = view_from_proto-view_to_proto stored stored-IsStorable

abbrev operation : Operation
operation = record {
  view_id = 1 ∷ [];
  parents = (2 ∷ []) ∷ (3 ∷ []) ∷ [];
  metadata = record {
    start_time = record { timestamp = pos 5; tz_offset = pos 60 };
    end_time = record { timestamp = pos 6; tz_offset = pos 60 };
    description = b'd' ∷ [];
    hostname = [];
    username = [];
    tags = [];
  };
}

operation_from_proto-operation_to_proto_example :
    operation_from_proto (operation_to_proto operation) ≡ operation
operation_from_proto-operation_to_proto_example = operation_from_proto-operation_to_proto operation

-- A tag without a target is a panic.
tag_without_target : tags_from_proto [] (record { name = b't' ∷ []; target = none } ∷ []) ≡ none
unfolding tags_from_proto ref_target_from_proto
tag_without_target = refl
