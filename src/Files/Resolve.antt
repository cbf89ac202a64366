-- ===== src/Files/Resolve.antt =====
-- How lib/src/files.rs resolves one hunk.
use jj.Prelude.{◌≡◌, none, some, [], ◌∷◌, arith, if◌then◌else◌, ◌==◌, beq_iff, list_eq, nat_eq}
use jj.Cancel.{cancel_pairs, cancel_loop}
use jj.Files.{Bytes, resolve_parts, resolve_left}

-- With one base and two sides a hunk is resolved as in a textbook three-way merge: a side that is
-- equal to the base yields to the other, equal sides give that side, and all else is a conflict.
pub resolve_parts_three_way :
    (base left right : Bytes)
    → resolve_parts (base ∷ []) (left ∷ right ∷ []) ≡ (
        if left == base
        then some right
        else (if right == base then some left else (if left == right then some left else none)))
unfolding resolve_parts resolve_left cancel_pairs cancel_loop
resolve_parts_three_way base left right = ground (
  arith,
  beq_iff base left,
  beq_iff base right,
  beq_iff left base,
  beq_iff right base,
  beq_iff left right,
  beq_iff right left,
)
