-- ===== src/Index/Search.antt =====
-- lib/src/index.rs: the binary search for a commit id in the lookup table of a file. The bounds of the
-- range are `u32`; their sums wrap, as in a release build.
use jj.Prelude.{
  ℕ, zero, suc, ◌+◌, ◌-◌, ◌/◌, ◌%◌, true, false, Option, none, some, List, [], ◌∷◌, if◌then◌else◌,
  length, get_elem?, list_eq, nat_eq, ◌==◌, nat_beq,
}
use jj.Prelude.Outcome.{Outcome, done, out_of_fuel, unwrap, ◌>>=◌}
use jj.Prelude.Order.{text_ord}
use Prim.Native.Nat.Ordering.{lt, eq, gt}
use jj.OpStore.{CommitId}

abbrev pub Lookup : Type 0
Lookup = List (CommitId × ℕ)

-- `low + high` and `mid + 1`
abbrev pub u32_add : ℕ → ℕ → ℕ
u32_add a b = (a + b) % 4_294_967_296

-- `(low + high) / 2`
abbrev pub midpoint : ℕ → ℕ → ℕ
midpoint low high = u32_add low high / 2

-- What is returned where the range is one entry.
unfoldable pub found_pos : CommitId → CommitId × ℕ → Option ℕ
found_pos commit_id (entry_commit_id, pos) = if entry_commit_id == commit_id then some pos else none

unfoldable pub search_loop : ℕ → Lookup → CommitId → ℕ → ℕ → Outcome (Option ℕ)
search_loop zero lookup commit_id low high = out_of_fuel
search_loop (suc fuel) lookup commit_id low high =
    let mid = midpoint low high in
    unwrap (get_elem? lookup mid) >>= λ (entry : CommitId × ℕ). elim (nat_beq high low) [
      | true ↦ done (found_pos commit_id entry)
      | false ↦ elim (text_ord.cmp commit_id entry.0) [
        | gt ↦ search_loop fuel lookup commit_id (u32_add mid 1) high
        | lt ↦ search_loop fuel lookup commit_id low mid
        | eq ↦ search_loop fuel lookup commit_id low mid
      ]
    ]

-- The fuel is one round for each entry.
unfoldable pub binary_search : Lookup → CommitId → Outcome (Option ℕ)
binary_search [] commit_id = done none
binary_search (e ∷ es) commit_id =
    search_loop (length (e ∷ es)) (e ∷ es) commit_id 0 (length (e ∷ es) - 1)
