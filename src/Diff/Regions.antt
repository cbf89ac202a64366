-- ===== src/Diff/Regions.antt =====
-- The unchanged regions of lib/src/diff.rs. An offset, which the source keeps as `isize`, is here the
-- number with the same 64 bits.
use jj.Prelude.{
  ℕ, ◌+◌, ◌-◌, ◌%◌, ◌^◌, Bool, true, false, ◌&&◌, Option, none, some, List, [], ◌∷◌, ◌++◌,
  if◌then◌else◌, ltb, leb, get_elem?, nat_eq, list_eq, ◌==◌,
}
use jj.Prelude.Outcome.{Outcome, done, panic, ◌>>=◌, unwrap}
use jj.Diff.Tokens.{Range, range}
use jj.Diff.Unchanged.{RangePair}
use Prim.Native.Nat.{compare}
use Prim.Native.Nat.Ordering.{lt, eq, gt}

pub record UnchangedRange : Type 0 where
  pub base_range : Range
  pub offsets : List ℕ

abbrev pub wrapping_add : ℕ → ℕ → ℕ
wrapping_add a b = (a + b) % 2 ^ 64

abbrev pub wrapping_sub : ℕ → ℕ → ℕ
wrapping_sub a b = (a + (2 ^ 64 - b % 2 ^ 64)) % 2 ^ 64

-- `UnchangedRange::start`
unfoldable pub start : UnchangedRange → ℕ → Outcome ℕ
start r side = unwrap (get_elem? r.offsets side) >>= λ o. done (wrapping_add r.base_range.first o)

-- `UnchangedRange::end`
unfoldable pub end : UnchangedRange → ℕ → Outcome ℕ
end r side = unwrap (get_elem? r.offsets side) >>= λ o. done (wrapping_add r.base_range.past o)

-- `self <= other` by `cmp`
unfoldable pub region_leb : UnchangedRange → UnchangedRange → Bool
region_leb r s = elim (compare r.base_range.first s.base_range.first) [
  | lt ↦ true
  | gt ↦ false
  | eq ↦ leb r.base_range.past s.base_range.past
]

-- What one new range leaves of the current one.
unfoldable pub overlap : Range → Range → UnchangedRange → UnchangedRange
overlap new_base_range other_range current = record {
  base_range =
      range
        (if ltb current.base_range.first new_base_range.first
          then new_base_range.first
          else current.base_range.first)
        (if ltb current.base_range.past new_base_range.past
          then current.base_range.past
          else new_base_range.past);
  offsets = current.offsets ++ wrapping_sub other_range.first new_base_range.first ∷ [];
}

-- The `while let` loop: the result, and what is left of the iterator.
unfoldable pub intersect_range :
    Range
    → Range
    → List UnchangedRange
    → List UnchangedRange
    → List UnchangedRange × List UnchangedRange
intersect_range new_base_range other_range [] result = (result, [])
intersect_range new_base_range other_range (current ∷ rest) result =
    let result' = result ++ overlap new_base_range other_range current ∷ [] in
    elim (leb new_base_range.past current.base_range.first) [
      | true ↦ (result, current ∷ rest)
      | false ↦ elim (leb current.base_range.past new_base_range.first) [
        | true ↦ intersect_range new_base_range other_range rest result
        | false ↦ elim (leb new_base_range.past current.base_range.past) [
          | true ↦ (result', current ∷ rest)
          | false ↦ intersect_range new_base_range other_range rest result'
        ]
      ]
    ]

-- The loop of `intersect_regions`.
unfoldable pub intersect_loop :
    List UnchangedRange → List RangePair → List UnchangedRange → Outcome (List UnchangedRange)
intersect_loop current_ranges [] result = done result
intersect_loop current_ranges ((new_base_range, other_range) ∷ new_ranges) result =
    elim (new_base_range.past - new_base_range.first == other_range.past - other_range.first) [
      | false ↦ panic
      | true ↦
          let (result', rest) = intersect_range new_base_range other_range current_ranges result in
          intersect_loop rest new_ranges result'
    ]

unfoldable pub intersect_regions :
    List UnchangedRange → List RangePair → Outcome (List UnchangedRange)
intersect_regions current_ranges new_unchanged_ranges =
    intersect_loop current_ranges new_unchanged_ranges []

unfoldable pub joined : UnchangedRange → UnchangedRange → UnchangedRange
joined previous current = record {
  base_range = range previous.base_range.first current.base_range.past;
  offsets = current.offsets;
}

-- The loop of `compact_unchanged_regions`, with `maybe_previous`.
unfoldable pub compact_loop :
    Option UnchangedRange → List UnchangedRange → List UnchangedRange → List UnchangedRange
compact_loop none compacted [] = compacted
compact_loop (some previous) compacted [] = compacted ++ previous ∷ []
compact_loop none compacted (current ∷ regions) = compact_loop (some current) compacted regions
compact_loop (some previous) compacted (current ∷ regions) =
    elim (previous.base_range.past == current.base_range.first
      && previous.offsets == current.offsets) [
        | true ↦ compact_loop (some (joined previous current)) compacted regions
        | false ↦ compact_loop (some current) (compacted ++ previous ∷ []) regions
      ]

unfoldable pub compact_unchanged_regions : List UnchangedRange → List UnchangedRange
compact_unchanged_regions regions = compact_loop none [] regions

-- `merge` of itertools, where the first list starts with a region and `tail` merges what follows it.
unfoldable pub merge_onto :
    UnchangedRange
    → (List UnchangedRange → List UnchangedRange)
    → List UnchangedRange
    → List UnchangedRange
merge_onto r tail [] = r ∷ tail []
merge_onto r tail (other ∷ rest) = elim (region_leb r other) [
  | true ↦ r ∷ tail (other ∷ rest)
  | false ↦ other ∷ merge_onto r tail rest
]

-- Of two first elements the left one comes first unless it is greater.
unfoldable pub merge_regions : List UnchangedRange → List UnchangedRange → List UnchangedRange
merge_regions [] others = others
merge_regions (r ∷ regions) others = merge_onto r (merge_regions regions) others
