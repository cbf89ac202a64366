-- ===== src/Diff.antt =====
-- lib/src/diff.rs: the hunks in which some inputs match or differ. A panic of the source, as for a
-- range outside its slice, is a value. Fuel bounds the nesting of `unchanged_ranges`, which recurs on
-- fewer ranges of the left side each time.
pub mod Hunk
pub mod Tokens
pub mod LineRanges
pub mod WordRanges
pub mod Lcs
pub mod Chains
pub mod ChainTable
pub mod LongestChain
pub mod Unchanged
pub mod Regions
pub mod Examples
use jj.Prelude.{
  ℕ, zero, suc, ◌+◌, ◌-◌, ◌*◌, ◌%◌, ◌^◌, Bool, true, false, not, ◌&&◌, ◌||◌, Option, none, some,
  List, [], ◌∷◌, ◌++◌, if◌then◌else◌, ltb, leb, length, get_elem?, is_empty, replicate, nat_eq,
  list_eq, ◌==◌,
}
use jj.Prelude.Outcome.{Outcome, done, panic, out_of_fuel, ◌>>=◌, unwrap, slice}
use jj.Diff.Hunk.{Bytes, DiffHunk, matching, different}
use jj.Diff.Tokens.{Range, range, find_line_ranges, find_word_ranges, find_nonword_ranges}
use jj.Diff.Unchanged.{unchanged_ranges}
use jj.Diff.Regions.{
  UnchangedRange, wrapping_add, wrapping_sub, start, end, intersect_regions,
  compact_unchanged_regions, merge_regions,
}

pub record Diff : Type 0 where
  pub base_input : Bytes
  pub other_inputs : List Bytes
  pub unchanged_regions : List UnchangedRange

abbrev pub Tokenizer : Type 0
Tokenizer = Bytes → Outcome (List Range)

-- The loop over the other inputs.
unfoldable pub intersect_inputs :
    Tokenizer
    → Bytes
    → List Range
    → List Bytes
    → List UnchangedRange
    → Outcome (List UnchangedRange)
intersect_inputs tokenizer base_input base_token_ranges [] regions = done regions
intersect_inputs tokenizer base_input base_token_ranges (other ∷ others) regions = do
  other_token_ranges ← tokenizer other
  new_ranges ←
      unchanged_ranges (suc (length base_token_ranges)) base_input other base_token_ranges
        other_token_ranges
  regions' ← intersect_regions regions new_ranges
  intersect_inputs tokenizer base_input base_token_ranges others regions'

-- The offsets of the ends.
unfoldable pub end_offsets : Bytes → List Bytes → List ℕ
end_offsets base_input [] = []
end_offsets base_input (other ∷ others) =
    wrapping_sub (length other) (length base_input) ∷ end_offsets base_input others

-- The empty range that is added at the end.
unfoldable pub last_region : Bytes → List Bytes → UnchangedRange
last_region base_input other_inputs = record {
  base_range = range (length base_input) (length base_input);
  offsets = end_offsets base_input other_inputs;
}

unfoldable pub for_tokenizer : Tokenizer → List Bytes → Outcome Diff
for_tokenizer tokenizer [] = panic
for_tokenizer tokenizer (base_input ∷ other_inputs) = do
  base_token_ranges ← tokenizer base_input
  regions ←
      intersect_inputs tokenizer base_input base_token_ranges other_inputs
        (record { base_range = range 0 (length base_input); offsets = [] } ∷ [])
  done (record {
    base_input = base_input;
    other_inputs = other_inputs;
    unchanged_regions =
        compact_unchanged_regions (regions ++ last_region base_input other_inputs ∷ []);
  })

unfoldable pub unrefined : List Bytes → Outcome Diff
unrefined inputs = for_tokenizer (λ _. done []) inputs

-- The slices between two regions, from a side on: `for i in 0..sides`.
unfoldable pub changed_slices :
    UnchangedRange → UnchangedRange → ℕ → ℕ → List Bytes → Outcome (List Bytes)
changed_slices previous current side zero other_inputs = done []
changed_slices previous current side (suc sides) other_inputs = do
  input ← unwrap (get_elem? other_inputs side)
  from ← end previous side
  to ← start current side
  part ← slice input from to
  parts ← changed_slices previous current (suc side) sides other_inputs
  done (part ∷ parts)

-- `offset + previous.offsets[i]`, from a side on.
unfoldable pub add_offsets : ℕ → List ℕ → List ℕ → Outcome (List ℕ)
add_offsets side previous_offsets [] = done []
add_offsets side previous_offsets (offset ∷ offsets) = do
  previous_offset ← unwrap (get_elem? previous_offsets side)
  rest ← add_offsets (suc side) previous_offsets offsets
  done (wrapping_add offset previous_offset ∷ rest)

-- The regions of a refined part, in terms of the whole.
unfoldable pub shift_regions : UnchangedRange → List UnchangedRange → Outcome (List UnchangedRange)
shift_regions previous [] = done []
shift_regions previous (r ∷ regions) = do
  offsets ← add_offsets 0 previous.offsets r.offsets
  rest ← shift_regions previous regions
  done (
      record {
        base_range =
            range (r.base_range.first + previous.base_range.past)
              (r.base_range.past + previous.base_range.past);
        offsets = offsets;
      }
      ∷ rest)

-- The loop of `refine_changed_regions`.
unfoldable pub refine_loop :
    Tokenizer → Diff → UnchangedRange → List UnchangedRange → Outcome (List UnchangedRange)
refine_loop tokenizer diff previous [] = done []
refine_loop tokenizer diff previous (current ∷ regions) = do
  base_part ← slice diff.base_input previous.base_range.past current.base_range.first
  parts ← changed_slices previous current 0 (length current.offsets) diff.other_inputs
  refined_diff ← for_tokenizer tokenizer (base_part ∷ parts)
  new_ranges ← shift_regions previous refined_diff.unchanged_regions
  rest ← refine_loop tokenizer diff current regions
  done (new_ranges ++ rest)

-- The region before all of the inputs.
unfoldable pub first_region : Diff → UnchangedRange
first_region diff = record {
  base_range = range 0 0;
  offsets = replicate (length diff.other_inputs) 0;
}

unfoldable pub refine_changed_regions : Tokenizer → Diff → Outcome Diff
refine_changed_regions tokenizer diff = do
  new_ranges ← refine_loop tokenizer diff (first_region diff) diff.unchanged_regions
  done (record diff {
    unchanged_regions = compact_unchanged_regions (merge_regions diff.unchanged_regions new_ranges);
  })

unfoldable pub default_refinement : List Bytes → Outcome Diff
default_refinement inputs = do
  lines ← for_tokenizer find_line_ranges inputs
  words ← refine_changed_regions (λ text. done (find_word_ranges text)) lines
  refine_changed_regions (λ text. done (find_nonword_ranges text)) words

pub record DiffHunkIterator : Type 0 where
  pub previous : UnchangedRange
  pub unchanged_emitted : Bool
  pub unchanged_iter : List UnchangedRange

unfoldable pub hunks : Diff → DiffHunkIterator
hunks diff = record {
  previous = first_region diff;
  unchanged_emitted = true;
  unchanged_iter = diff.unchanged_regions;
}

unfoldable pub all_empty : List Bytes → Bool
all_empty [] = true
all_empty (part ∷ parts) = is_empty part && all_empty parts

-- Whether `next` starts with the previous region.
unfoldable pub emits_previous : UnchangedRange → Bool → Bool
emits_previous previous unchanged_emitted =
    not unchanged_emitted && ltb previous.base_range.first previous.base_range.past

unfoldable pub emit_previous :
    Diff → UnchangedRange → List UnchangedRange → Outcome (Option (DiffHunk × DiffHunkIterator))
emit_previous diff previous iter = do
  content ← slice diff.base_input previous.base_range.first previous.base_range.past
  done (
      some (
        matching content,
        record { previous = previous; unchanged_emitted = true; unchanged_iter = iter },
      ))

-- The loop of `next`; `none` is the end.
unfoldable pub next_loop :
    Diff
    → UnchangedRange
    → Bool
    → List UnchangedRange
    → Outcome (Option (DiffHunk × DiffHunkIterator))
next_loop diff previous unchanged_emitted [] = elim (emits_previous previous unchanged_emitted) [
  | true ↦ emit_previous diff previous []
  | false ↦ done none
]
next_loop diff previous unchanged_emitted (current ∷ rest) =
    elim (emits_previous previous unchanged_emitted) [
      | true ↦ emit_previous diff previous (current ∷ rest)
      | false ↦ do
        base_part ← slice diff.base_input previous.base_range.past current.base_range.first
        parts ← changed_slices previous current 0 (length diff.other_inputs) diff.other_inputs
        elim (all_empty (base_part ∷ parts)) [
          | true ↦ next_loop diff current false rest
          | false ↦ done (
              some (
                different (base_part ∷ parts),
                record { previous = current; unchanged_emitted = false; unchanged_iter = rest },
              ))
        ]
    ]

unfoldable pub next : Diff → DiffHunkIterator → Outcome (Option (DiffHunk × DiffHunkIterator))
next diff s = next_loop diff s.previous s.unchanged_emitted s.unchanged_iter

-- `collect_vec`
unfoldable pub collect_hunks : ℕ → Diff → DiffHunkIterator → Outcome (List DiffHunk)
collect_hunks zero diff s = out_of_fuel
collect_hunks (suc fuel) diff s = next diff s >>= λ o. elim o [
  | none ↦ done []
  | some (hunk, s') ↦ collect_hunks fuel diff s' >>= λ rest. done (hunk ∷ rest)
]

-- All hunks: at most two for each region.
unfoldable pub hunks_of : Diff → Outcome (List DiffHunk)
hunks_of diff = collect_hunks (suc (2 * length diff.unchanged_regions)) diff (hunks diff)

unfoldable pub diff : Bytes → Bytes → Outcome (List DiffHunk)
diff left right = elim (left == right) [
  | true ↦ done (matching left ∷ [])
  | false ↦ elim (is_empty left) [
    | true ↦ done (different ([] ∷ right ∷ []) ∷ [])
    | false ↦ elim (is_empty right) [
      | true ↦ done (different (left ∷ [] ∷ []) ∷ [])
      | false ↦ default_refinement (left ∷ right ∷ []) >>= hunks_of
    ]
  ]
]
