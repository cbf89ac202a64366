-- ===== src/Diff/Unchanged.antt =====
-- `Histogram` and `unchanged_ranges` of lib/src/diff.rs. The source leaves the order of the words of a
-- hash map open; it is that of their first occurrences here.
use jj.Prelude.{
  ℕ, zero, suc, ◌+◌, Bool, true, false, ◌||◌, Option, none, some, List, [], ◌∷◌, ◌++◌,
  if◌then◌else◌, ltb, leb, length, get_elem?, is_empty, nat_eq, list_eq, pair_eq,
}
use jj.Prelude.Outcome.{Outcome, done, out_of_fuel, ◌>>=◌, unwrap, slice}
use jj.Prelude.Maps
use jj.Prelude.Maps.{Map}
use jj.Prelude.BTree
use jj.Prelude.BTree.{BTree}
use jj.Prelude.Order.{nat_ord, text_cmp}
use jj.Diff.Hunk.{Bytes}
use jj.Diff.Tokens.{Range, range}
use jj.Diff.Lcs.{find_lcs}
use Prim.Native.Nat.{compare}
use Prim.Native.Nat.Ordering.{lt, eq, gt}

pub record Histogram : Type 0 where
  pub word_to_positions : Map Bytes (List ℕ)
  pub count_to_words : BTree ℕ (List Bytes)

-- The first loop of `calculate`, from a range on.
unfoldable pub add_words :
    Bytes → ℕ → ℕ → List Range → Map Bytes (List ℕ) → Outcome (Map Bytes (List ℕ))
add_words text max_occurrences i [] word_to_positions = done word_to_positions
add_words text max_occurrences i (r ∷ ranges) word_to_positions =
    slice text r.first r.past >>= λ word.
    let positions = Maps.get_or word_to_positions word [] in
    let positions' =
      if leb (length positions) max_occurrences then positions ++ i ∷ [] else positions in
    add_words text max_occurrences (suc i) ranges (Maps.insert word positions' word_to_positions)

unfoldable pub or_default : Option (List Bytes) → List Bytes
or_default none = []
or_default (some words) = words

-- Its second loop.
unfoldable pub count_words : Map Bytes (List ℕ) → BTree ℕ (List Bytes) → BTree ℕ (List Bytes)
count_words [] count_to_words = count_to_words
count_words ((word, positions) ∷ words) count_to_words =
    let count = length positions in
    count_words words
      (BTree.insert count (or_default (BTree.get count_to_words count) ++ word ∷ []) count_to_words)

unfoldable pub calculate : Bytes → List Range → ℕ → Outcome Histogram
calculate text ranges max_occurrences =
    add_words text max_occurrences 0 ranges [] >>= λ word_to_positions. done (record {
      word_to_positions = word_to_positions;
      count_to_words = count_words word_to_positions [];
    })

-- The words that the right side has too.
unfoldable pub shared_among : Map Bytes (List ℕ) → List Bytes → List Bytes
shared_among right_words [] = []
shared_among right_words (left_word ∷ left_words) =
    let rest = shared_among right_words left_words in
    if Maps.has_key right_words left_word then left_word ∷ rest else rest

-- The loop that pops counts until some words are shared.
unfoldable pub uncommon_shared_words : Map Bytes (List ℕ) → BTree ℕ (List Bytes) → List Bytes
uncommon_shared_words right_words [] = []
uncommon_shared_words right_words ((count, left_words) ∷ count_to_words) =
    let shared = shared_among right_words left_words in
    let rest = uncommon_shared_words right_words count_to_words in
    if is_empty shared then rest else shared

-- A position with its word and the number of the occurrence.
abbrev pub Position : Type 0
Position = ℕ × Bytes × ℕ

-- The order of the triples, which `sort` uses.
unfoldable pub position_leb : Position → Position → Bool
position_leb (a, v, m) (b, w, n) = elim (compare a b) [
  | lt ↦ true
  | gt ↦ false
  | eq ↦ elim (text_cmp v w) [ lt ↦ true | gt ↦ false | eq ↦ leb m n ]
]

unfoldable pub insert_position : Position → List Position → List Position
insert_position p [] = p ∷ []
insert_position p (q ∷ qs) =
    let rest = insert_position p qs in if position_leb p q then p ∷ q ∷ qs else q ∷ rest

-- `sort`; the positions are distinct, so that no choice is left.
unfoldable pub sort : List Position → List Position
sort [] = []
sort (p ∷ ps) = insert_position p (sort ps)

-- The occurrences `0..shared_count` of a word.
unfoldable pub occurrences : Bytes → ℕ → List ℕ → List ℕ → List Position × List Position
occurrences word occurrence (l ∷ lefts) (r ∷ rights) =
    let (left_positions, right_positions) = occurrences word (suc occurrence) lefts rights in
    ((l, word, occurrence) ∷ left_positions, (r, word, occurrence) ∷ right_positions)
occurrences word occurrence [] rights = ([], [])
occurrences word occurrence (l ∷ lefts) [] = ([], [])

unfoldable pub shared_positions :
    Histogram → Histogram → List Bytes → Outcome (List Position × List Position)
shared_positions left_histogram right_histogram [] = done ([], [])
shared_positions left_histogram right_histogram (word ∷ words) =
    unwrap (Maps.get left_histogram.word_to_positions word) >>= λ left_occurrences.
    unwrap (Maps.get right_histogram.word_to_positions word) >>= λ right_occurrences.
    let (left_positions, right_positions) = occurrences word 0 left_occurrences right_occurrences in
    shared_positions left_histogram right_histogram words >>= λ (lefts, rights).
    done (left_positions ++ lefts, right_positions ++ rights)

-- `left_position_map`, from an index on.
unfoldable pub position_map : ℕ → List Position → Map (Bytes × ℕ) ℕ → Map (Bytes × ℕ) ℕ
position_map i [] m = m
position_map i ((_, word, occurrence) ∷ positions) m =
    position_map (suc i) positions (Maps.insert (word, occurrence) i m)

-- `left_index_by_right_index`
unfoldable pub left_indexes : Map (Bytes × ℕ) ℕ → List Position → Outcome (List ℕ)
left_indexes left_position_map [] = done []
left_indexes left_position_map ((_, word, occurrence) ∷ right_positions) =
    unwrap (Maps.get left_position_map (word, occurrence)) >>= λ i.
    left_indexes left_position_map right_positions >>= λ is. done (i ∷ is)

abbrev pub RangePair : Type 0
RangePair = Range × Range

-- `!(0..a..b).is_empty()` for one of the two skipped ranges.
unfoldable pub nested :
    (List Range → List Range → Outcome (List RangePair))
    → List Range
    → List Range
    → Range
    → Range
    → Outcome (List RangePair)
nested recurse left_ranges right_ranges skipped_left skipped_right =
    elim (ltb skipped_left.first skipped_left.past || ltb skipped_right.first skipped_right.past) [
      | false ↦ done []
      | true ↦ slice left_ranges skipped_left.first skipped_left.past >>= λ lefts.
          slice right_ranges skipped_right.first skipped_right.past >>= λ rights.
          recurse lefts rights
    ]

-- The output, from the previous positions on.
unfoldable pub output_loop :
    (List Range → List Range → Outcome (List RangePair))
    → List Range
    → List Range
    → List Position
    → List Position
    → ℕ
    → ℕ
    → List (ℕ × ℕ)
    → Outcome (List RangePair)
output_loop recurse left_ranges right_ranges left_positions right_positions previous_left
      previous_right [] =
    nested recurse left_ranges right_ranges (range previous_left (length left_ranges))
      (range previous_right (length right_ranges))
output_loop recurse left_ranges right_ranges left_positions right_positions previous_left
      previous_right ((left_index, right_index) ∷ lcs) =
    do
      (left_position, _, _) ← unwrap (get_elem? left_positions left_index)
      (right_position, _, _) ← unwrap (get_elem? right_positions right_index)
      inner ←
          nested recurse left_ranges right_ranges (range previous_left left_position)
            (range previous_right right_position)
      left_range ← unwrap (get_elem? left_ranges left_position)
      right_range ← unwrap (get_elem? right_ranges right_position)
      rest ←
          output_loop recurse left_ranges right_ranges left_positions right_positions
            (left_position + 1) (right_position + 1) lcs
      done (inner ++ (left_range, right_range) ∷ rest)

-- The part of `unchanged_ranges` behind the histogram of the left side. The function itself, on less
-- fuel, is an argument.
unfoldable pub split_at_shared :
    (List Range → List Range → Outcome (List RangePair))
    → List Range
    → List Range
    → Histogram
    → Histogram
    → Outcome (List RangePair)
split_at_shared recurse left_ranges right_ranges left_histogram right_histogram =
    let words =
      uncommon_shared_words right_histogram.word_to_positions left_histogram.count_to_words in
    elim (is_empty words) [
      | true ↦ done []
      | false ↦ do
        (lefts, rights) ← shared_positions left_histogram right_histogram words
        let left_positions = sort lefts
        let right_positions = sort rights
        left_index_by_right_index ← left_indexes (position_map 0 left_positions []) right_positions
        lcs ← find_lcs left_index_by_right_index
        output_loop recurse left_ranges right_ranges left_positions right_positions 0 0 lcs
    ]

unfoldable pub first_count : BTree ℕ (List Bytes) → Option ℕ
first_count [] = none
first_count ((count, words) ∷ m) = some count

unfoldable pub unchanged_ranges :
    ℕ → Bytes → Bytes → List Range → List Range → Outcome (List RangePair)
unchanged_ranges zero left right left_ranges right_ranges = out_of_fuel
unchanged_ranges (suc fuel) left right left_ranges right_ranges =
    elim (is_empty left_ranges || is_empty right_ranges) [
      | true ↦ done []
      | false ↦ do
        left_histogram ← calculate left left_ranges 100
        least ← unwrap (first_count left_histogram.count_to_words)
        elim (ltb 100 least) [
          | true ↦ done []
          | false ↦ do
            right_histogram ← calculate right right_ranges 100
            split_at_shared (unchanged_ranges fuel left right) left_ranges right_ranges
                left_histogram right_histogram
        ]
    ]
