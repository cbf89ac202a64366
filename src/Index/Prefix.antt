-- ===== src/Index/Prefix.antt =====
-- lib/src/index.rs: prefixes of ids, in hexadecimal digits, and the commits that they name. The package
-- that encodes bytes as digits is a parameter.
use jj.Prelude.{
  ℕ, zero, suc, ◌-◌, ◌%◌, Bool, true, false, ◌&&◌, ◌||◌, Option, none, some, List, [], ◌∷◌, ◌++◌,
  if◌then◌else◌, leb, length, drop, get_elem?, list_eq, nat_eq, ◌==◌, nat_beq,
}
use jj.Prelude.Outcome.{Outcome, done, out_of_fuel, unwrap, ◌>>=◌, slice}
use jj.Prelude.Order.{text_cmp}
use jj.RepoPath.{Text}
use jj.OpStore.{CommitId}
use jj.Index.Entry.{IndexPosition}
use jj.Index.Search.{midpoint, u32_add}
use jj.Index.{ReadonlyIndex, MutableIndex}
use Prim.Native.Nat.Ordering.{lt}

-- The lower-case digits, by their codes.
unfoldable pub is_lower_hexdigit : ℕ → Bool
is_lower_hexdigit c = (leb b'0' c && leb c b'9') || (leb b'a' c && leb c b'f')

unfoldable pub all_hexdigits : Text → Bool
all_hexdigits [] = true
all_hexdigits (c ∷ prefix) = is_lower_hexdigit c && all_hexdigits prefix

-- `HexPrefix::new`; a prefix is its text.
unfoldable pub new_hex_prefix : Text → Option Text
new_hex_prefix prefix = if all_hexdigits prefix then some prefix else none

-- `starts_with`
unfoldable pub starts_with : List ℕ → List ℕ → Bool
starts_with xs [] = true
starts_with [] (y ∷ ys) = false
starts_with (x ∷ xs) (y ∷ ys) = x == y && starts_with xs ys

pub data PrefixResolution : Type 0 where
  no_match : PrefixResolution
  single_match : CommitId → PrefixResolution
  ambiguous_match : PrefixResolution

unfoldable pub plus : PrefixResolution → PrefixResolution → PrefixResolution
plus no_match other = other
plus (single_match a) no_match = single_match a
plus (single_match a) (single_match b) = ambiguous_match
plus (single_match a) ambiguous_match = ambiguous_match
plus ambiguous_match other = ambiguous_match

unfoldable pub resolution_of : Option CommitId → PrefixResolution
resolution_of none = no_match
resolution_of (some id) = single_match id

-- `range((Bound::Included(&min_bytes_prefix), Bound::Unbounded))`
unfoldable pub range_from :
    CommitId → List (CommitId × IndexPosition) → List (CommitId × IndexPosition)
range_from min [] = []
range_from min ((id, pos) ∷ lookup) = elim (text_cmp id min) [
  | lt ↦ range_from min lookup
  | _ ↦ (id, pos) ∷ lookup
]

-- The binary search of `commit_id_byte_prefix_to_pos`; the slice of a shorter id panics.
unfoldable pub prefix_search : ℕ → List (CommitId × IndexPosition) → CommitId → ℕ → ℕ → Outcome ℕ
prefix_search zero lookup prefix low high = out_of_fuel
prefix_search (suc fuel) lookup prefix low high =
    let mid = midpoint low high in
    unwrap (get_elem? lookup mid) >>= λ (entry_commit_id, _).
    slice entry_commit_id 0 (length prefix) >>= λ entry_prefix. elim (nat_beq high low) [
      | true ↦ done mid
      | false ↦ elim (text_cmp entry_prefix prefix) [
        | lt ↦ prefix_search fuel lookup prefix (u32_add mid 1) high
        | _ ↦ prefix_search fuel lookup prefix low mid
      ]
    ]

unfoldable pub commit_id_byte_prefix_to_pos :
    List (CommitId × IndexPosition) → CommitId → Outcome (Option ℕ)
commit_id_byte_prefix_to_pos [] prefix = done none
commit_id_byte_prefix_to_pos (entry ∷ lookup) prefix =
    prefix_search (suc (length lookup)) (entry ∷ lookup) prefix 0 (length lookup) >>= λ pos.
    done (some pos)

-- `hex::decode` and `hex::encode` of the package hex.
module _ (decode : Text → Option (List ℕ)) (encode : List ℕ → Text) where
  unfoldable pub bytes_prefixes : Text → Outcome (CommitId × CommitId)
  bytes_prefixes prefix = elim (length prefix % 2 == 0) [
    | true ↦ unwrap (decode prefix) >>= λ bytes. done (bytes, bytes)
    | false ↦ do
      min_bytes ← unwrap (decode (prefix ++ b'0' ∷ []))
      bytes ← slice min_bytes 0 (length min_bytes - 1)
      done (bytes, min_bytes)
  ]

  unfoldable pub matches : Text → CommitId → Bool
  matches prefix id = starts_with (encode id) prefix

  -- The loop over the ids from the first possible one on.
  unfoldable pub match_loop :
      Text → CommitId → Option CommitId → List (CommitId × IndexPosition) → PrefixResolution
  match_loop prefix bytes_prefix first_match [] = resolution_of first_match
  match_loop prefix bytes_prefix first_match ((id, _) ∷ lookup) =
      elim (starts_with id bytes_prefix) [
        | false ↦ resolution_of first_match
        | true ↦ elim (matches prefix id) [
          | false ↦ match_loop prefix bytes_prefix first_match lookup
          | true ↦ elim first_match [
            | some _ ↦ ambiguous_match
            | none ↦ match_loop prefix bytes_prefix (some id) lookup
          ]
        ]
      ]

  -- `segment_resolve_prefix` of a mutable index.
  unfoldable pub resolve_mutable : MutableIndex → Text → Outcome PrefixResolution
  resolve_mutable self prefix = bytes_prefixes prefix >>= λ (bytes_prefix, min_bytes_prefix).
      done (match_loop prefix bytes_prefix none (range_from min_bytes_prefix self.lookup))

  -- `segment_resolve_prefix` of a file.
  unfoldable pub resolve_readonly : ReadonlyIndex → Text → Outcome PrefixResolution
  resolve_readonly self prefix = do
    (bytes_prefix, min_bytes_prefix) ← bytes_prefixes prefix
    maybe_pos ← commit_id_byte_prefix_to_pos self.lookup min_bytes_prefix
    elim maybe_pos [
      | none ↦ done no_match
      | some lookup_pos ↦ done (match_loop prefix bytes_prefix none (drop lookup_pos self.lookup))
    ]

  -- `resolve_prefix` of a file and those below it.
  unfoldable pub resolve_files : List ReadonlyIndex → Text → Outcome PrefixResolution
  resolve_files [] prefix = done no_match
  resolve_files (file ∷ files) prefix = resolve_readonly file prefix >>= λ local_match.
      elim local_match [
        | ambiguous_match ↦ done ambiguous_match
        | no_match ↦
            resolve_files files prefix >>= λ parent_match. done (plus no_match parent_match)
        | single_match id ↦ resolve_files files prefix >>= λ parent_match.
            done (plus (single_match id) parent_match)
      ]

  -- `resolve_prefix` of a mutable index.
  unfoldable pub resolve_prefix : MutableIndex → Text → Outcome PrefixResolution
  resolve_prefix self prefix = resolve_mutable self prefix >>= λ local_match. elim local_match [
    | ambiguous_match ↦ done ambiguous_match
    | no_match ↦
        resolve_files self.parent_files prefix >>= λ parent_match. done (plus no_match parent_match)
    | single_match id ↦ resolve_files self.parent_files prefix >>= λ parent_match.
        done (plus (single_match id) parent_match)
  ]
