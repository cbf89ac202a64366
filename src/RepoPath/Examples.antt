-- ===== src/RepoPath/Examples.antt =====
-- Tests and instances for lib/src/repo_path.rs.
use jj.Prelude.{◌≡◌, refl, ◌⊎◌, ◌↔◌, true, false, none, some, List, [], ◌∷◌, ◌++◌}
use jj.RepoPath.{
  Text, RepoPathComponent, RepoPath, contains_slash, split_slash, ends_with_slash,
  from_internal_string, to_internal_file_string, to_internal_dir_string, join_slash, root, parent,
  split, join, contains, starts_with, component_from,
}
use jj.RepoPath.Internal.{
  to_internal_file_string-from_internal_string, from_internal_string-to_internal_file_string,
  to_internal_dir_string-append,
}
use jj.RepoPath.Join.{split_cases, split-join}
use jj.RepoPath.Order.{contains_iff}

abbrev pub dir_component : RepoPathComponent
dir_component = record { value = b'd' ∷ b'i' ∷ b'r' ∷ [] }

abbrev pub file_component : RepoPathComponent
file_component = record { value = b'f' ∷ [] }

abbrev pub dir_path : RepoPath
dir_path = record { components = dir_component ∷ [] }

abbrev pub file_path : RepoPath
file_path = record { components = dir_component ∷ file_component ∷ [] }

abbrev file_text : Text
file_text = b'd' ∷ b'i' ∷ b'r' ∷ b'/' ∷ b'f' ∷ []

parse-file_text : from_internal_string file_text ≡ some file_path
unfolding from_internal_string ends_with_slash split_slash
parse-file_text = refl

parse_trailing_slash : from_internal_string (b'd' ∷ b'/' ∷ []) ≡ none
unfolding from_internal_string ends_with_slash
parse_trailing_slash = refl

print-file_path : to_internal_file_string file_path ≡ file_text
unfolding to_internal_file_string join_slash
print-file_path = refl

component_from_slash : component_from file_text ≡ none
unfolding component_from contains_slash
component_from_slash = refl

join-dir_path : join dir_path file_component ≡ file_path
unfolding join
join-dir_path = refl

contains_test : contains dir_path file_path ≡ true
unfolding contains starts_with
contains_test = refl

contains_test_reverse : contains file_path dir_path ≡ false
unfolding contains starts_with
contains_test_reverse = refl

to_internal_file_string-from_internal_string_example : to_internal_file_string file_path ≡ file_text
to_internal_file_string-from_internal_string_example =
    to_internal_file_string-from_internal_string file_text file_path parse-file_text

from_internal_string-to_internal_file_string_example :
    from_internal_string (to_internal_file_string file_path) ≡ some file_path
unfolding contains_slash
from_internal_string-to_internal_file_string_example =
    from_internal_string-to_internal_file_string file_path (
      record { no_slash = refl; not_empty = refl },
      (record { no_slash = refl; not_empty = refl }, tt),
    )

to_internal_dir_string-append_example :
    to_internal_dir_string dir_path ++ file_component.value
    ≡ to_internal_file_string (join dir_path file_component)
to_internal_dir_string-append_example = to_internal_dir_string-append dir_path file_component

split_cases_example :
    ((file_path ≡ root) × (split file_path ≡ none) × (parent file_path ≡ none))
    ⊎ ((dir : RepoPath) × (c : RepoPathComponent) × (file_path ≡ join dir c)
        × (split file_path ≡ some (dir, c))
        × (parent file_path ≡ some dir))
split_cases_example = split_cases file_path

split-join_example : split (join dir_path file_component) ≡ some (dir_path, file_component)
split-join_example = split-join dir_path file_component

contains_iff_example :
    (contains dir_path file_path ≡ true)
    ↔ ((rest : List RepoPathComponent) × (file_path.components ≡ dir_path.components ++ rest))
contains_iff_example = contains_iff dir_path file_path
