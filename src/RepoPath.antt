-- ===== src/RepoPath.antt =====
-- lib/src/repo_path.rs: paths inside a repository, as lists of components. A `String` is the list
-- of its code points. A panic of an assertion is `none`. `Path::join` of the standard library,
-- which `to_fs_path` calls, is a parameter.
pub mod Internal
pub mod Order
pub mod Join
pub mod Examples
use jj.Prelude.{
  ℕ, zero, suc, ◌-◌, ◌≡◌, ap, ◌↔◌, Bool, true, false, not, ◌&&◌, Option, none, some, List, [], ◌∷◌,
  ◌++◌, map, if◌then◌else◌, nat_beq, length, is_empty, take, last, Eq, ◌==◌, nat_eq, option_eq,
  list_beq, list_beq_iff,
}
use mathlib.Core.List.{foldl}

-- The text that a string holds, by its code points.
abbrev pub Text : Type 0
Text = List ℕ

pub record RepoPathComponent : Type 0 where
  pub value : Text

pub record RepoPath : Type 0 where
  pub components : List RepoPathComponent

-- The derived `Eq` of the two structs.
pub component_beq_iff : (a b : RepoPathComponent) → (list_beq a.value b.value ≡ true) ↔ (a ≡ b)
component_beq_iff a b = (
  λ h.
      ap (λ t. let c : RepoPathComponent = record { value = t } in c)
        ((list_beq_iff a.value b.value).0 h),
  λ e. (list_beq_iff a.value b.value).1 (ap (λ (c : RepoPathComponent). c.value) e),
)

instance abbrev pub component_eq : Eq RepoPathComponent
component_eq = record { beq = λ a b. list_beq a.value b.value; beq_iff = component_beq_iff }

pub path_beq_iff : (a b : RepoPath) → (list_beq a.components b.components ≡ true) ↔ (a ≡ b)
path_beq_iff a b = (
  λ h.
      ap (λ t. let c : RepoPath = record { components = t } in c)
        ((list_beq_iff a.components b.components).0 h),
  λ e. (list_beq_iff a.components b.components).1 (ap (λ (c : RepoPath). c.components) e),
)

instance abbrev pub path_eq : Eq RepoPath
path_eq = record { beq = λ a b. list_beq a.components b.components; beq_iff = path_beq_iff }

abbrev pub slash : ℕ
slash = b'/'

unfoldable pub contains_slash : Text → Bool
contains_slash [] = false
contains_slash (c ∷ cs) = if nat_beq c slash then true else contains_slash cs

-- `From<&str> for RepoPathComponent`
unfoldable pub component_from : Text → Option RepoPathComponent
component_from value = if contains_slash value then none else some (record { value = value })

unfoldable pub root : RepoPath
root = record { components = [] }

-- `str::split('/')`
abbrev pub grow_first : ℕ → List Text → List Text
grow_first c [] = (c ∷ []) ∷ []
grow_first c (t ∷ ts) = (c ∷ t) ∷ ts

unfoldable pub split_slash : Text → List Text
split_slash [] = [] ∷ []
split_slash (c ∷ cs) =
    let rest = split_slash cs in if nat_beq c slash then [] ∷ rest else grow_first c rest

unfoldable pub ends_with_slash : Text → Bool
ends_with_slash value = last value == some slash

abbrev pub to_component : Text → RepoPathComponent
to_component value = record { value = value }

unfoldable pub from_internal_string : Text → Option RepoPath
from_internal_string value =
    if ends_with_slash value
    then none
    else if is_empty value
    then some root
    else some (record { components = map to_component (split_slash value) })

unfoldable pub from_components : List RepoPathComponent → RepoPath
from_components components = record { components = components }

-- The loop of `to_internal_dir_string` over the components, with the string built so far.
unfoldable pub push_components : Text → List RepoPathComponent → Text
push_components result [] = result
push_components result (c ∷ cs) = push_components ((result ++ c.value) ++ slash ∷ []) cs

unfoldable pub to_internal_dir_string : RepoPath → Text
to_internal_dir_string p = push_components [] p.components

-- `[Text]::join("/")`
unfoldable pub join_slash : List Text → Text
join_slash [] = []
join_slash (t ∷ []) = t
join_slash (t ∷ u ∷ ts) = t ++ slash ∷ join_slash (u ∷ ts)

abbrev pub component_value : RepoPathComponent → Text
component_value c = c.value

unfoldable pub to_internal_file_string : RepoPath → Text
to_internal_file_string p = join_slash (map component_value p.components)

unfoldable pub to_fs_path {ℓ} :
    {PathBuf : Type ℓ} → (PathBuf → Text → PathBuf) → PathBuf → RepoPath → PathBuf
to_fs_path path_join base p = foldl (λ result c. path_join result c.value) base p.components

unfoldable pub is_root : RepoPath → Bool
is_root p = is_empty p.components

-- `[T]::starts_with`
unfoldable pub starts_with : List RepoPathComponent → List RepoPathComponent → Bool
starts_with cs [] = true
starts_with [] (d ∷ ds) = false
starts_with (c ∷ cs) (d ∷ ds) = c == d && starts_with cs ds

unfoldable pub contains : RepoPath → RepoPath → Bool
contains self other = starts_with other.components self.components

unfoldable pub parent : RepoPath → Option RepoPath
parent p =
    if is_root p
    then none
    else some (record { components = take (length p.components - 1) p.components })

-- `none` of the inner `last` is the `unwrap` that never fails.
unfoldable pub split : RepoPath → Option (RepoPath × RepoPathComponent)
split p = if is_root p then none else elim (parent p) [
  | none ↦ none
  | some dir ↦ elim (last p.components) [ none ↦ none | some basename ↦ some (dir, basename) ]
]

-- `RepoPathJoin::join`
unfoldable pub join : RepoPath → RepoPathComponent → RepoPath
join p entry = record { components = p.components ++ entry ∷ [] }
