-- ===== src/Std/FilePath.antt =====
-- `std::path::Path` on Unix: text with `/` as the separator, read through its components.
pub mod Components
use feather_mesh.Prelude.{
  ℕ, ◌≡◌, refl, sym, ap, ◌∙◌, Bool, true, false, ◌&&◌, ◌||◌, not, Option, none, some, List, [], ◌∷◌,
  ◌++◌, arith, ◌==◌, if◌then◌else◌, Text, text_eq, codes, is_empty, all, append_assoc, append-nil,
  Bool-cases, inl, inr,
}
use feather_mesh.Std.Str.{split_on}

pub data Component : Type 0 where
  root_dir cur_dir parent_dir : Component
  normal : Text → Component

-- `Path::is_absolute`
unfoldable pub is_absolute : Text → Bool
is_absolute [] = false
is_absolute (c ∷ p) = c == b'/'

-- Empty pieces and `.` are skipped.
unfoldable pub piece : Text → List Component
piece s =
    if is_empty s || text_eq s (codes ".")
    then []
    else if text_eq s (codes "..")
    then parent_dir ∷ []
    else normal s ∷ []

unfoldable pub body : List Text → List Component
unfolding piece
body [] = []
body (s ∷ ss) = piece s ++ body ss

-- A leading `.` of a relative path is kept.
unfoldable pub relative_components : List Text → List Component
relative_components [] = []
relative_components (s ∷ ss) = if text_eq s (codes ".") then cur_dir ∷ body ss else body (s ∷ ss)

-- `Path::components`
unfoldable pub components : Text → List Component
components [] = []
components (c ∷ p) =
    if c == b'/'
    then root_dir ∷ body (split_on b'/' p)
    else relative_components (split_on b'/' (c ∷ p))

unfoldable pub ends_with_sep : Text → Bool
ends_with_sep [] = false
ends_with_sep (c ∷ p) = let rest = ends_with_sep p in if is_empty p then c == b'/' else rest

-- `Path::join`
unfoldable pub join : Text → Text → Text
unfolding is_absolute ends_with_sep
join root p =
    if is_absolute p
    then p
    else if is_empty root || ends_with_sep root
    then root ++ p
    else root ++ b'/' ∷ p

unfoldable pub component_eq : Component → Component → Bool
component_eq root_dir root_dir = true
component_eq cur_dir cur_dir = true
component_eq parent_dir parent_dir = true
component_eq (normal s) (normal t) = text_eq s t
component_eq _ _ = false

unfoldable pub is_prefix : List Component → List Component → Bool
unfolding component_eq
is_prefix [] ys = true
is_prefix (x ∷ xs) [] = false
is_prefix (x ∷ xs) (y ∷ ys) = component_eq x y && is_prefix xs ys

-- `Path::starts_with`: whole components.
unfoldable pub path_starts_with : Text → Text → Bool
unfolding is_prefix components
path_starts_with p base = is_prefix (components base) (components p)

unfoldable pub components_eq : List Component → List Component → Bool
unfolding component_eq
components_eq [] [] = true
components_eq (x ∷ xs) (y ∷ ys) = component_eq x y && components_eq xs ys
components_eq _ _ = false

-- `Path: Eq`, which compares components: `a//b` is `a/b`.
unfoldable pub path_eq : Text → Text → Bool
unfolding components_eq
path_eq p q = components_eq (components p) (components q)

-- A path of given components, as Rust prints it.
abbrev pub component_text : Component → Text
component_text root_dir = []
component_text cur_dir = codes "."
component_text parent_dir = codes ".."
component_text (normal s) = s

unfoldable pub path_of : List Component → Text
unfolding component_eq
path_of [] = []
path_of (c ∷ []) = if component_eq c root_dir then codes "/" else component_text c
path_of (c ∷ d ∷ cs) = component_text c ++ b'/' ∷ path_of (d ∷ cs)

unfoldable pub last_component : List Component → Option (List Component × Component)
last_component [] = none
last_component (c ∷ cs) = elim (last_component cs) [
  | none ↦ some ([], c)
  | some (before, last) ↦ some (c ∷ before, last)
]

-- `Path::parent`, up to separators that its components skip.
unfoldable pub parent : Text → Option Text
unfolding last_component components path_of component_eq
parent p = elim (last_component (components p)) [
  | none ↦ none
  | some (before, last) ↦ if component_eq last root_dir then none else some (path_of before)
]

abbrev pub name_of : Component → Option Text
name_of (normal s) = some s
name_of c = none

-- `Path::file_name`
unfoldable pub file_name : Text → Option Text
unfolding last_component components
file_name p = elim (last_component (components p)) [
  | none ↦ none
  | some (before, last) ↦ name_of last
]

-- `Path::with_file_name`
unfoldable pub with_file_name : Text → Text → Text
unfolding parent file_name join
with_file_name p name = elim (file_name p) [
  | none ↦ join p name
  | some old ↦ elim (parent p) [ none ↦ name | some dir ↦ join dir name ]
]
