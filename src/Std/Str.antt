-- ===== src/Std/Str.antt =====
-- Methods of `str`.
pub mod Laws
use feather_mesh.Prelude.{
  ℕ, ◌≡◌, refl, Bool, true, false, ◌&&◌, ◌||◌, Option, none, some, List, [], ◌∷◌, ◌++◌, arith, ◌==◌,
  if◌then◌else◌, Text, starts_with, is_empty, all, ◌≢◌, any, map, ap, Bool-cases, inl, inr,
}
use feather_mesh.Std.Char.{is_whitespace, to_ascii_lowercase}

unfoldable pub trim_start : Text → Text
trim_start [] = []
trim_start (c ∷ s) = let rest = trim_start s in if is_whitespace c then rest else c ∷ s

unfoldable pub trim_end : Text → Text
trim_end [] = []
trim_end (c ∷ s) =
    let rest = trim_end s in if is_whitespace c && is_empty rest then [] else c ∷ rest

unfoldable pub trim : Text → Text
unfolding trim_start trim_end
trim s = trim_end (trim_start s)

-- `value.trim().is_empty()`
abbrev pub is_blank : Text → Bool
is_blank s = is_empty (trim s)

unfoldable pub lowercase : Text → Text
unfolding to_ascii_lowercase
lowercase s = map to_ascii_lowercase s

unfoldable pub prepend : ℕ → Option (Text × Text) → Option (Text × Text)
prepend x none = none
prepend x (some (a, b)) = some (x ∷ a, b)

unfoldable pub split_once : ℕ → Text → Option (Text × Text)
unfolding prepend
split_once c [] = none
split_once c (x ∷ s) = let rest = split_once c s in if x == c then some ([], s) else prepend x rest

unfoldable pub strip_prefix : Text → Text → Option Text
strip_prefix [] s = some s
strip_prefix (p ∷ ps) [] = none
strip_prefix (p ∷ ps) (c ∷ s) = if p == c then strip_prefix ps s else none

-- `str::contains` of one character.
abbrev pub contains_char : ℕ → Text → Bool
contains_char c s = any (λ x. x == c) s

-- `str::split(c)`: one piece more than there are separators.
unfoldable pub cons_first : ℕ → List Text → List Text
cons_first x [] = (x ∷ []) ∷ []
cons_first x (p ∷ ps) = (x ∷ p) ∷ ps

unfoldable pub split_on : ℕ → Text → List Text
unfolding cons_first
split_on c [] = [] ∷ []
split_on c (x ∷ s) = let rest = split_on c s in if x == c then [] ∷ rest else cons_first x rest

-- `str::contains`
unfoldable pub contains_text : Text → Text → Bool
contains_text pat [] = is_empty pat
contains_text pat (c ∷ s) = starts_with pat (c ∷ s) || contains_text pat s
