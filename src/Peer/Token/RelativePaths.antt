-- ===== src/Peer/Token/RelativePaths.antt =====
-- `validate_relative_path`, and joining what it accepts to a directory.
use feather_mesh.Prelude.{
  String, ◌≡◌, true, false, not, ◌||◌, List, [], ◌∷◌, ◌++◌, arith, Text, is_empty, All, ok, guard,
  for_each-eq-ok, >>-eq-ok, guard-eq-ok, inl, inr, subst,
}
use feather_mesh.Std.FilePath.{Component, components, is_absolute, join, path_starts_with}
use feather_mesh.Std.FilePath.Components.{components-join, components-relative, is_prefix-append}
use feather_mesh.Peer.Error.{validation}
use feather_mesh.Peer.Token.{validate_relative_path, is_normal}

abbrev pub AllNormal : Text → Type 0
AllNormal path = All (λ c. is_normal c ≡ true) (components path)

All-guard :
    (field : String) (cs : List Component)
    → All (λ c. guard (is_normal c) (validation field) ≡ ok tt) cs
    → All (λ c. is_normal c ≡ true) cs
All-guard field [] h = tt
All-guard field (c ∷ cs) h = (guard-eq-ok _ _ h.0, All-guard field cs h.1)

relative_path-shape :
    (path : Text) (field : String)
    → validate_relative_path path field ≡ ok tt
    → (is_empty path ≡ false) × (is_absolute path ≡ false) × AllNormal path
unfolding validate_relative_path
relative_path-shape path field h =
    let relative = not (is_empty path || is_absolute path) in
    let (p, q) = >>-eq-ok (guard relative (validation field)) _ tt h in
    let g : relative ≡ true = guard-eq-ok relative (validation field) p in
    (ground arith, ground arith, All-guard field _ (for_each-eq-ok _ (components path) q))

join-normal :
    (root path : Text)
    → is_absolute path ≡ false
    → AllNormal path
    → components (join root path) ≡ components root ++ components path
unfolding is_normal
join-normal root path relative normals = elim (components-relative path relative) [
  | inl e ↦ components-join root path relative e
  | inr (cs, e) ↦ let first = subst (All (λ c. is_normal c ≡ true)) e normals in cc (first.0)
]

pub relative_path-below :
    (root path : Text) (field : String)
    → validate_relative_path path field ≡ ok tt
    → (components (join root path) ≡ components root ++ components path)
      × AllNormal path
      × (path_starts_with (join root path) root ≡ true)
relative_path-below root path field h =
    let (_, relative, normals) = relative_path-shape path field h in
    let joined = join-normal root path relative normals in
    let below = is_prefix-append (components root) (components path) in
    (joined, normals, unfold path_starts_with in rw joined below)
