-- ===== src/Peer/Project/AssetPath.antt =====
-- What `checked_asset_path` has checked.
use feather_mesh.Prelude.{
  ◌≡◌, refl, arith, ◌∙◌, sym, ap, subst, true, List, [], ◌∷◌, ◌++◌, map, All, Text, text_eq_iff,
  Result, ok, err, guard, >>-eq-ok, >>=-eq-ok, guard-eq-ok, ok-injective,
}
use feather_mesh.Std.FilePath.{
  Component, root_dir, cur_dir, parent_dir, normal, components, component_eq, is_prefix, join,
  path_starts_with,
}
use feather_mesh.Peer.Error.{IoKind, PeerError, peer_unavailable, policy}
use feather_mesh.Peer.Token.{validate_relative_path, is_normal}
use feather_mesh.Peer.Token.RelativePaths.{relative_path-below}
use feather_mesh.Peer.Env.{Fs, Metadata, lift_io, or_error}
use feather_mesh.Peer.Project.{checked_asset_path}

all_names :
    (cs : List Component)
    → All (λ c. is_normal c ≡ true) cs
    → (names : List Text) × (cs ≡ map normal names)
unfolding is_normal
all_names [] h = ([], refl)
all_names (normal s ∷ cs) h =
    let (names, e) = all_names cs h.1 in (s ∷ names, ap (λ t. normal s ∷ t) e)
all_names (root_dir ∷ cs) h = cc h.0
all_names (cur_dir ∷ cs) h = cc h.0
all_names (parent_dir ∷ cs) h = cc h.0

component_eq-equal : (c d : Component) → component_eq c d ≡ true → c ≡ d
unfolding component_eq
component_eq-equal root_dir root_dir h = refl
component_eq-equal cur_dir cur_dir h = refl
component_eq-equal parent_dir parent_dir h = refl
component_eq-equal (normal s) (normal t) h = ap normal ((text_eq_iff s t).0 h)
component_eq-equal _ _ h = cc h

is_prefix-rest :
    (xs ys : List Component) → is_prefix xs ys ≡ true → (rest : List Component) × (ys ≡ xs ++ rest)
unfolding is_prefix
is_prefix-rest [] ys h = (ys, refl)
is_prefix-rest (x ∷ xs) [] h = cc h
is_prefix-rest (x ∷ xs) (y ∷ ys) h =
    let (rest, e) = is_prefix-rest xs ys (ground (arith, h)) in
    let same : y ≡ x = sym (component_eq-equal x y (ground (arith, h))) in (rest, rw (same, e))

pub or_error-eq-ok {ℓ} :
    {A : Type ℓ} (r : Result IoKind A) (e : PeerError) (a : A) → or_error r e ≡ ok a → r ≡ ok a
or_error-eq-ok (ok b) e a h = cc
or_error-eq-ok (err k) e a h = cc

pub lift_io-eq-ok {ℓ} : {A : Type ℓ} (r : Result IoKind A) (a : A) → lift_io r ≡ ok a → r ≡ ok a
lift_io-eq-ok (ok b) a h = cc
lift_io-eq-ok (err k) a h = cc

module _ (fs : Fs) (displayed_root canonical_root relative : Text) where
  pub record IsChecked (displayed canonical : Text) : Type 0 where
    pub validated : validate_relative_path relative "asset.path" ≡ ok tt
    pub shown : displayed ≡ join displayed_root relative
    pub resolved : fs.canonicalize (join displayed_root relative) ≡ ok canonical
    pub contained : path_starts_with canonical canonical_root ≡ true
    pub metadata : Metadata
    pub found : fs.metadata canonical ≡ ok metadata
    pub regular : metadata.is_file ≡ true

  pub accepted-IsChecked :
      (displayed canonical : Text)
      → checked_asset_path fs displayed_root canonical_root relative ≡ ok (displayed, canonical)
      → IsChecked displayed canonical
  unfolding checked_asset_path
  accepted-IsChecked displayed canonical h =
      let answer : Text × Text = (displayed, canonical) in
      let shown = join displayed_root relative in
      let (a, h1) = >>-eq-ok (validate_relative_path relative "asset.path") _ answer h in
      let (c, b, h2) = >>=-eq-ok (or_error (fs.canonicalize shown) peer_unavailable) _ answer h1 in
      let (d, h3) = >>-eq-ok (guard (path_starts_with c canonical_root) policy) _ answer h2 in
      let (m, e, h4) = >>=-eq-ok (lift_io (fs.metadata c)) _ answer h3 in
      let (f, h5) = >>-eq-ok (guard m.is_file policy) _ answer h4 in
      let same = ok-injective h5 in
      let same_canonical : c ≡ canonical = ap (λ (t : Text × Text). t.1) same in
      record {
        validated = a;
        shown = sym (ap (λ (t : Text × Text). t.0) same);
        resolved =
            subst (λ t. fs.canonicalize shown ≡ ok t) same_canonical
              (or_error-eq-ok (fs.canonicalize shown) peer_unavailable c b);
        contained =
            subst (λ t. path_starts_with t canonical_root ≡ true) same_canonical
              (guard-eq-ok (path_starts_with c canonical_root) policy d);
        metadata = m;
        found =
            subst (λ t. fs.metadata t ≡ ok m) same_canonical (lift_io-eq-ok (fs.metadata c) m e);
        regular = guard-eq-ok m.is_file policy f;
      }

  pub IsChecked-accepted :
      (displayed canonical : Text)
      → IsChecked displayed canonical
      → checked_asset_path fs displayed_root canonical_root relative ≡ ok (displayed, canonical)
  unfolding checked_asset_path
  IsChecked-accepted displayed canonical c =
      rw (c.validated, c.resolved, c.contained, c.found, c.regular, c.shown)

  -- Only ordinary names lead from the displayed root to the displayed path and from the canonical root to
  -- the canonical path, which is the displayed one's, and a regular file is there.
  pub record IsInside (displayed canonical : Text) : Type 0 where
    pub names : List Text
    pub below : components displayed ≡ components displayed_root ++ map normal names
    pub resolved : fs.canonicalize displayed ≡ ok canonical
    pub rest : List Component
    pub inside : components canonical ≡ components canonical_root ++ rest
    pub metadata : Metadata
    pub found : fs.metadata canonical ≡ ok metadata
    pub regular : metadata.is_file ≡ true

  -- An accepted asset path leads from the displayed root through ordinary names only, its canonical path
  -- lies below the canonical root, component by component, and a regular file is there.
  pub checked_asset_path-IsInside :
      (displayed canonical : Text)
      → checked_asset_path fs displayed_root canonical_root relative ≡ ok (displayed, canonical)
      → IsInside displayed canonical
  unfolding path_starts_with
  checked_asset_path-IsInside displayed canonical h =
      let c = accepted-IsChecked displayed canonical h in
      let (joined, normals, _) =
        relative_path-below displayed_root relative "asset.path" c.validated in
      let (names, named) = all_names (components relative) normals in
      let (rest, inside) =
        is_prefix-rest (components canonical_root) (components canonical) c.contained in
      record {
        names = names;
        below = ap components c.shown ∙ joined ∙ ap (λ t. components displayed_root ++ t) named;
        resolved = ap fs.canonicalize c.shown ∙ c.resolved;
        rest = rest;
        inside = inside;
        metadata = c.metadata;
        found = c.found;
        regular = c.regular;
      }
