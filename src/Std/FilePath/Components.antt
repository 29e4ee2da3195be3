-- ===== src/Std/FilePath/Components.antt =====
-- The components of a joined path.
use feather_mesh.Prelude.{
  ◌≡◌, refl, sym, subst, ap, true, false, List, [], ◌∷◌, ◌++◌, arith, ◌==◌, Text, text_eq,
  text_eq_refl, ◌⊎◌, codes, is_empty, append_assoc, append-nil, Bool-cases, inl, inr,
}
use feather_mesh.Std.Str.{split_on}
use feather_mesh.Std.Str.Laws.{split_on-append, split_on-cons}
use feather_mesh.Std.FilePath.{
  Component, root_dir, cur_dir, parent_dir, normal, is_absolute, piece, body, relative_components,
  components, ends_with_sep, join, component_eq, is_prefix,
}

body-append : (xs ys : List Text) → body (xs ++ ys) ≡ body xs ++ body ys
unfolding body
body-append [] ys = refl
body-append (x ∷ xs) ys = rw (body-append xs ys) (sym (append_assoc (piece x) (body xs) (body ys)))

relative_components-append :
    (x : Text) (xs ys : List Text)
    → relative_components ((x ∷ xs) ++ ys) ≡ relative_components (x ∷ xs) ++ body ys
unfolding relative_components
relative_components-append x xs ys = elim (Bool-cases (text_eq x (codes "."))) [
  | inl e ↦ rw e (ap (λ t. cur_dir ∷ t) (body-append xs ys))
  | inr e ↦ rw e (body-append (x ∷ xs) ys)
]

-- A path that is cut at a separator.
components-cut :
    (root p : Text)
    → is_empty root ≡ false
    → components (root ++ b'/' ∷ p) ≡ components root ++ body (split_on b'/' p)
unfolding components
components-cut [] p h = cc
components-cut (c ∷ r) p h = elim (Bool-cases (c == b'/')) [
  | inl e ↦
      rw (e, split_on-append b'/' r p)
        (ap (λ t. root_dir ∷ t) (body-append (split_on b'/' r) (split_on b'/' p)))
  | inr e ↦
      let (x, xs, q) = split_on-cons b'/' (c ∷ r) in
      rw (e, split_on-append b'/' (c ∷ r) p, q) (relative_components-append x xs (split_on b'/' p))
]

ends_with_sep-split : (p : Text) → ends_with_sep p ≡ true → (r : Text) × (p ≡ r ++ b'/' ∷ [])
unfolding ends_with_sep
ends_with_sep-split [] h = cc
ends_with_sep-split (c ∷ []) h = ([], ground arith)
ends_with_sep-split (c ∷ d ∷ p) h =
    let (r, e) = ends_with_sep-split (d ∷ p) h in (c ∷ r, ap (λ t. c ∷ t) e)

components-append_dir :
    (r p : Text)
    → components ((r ++ b'/' ∷ []) ++ p) ≡ components (r ++ b'/' ∷ []) ++ body (split_on b'/' p)
components-append_dir [] p = unfold components body piece split_on in refl
components-append_dir (c ∷ r) p =
    rw
      (
        append_assoc (c ∷ r) (b'/' ∷ []) p,
        components-cut (c ∷ r) p refl,
        components-cut (c ∷ r) [] refl,
      )
      (unfold body piece split_on in
        ap (λ t. t ++ body (split_on b'/' p)) (sym (append-nil (components (c ∷ r)))))

-- Joining adds the components of a relative path that does not begin with `.`.
pub components-join :
    (root p : Text)
    → is_absolute p ≡ false
    → components p ≡ body (split_on b'/' p)
    → components (join root p) ≡ components root ++ components p
unfolding join
components-join [] p h e = rw h (unfold components in refl)
components-join (c ∷ root) p h e = elim (Bool-cases (ends_with_sep (c ∷ root))) [
  | inl sep ↦
      let (r, q) = ends_with_sep-split (c ∷ root) sep in
      rw (h, sep, e)
        (subst (λ t. components (t ++ p) ≡ components t ++ body (split_on b'/' p)) (sym q)
          (components-append_dir r p))
  | inr sep ↦ rw (h, sep, e) (components-cut (c ∷ root) p refl)
]

component_eq_refl : (c : Component) → component_eq c c ≡ true
unfolding component_eq
component_eq_refl root_dir = refl
component_eq_refl cur_dir = refl
component_eq_refl parent_dir = refl
component_eq_refl (normal s) = text_eq_refl s

pub is_prefix-append : (xs ys : List Component) → is_prefix xs (xs ++ ys) ≡ true
unfolding is_prefix
is_prefix-append [] ys = refl
is_prefix-append (x ∷ xs) ys = rw (component_eq_refl x) (is_prefix-append xs ys)

-- A relative path whose first component is an ordinary name has no leading `.`.
pub components-relative :
    (p : Text)
    → is_absolute p ≡ false
    → (components p ≡ body (split_on b'/' p))
      ⊎ ((cs : List Component) × (components p ≡ cur_dir ∷ cs))
unfolding components is_absolute relative_components
components-relative [] h = inl (unfold body piece split_on in refl)
components-relative (c ∷ p) h =
    let (x, xs, q) = split_on-cons b'/' (c ∷ p) in
    elim (Bool-cases (text_eq x (codes "."))) [
      | inl e ↦ inr (body xs, rw (h, q, e))
      | inr e ↦ inl (rw (h, q, e))
    ]
