-- ===== src/Std/Str/Laws.antt =====
-- How splitting, stripping and trimming undo concatenation.
use feather_mesh.Prelude.{
  ℕ, ◌≡◌, refl, false, some, List, [], ◌∷◌, ◌++◌, arith, ◌==◌, Text, Bool-cases, Option-cases, inl,
  inr,
}
use feather_mesh.Std.Char.{is_whitespace}
use feather_mesh.Std.Str.{
  trim, split_once, strip_prefix, contains_char, is_blank, split_on, prepend,
}

pub strip_prefix-append : (p s : Text) → strip_prefix p (p ++ s) ≡ some s
unfolding strip_prefix
strip_prefix-append [] s = refl
strip_prefix-append (c ∷ p) s = ground (arith, strip_prefix-append p s)

pub strip_prefix-some : (p v s : Text) → strip_prefix p v ≡ some s → v ≡ p ++ s
unfolding strip_prefix
strip_prefix-some [] v s h = cc
strip_prefix-some (c ∷ p) [] s h = cc
strip_prefix-some (c ∷ p) (d ∷ v) s h = ground (arith, strip_prefix-some p v s)

pub split_once-append :
    (c : ℕ) (a b : Text) → contains_char c a ≡ false → split_once c (a ++ c ∷ b) ≡ some (a, b)
unfolding split_once
split_once-append c [] b h = ground arith
split_once-append c (x ∷ a) b h = ground (arith, split_once-append c a b)

split_once-later :
    (c x : ℕ) (v a b : Text)
    → (x == c) ≡ false
    → prepend x (split_once c v) ≡ some (a, b)
    → ((a' b' : Text)
        → split_once c v ≡ some (a', b')
        → (v ≡ a' ++ c ∷ b') × (contains_char c a' ≡ false))
    → (x ∷ v ≡ a ++ c ∷ b) × (contains_char c a ≡ false)
unfolding prepend
split_once-later c x v a b e h ih = elim (Option-cases (split_once c v)) [
  | inl n ↦ cc (rw n at h)
  | inr (s, n) ↦ ground (arith, ih s.0 s.1, rw n at h)
]

pub split_once-some :
    (c : ℕ) (v a b : Text)
    → split_once c v ≡ some (a, b)
    → (v ≡ a ++ c ∷ b) × (contains_char c a ≡ false)
unfolding split_once
split_once-some c [] a b h = cc
split_once-some c (x ∷ v) a b h = elim (Bool-cases (x == c)) [
  | inl e ↦ ground arith
  | inr e ↦ split_once-later c x v a b e (rw e at h) (split_once-some c v)
]

pub is_blank-cons : (c : ℕ) (s : Text) → is_whitespace c ≡ false → is_blank (c ∷ s) ≡ false
unfolding trim
is_blank-cons c s h = ground arith

pub split_on-cons : (c : ℕ) (s : Text) → (p : Text) × (ps : List Text) × (split_on c s ≡ p ∷ ps)
unfolding split_on
split_on-cons c [] = ([], [], refl)
split_on-cons c (x ∷ s) = elim (Bool-cases (x == c)) [
  | inl e ↦ ([], split_on c s, rw e)
  | inr e ↦ let (p, ps, q) = split_on-cons c s in (x ∷ p, ps, rw (e, q))
]

-- A separator ends a piece, whatever stands on its sides.
pub split_on-append : (c : ℕ) (s t : Text) → split_on c (s ++ c ∷ t) ≡ split_on c s ++ split_on c t
unfolding split_on
split_on-append c [] t = ground arith
split_on-append c (x ∷ s) t = elim (Bool-cases (x == c)) [
  | inl e ↦ rw (e, split_on-append c s t)
  | inr e ↦ let (p, ps, q) = split_on-cons c s in rw (e, split_on-append c s t, q)
]
