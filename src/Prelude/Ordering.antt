-- ===== src/Prelude/Ordering.antt =====
-- The order of texts, `Ord for str`: by code points, which is the order of the UTF-8 bytes.
use mathlib.Core.Path.{◌≡◌, refl}
use mathlib.Core.Bool.{Bool, true, false, ◌&&◌, ◌||◌}
use mathlib.Core.List.{[], ◌∷◌}
use native.Mathlib.Omega.{arith}
use feather_mesh.Prelude.Tests.{ltb, ◌==◌}
use feather_mesh.Prelude.Texts.{Text, text_eq}

unfoldable pub text_less : Text → Text → Bool
text_less s [] = false
text_less [] (d ∷ t) = true
text_less (c ∷ s) (d ∷ t) = ltb c d || c == d && text_less s t

pub text_less_irrefl : (s : Text) → text_less s s ≡ false
unfolding text_less
text_less_irrefl [] = refl
text_less_irrefl (c ∷ s) = ground (arith, text_less_irrefl s)

pub text_less_trans :
    (s t u : Text) → text_less s t ≡ true → text_less t u ≡ true → text_less s u ≡ true
unfolding text_less
text_less_trans s [] u h k = cc
text_less_trans s (d ∷ t) [] h k = cc
text_less_trans [] (d ∷ t) (e ∷ u) h k = refl
text_less_trans (c ∷ s) (d ∷ t) (e ∷ u) h k = ground (arith, text_less_trans s t u)

pub text_less-total :
    (s t : Text) → text_eq s t ≡ false → text_less s t ≡ false → text_less t s ≡ true
unfolding text_less text_eq
text_less-total [] [] h k = cc
text_less-total [] (d ∷ t) h k = cc
text_less-total (c ∷ s) [] h k = refl
text_less-total (c ∷ s) (d ∷ t) h k = ground (arith, text_less-total s t)
