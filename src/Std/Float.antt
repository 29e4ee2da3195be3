-- ===== src/Std/Float.antt =====
-- Comparison of `f64` values, given by their IEEE 754 bit patterns below 2^64.
use feather_mesh.Prelude.{ℕ, ◌%◌, ◌^◌, Bool, true, false, ◌||◌, ltb, leb, if◌then◌else◌}

unfoldable pub is_negative : ℕ → Bool
is_negative x = leb (2 ^ 63) x

unfoldable pub magnitude : ℕ → ℕ
magnitude x = x % 2 ^ 63

unfoldable pub is_nan : ℕ → Bool
unfolding magnitude
is_nan x = ltb 0x7ff0000000000000 (magnitude x)

-- `a > b`: false when either is NaN, and the two zeros are equal.
unfoldable pub f64_gt : ℕ → ℕ → Bool
unfolding is_nan is_negative magnitude
f64_gt a b =
    if is_nan a || is_nan b
    then false
    else if is_negative a
    then (if is_negative b then ltb (magnitude a) (magnitude b) else false)
    else (if is_negative b
        then ltb 0 (magnitude a) || ltb 0 (magnitude b)
        else ltb (magnitude b) (magnitude a))

-- `a <= b`
unfoldable pub f64_le : ℕ → ℕ → Bool
unfolding is_nan f64_gt
f64_le a b = if is_nan a || is_nan b then false else (if f64_gt a b then false else true)
