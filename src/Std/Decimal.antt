-- ===== src/Std/Decimal.antt =====
-- `{}` of an unsigned integer, and `parse::<usize>()`.
use feather_mesh.Prelude.{
  Option, none, some, ◌==◌, leb, ◌&&◌, ◌*◌, ◌-◌, ◌^◌, ℕ, zero, suc, ◌+◌, ◌/◌, ◌%◌, [], ◌∷◌, Text,
  ltb, if◌then◌else◌,
}

-- The fuel is the number itself, which is above its count of digits.
unfoldable pub decimal_digits : ℕ → ℕ → Text → Text
decimal_digits zero n acc = acc
decimal_digits (suc f) n acc =
    let rest = decimal_digits f (n / 10) ((48 + n % 10) ∷ acc) in
    if ltb n 10 then (48 + n) ∷ acc else rest

unfoldable pub decimal : ℕ → Text
unfolding decimal_digits
decimal n = decimal_digits (suc n) n []

-- The digits of a `usize` of 64 bits, after the number that is read so far.
unfoldable pub parse_digits : ℕ → Text → Option ℕ
parse_digits n [] = some n
parse_digits n (c ∷ s) =
    let next = n * 10 + (c - b'0') in
    let rest = parse_digits next s in
    if leb b'0' c && leb c b'9' && ltb next (2 ^ 64) then rest else none

-- `str::parse::<usize>`, which takes a leading `+`.
unfoldable pub parse_usize : Text → Option ℕ
unfolding parse_digits
parse_usize [] = none
parse_usize (c ∷ []) = if c == b'+' then none else parse_digits 0 (c ∷ [])
parse_usize (c ∷ d ∷ s) = if c == b'+' then parse_digits 0 (d ∷ s) else parse_digits 0 (c ∷ d ∷ s)
