-- ===== src/Std/Char.antt =====
-- `char` and `u8` tests of the standard library, on code points.
use feather_mesh.Prelude.{ℕ, ◌+◌, Bool, ◌&&◌, ◌||◌, leb, ◌==◌, if◌then◌else◌}

unfoldable pub is_ascii_digit : ℕ → Bool
is_ascii_digit c = leb b'0' c && leb c b'9'

unfoldable pub is_ascii_alphanumeric : ℕ → Bool
unfolding is_ascii_digit
is_ascii_alphanumeric c = is_ascii_digit c || leb b'a' c && leb c b'z' || leb b'A' c && leb c b'Z'

-- The code points with the Unicode property White_Space.
unfoldable pub is_whitespace : ℕ → Bool
is_whitespace c =
    leb 0x9 c && leb c 0xd
    || c == 0x20
    || c == 0x85
    || c == 0xa0
    || c == 0x1680
    || leb 0x2000 c && leb c 0x200a
    || c == 0x2028
    || c == 0x2029
    || c == 0x202f
    || c == 0x205f
    || c == 0x3000

unfoldable pub to_ascii_lowercase : ℕ → ℕ
to_ascii_lowercase c = if leb b'A' c && leb c b'Z' then c + 32 else c
