-- ===== src/Std/Hex.antt =====
-- Hexadecimal digits: `{:02x}`, `{:02X}` and `u8::from_str_radix(_, 16)` of two characters.
use feather_mesh.Prelude.{
  ℕ, ◌+◌, ◌-◌, ◌*◌, ◌/◌, ◌%◌, ◌≡◌, ◌<◌, ◌&&◌, Option, none, some, leb, ltb, ◌==◌, if◌then◌else◌,
  arith,
}

unfoldable pub hex_digit : ℕ → Option ℕ
hex_digit c =
    if leb b'0' c && leb c b'9'
    then some (c - b'0')
    else if leb b'a' c && leb c b'f'
    then some (c - b'a' + 10)
    else if leb b'A' c && leb c b'F'
    then some (c - b'A' + 10)
    else none

unfoldable pub lower_digit : ℕ → ℕ
lower_digit d = if ltb d 10 then b'0' + d else b'a' + (d - 10)

unfoldable pub upper_digit : ℕ → ℕ
upper_digit d = if ltb d 10 then b'0' + d else b'A' + (d - 10)

unfoldable pub byte_of : Option ℕ → Option ℕ → Option ℕ
byte_of (some h) (some l) = some (h * 16 + l)
byte_of (some h) none = none
byte_of none l = none

-- `u8::from_str_radix` of the characters `a` and `b`, which takes a leading `+`.
unfoldable pub from_hex : ℕ → ℕ → Option ℕ
unfolding byte_of hex_digit
from_hex a b = if a == b'+' then hex_digit b else byte_of (hex_digit a) (hex_digit b)

pub hex_digit-lower : (d : ℕ) → d < 16 → hex_digit (lower_digit d) ≡ some d
unfolding hex_digit lower_digit
hex_digit-lower d h = ground arith

pub hex_digit-upper : (d : ℕ) → d < 16 → hex_digit (upper_digit d) ≡ some d
unfolding hex_digit upper_digit
hex_digit-upper d h = ground arith

pub byte-digits : (c : ℕ) → c < 256 → (c / 16 < 16) × (c % 16 < 16) × (c / 16 * 16 + c % 16 ≡ c)
byte-digits c h = (omega arith, omega arith, omega arith)

pub from_hex-lower :
    (c : ℕ) → c < 256 → from_hex (lower_digit (c / 16)) (lower_digit (c % 16)) ≡ some c
unfolding from_hex lower_digit byte_of hex_digit
from_hex-lower c h =
    let (p, q, e) = byte-digits c h in
    ground (arith, hex_digit-lower (c / 16) p, hex_digit-lower (c % 16) q, e)

pub from_hex-upper :
    (c : ℕ) → c < 256 → from_hex (upper_digit (c / 16)) (upper_digit (c % 16)) ≡ some c
unfolding from_hex upper_digit byte_of hex_digit
from_hex-upper c h =
    let (p, q, e) = byte-digits c h in
    ground (arith, hex_digit-upper (c / 16) p, hex_digit-upper (c % 16) q, e)
