-- ===== src/Catalog/Cursors.antt =====
-- `decode_cursor` of catalog_service.rs on the cursors that `encode_cursor` writes.
use feather_mesh.Prelude.{
  ℕ, suc, ◌+◌, ◌*◌, ◌/◌, ◌%◌, ◌≤◌, ◌<◌, ◌==◌, ◌≡◌, refl, true, some, List, [], ◌∷◌, ◌++◌, arith,
  Text, codes, All, length, leb, ok,
}
use feather_mesh.Std.Hex.{from_hex-lower, byte-digits, lower_digit}
use feather_mesh.Std.Str.{strip_prefix}
use feather_mesh.Agent.Json.{byte_length, len_utf8}
use feather_mesh.Stac.Http.{hex_encode}
use feather_mesh.Catalog.{CatalogCursor, CatalogCodec}
use feather_mesh.Catalog.Query.{
  cons_digit, hex_bytes, is_ascii, encode_catalog_cursor, decode_catalog_cursor,
}

-- serde_json reads the cursor back, and its bytes are few enough for a cursor that is accepted.
pub record IsReadBack (codec : CatalogCodec) (c : CatalogCursor) : Type 0 where
  pub decoded : codec.decode_json (codec.encode_json c) ≡ some c
  pub bytes : All (λ b. b < 256) (codec.encode_json c)
  pub short : length (codec.encode_json c) ≤ 2046

hex_bytes-encode : (s : List ℕ) → All (λ b. b < 256) s → hex_bytes (hex_encode s) ≡ some s
unfolding hex_bytes hex_encode cons_digit
hex_bytes-encode [] h = refl
hex_bytes-encode (c ∷ s) h = rw (from_hex-lower c h.0, hex_bytes-encode s h.1) refl

lower_digit-ascii : (d : ℕ) → d < 16 → lower_digit d < 128
unfolding lower_digit
lower_digit-ascii d h = ground arith

-- The hexadecimal text of bytes: ASCII, two characters for each.
record IsHexText (n : ℕ) (s : Text) : Type 0 where
  ascii : is_ascii s ≡ true
  bytes : byte_length s ≡ 2 * n

two_digits :
    (a b n : ℕ) (s : Text) → a < 128 → b < 128 → IsHexText n s → IsHexText (suc n) (a ∷ b ∷ s)
unfolding byte_length len_utf8
two_digits a b n s p q h = record {
  ascii = ground (arith, h.ascii);
  bytes = ground (arith, h.bytes);
}

hex_encode-IsHexText : (s : List ℕ) → All (λ b. b < 256) s → IsHexText (length s) (hex_encode s)
unfolding hex_encode byte_length
hex_encode-IsHexText [] h = record { ascii = refl; bytes = refl }
hex_encode-IsHexText (c ∷ s) h =
    let (p, q, e) = byte-digits c h.0 in
    two_digits (lower_digit (c / 16)) (lower_digit (c % 16)) (length s) (hex_encode s)
      (lower_digit-ascii (c / 16) p) (lower_digit-ascii (c % 16) q) (hex_encode-IsHexText s h.1)

even_bytes : (n m : ℕ) → m ≡ 2 * n → (m % 2 == 0) ≡ true
even_bytes n m e = ground arith

short_cursor : (n m : ℕ) → m ≡ 2 * n → n ≤ 2046 → leb (3 + m) 4096 ≡ true
short_cursor n m e h = ground arith

byte_length-prefix : (s : Text) → byte_length (codes "v1:" ++ s) ≡ 3 + byte_length s
unfolding byte_length len_utf8
byte_length-prefix s = omega arith

decode_text :
    (codec : CatalogCodec) (c : CatalogCursor) (s bytes : List ℕ)
    → leb (3 + byte_length s) 4096 ≡ true
    → is_ascii s ≡ true
    → (byte_length s % 2 == 0) ≡ true
    → hex_bytes s ≡ some bytes
    → codec.decode_json bytes ≡ some c
    → decode_catalog_cursor codec (codes "v1:" ++ s) ≡ ok c
unfolding decode_catalog_cursor strip_prefix
decode_text codec c s bytes short ascii even hex decoded =
    rw (byte_length-prefix s, short, ascii, even, hex, decoded) refl

pub decode-encode_catalog_cursor :
    (codec : CatalogCodec) (c : CatalogCursor)
    → IsReadBack codec c
    → decode_catalog_cursor codec (encode_catalog_cursor codec c) ≡ ok c
unfolding encode_catalog_cursor
decode-encode_catalog_cursor codec c r =
    let s = hex_encode (codec.encode_json c) in
    let n = length (codec.encode_json c) in
    let h = hex_encode-IsHexText (codec.encode_json c) r.bytes in
    decode_text codec c s (codec.encode_json c) (short_cursor n (byte_length s) h.bytes r.short)
      h.ascii (even_bytes n (byte_length s) h.bytes)
      (hex_bytes-encode (codec.encode_json c) r.bytes) r.decoded
