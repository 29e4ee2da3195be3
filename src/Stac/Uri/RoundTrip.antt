-- ===== src/Stac/Uri/RoundTrip.antt =====
-- `path_from_file_uri` on what `file_uri` encodes.
use feather_mesh.Prelude.{
  ℕ, ◌<◌, ◌/◌, ◌%◌, ◌≡◌, refl, true, false, List, [], ◌∷◌, arith, All, ok, Bool-cases, inl, inr,
  ◌==◌,
}
use feather_mesh.Std.Char.{is_ascii_alphanumeric, is_ascii_digit}
use feather_mesh.Std.Str.{strip_prefix}
use feather_mesh.Std.FilePath.{is_absolute}
use feather_mesh.Std.Hex.{hex_digit-upper, byte-digits}
use feather_mesh.Std.Utf8.{is_utf8}
use feather_mesh.Stac.Uri.{
  is_plain, encode_uri, decode_uri, escaped_byte, file_uri, path_from_file_uri,
}

plain-not-percent : (c : ℕ) → is_plain c ≡ true → (c == b'%') ≡ false
unfolding is_plain is_ascii_alphanumeric is_ascii_digit
plain-not-percent c h = ground arith

decode_uri-encode : (s : List ℕ) → All (λ c. c < 256) s → decode_uri 0 (encode_uri s) ≡ ok s
unfolding encode_uri decode_uri escaped_byte
decode_uri-encode [] h = refl
decode_uri-encode (c ∷ s) h = elim (Bool-cases (is_plain c)) [
  | inl plain ↦ rw (plain, plain-not-percent c plain, decode_uri-encode s h.1)
  | inr other ↦
      let (p, q, e) = byte-digits c h.0 in
      rw (other, hex_digit-upper (c / 16) p, hex_digit-upper (c % 16) q, decode_uri-encode s h.1, e)
]

-- The path of the file URI of an absolute path in UTF-8 is that path.
pub path_from_file_uri-file_uri :
    (path : List ℕ)
    → All (λ c. c < 256) path
    → is_utf8 path ≡ true
    → is_absolute path ≡ true
    → path_from_file_uri (file_uri path) ≡ ok path
unfolding path_from_file_uri file_uri strip_prefix
path_from_file_uri-file_uri path bytes utf8 absolute =
    rw (decode_uri-encode path bytes, utf8, absolute)
