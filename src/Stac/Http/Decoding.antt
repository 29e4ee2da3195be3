-- ===== src/Stac/Http/Decoding.antt =====
-- `hex_decode` and `percent_decode` on encoded texts.
use feather_mesh.Prelude.{
  ℕ, ◌<◌, ◌/◌, ◌%◌, ◌≡◌, refl, true, false, some, List, [], ◌∷◌, arith, All, length, ok, Bool-cases,
  inl, inr, ◌==◌,
}
use feather_mesh.Std.Char.{is_ascii_alphanumeric, is_ascii_digit}
use feather_mesh.Std.Hex.{from_hex-lower, from_hex-upper, byte-digits, lower_digit, upper_digit}
use feather_mesh.Std.Utf8.{is_utf8, at_boundary, is_continuation}
use feather_mesh.Stac.Uri.{is_plain, encode_uri}
use feather_mesh.Stac.Http.{
  hex_encode, hex_pairs, hex_decode, cons_byte, escape_value, percent_bytes, percent_decode,
}

lower_digit-boundary : (d : ℕ) (s : List ℕ) → d < 16 → at_boundary (lower_digit d ∷ s) ≡ true
unfolding at_boundary is_continuation lower_digit
lower_digit-boundary d s h = ground arith

hex_encode-boundary : (s : List ℕ) → All (λ c. c < 256) s → at_boundary (hex_encode s) ≡ true
unfolding hex_encode at_boundary
hex_encode-boundary [] h = refl
hex_encode-boundary (c ∷ s) h =
    lower_digit-boundary (c / 16) (lower_digit (c % 16) ∷ hex_encode s) (byte-digits c h.0).0

hex_pairs-encode : (s : List ℕ) → All (λ c. c < 256) s → hex_pairs (hex_encode s) ≡ ok (some s)
unfolding hex_encode hex_pairs cons_byte
hex_pairs-encode [] h = refl
hex_pairs-encode (c ∷ s) h = rw (
  lower_digit-boundary (c / 16) (lower_digit (c % 16) ∷ hex_encode s) (byte-digits c h.0).0,
  hex_encode-boundary s h.1,
  from_hex-lower c h.0,
  hex_pairs-encode s h.1,
)

length-hex_encode : (s : List ℕ) → length (hex_encode s) % 2 ≡ 0
unfolding hex_encode
length-hex_encode [] = refl
length-hex_encode (c ∷ s) = omega (arith, length-hex_encode s)

-- Bytes, numbers below 256, are read back from their hexadecimal text, without a panic.
pub hex_decode-hex_encode :
    (s : List ℕ) → All (λ c. c < 256) s → hex_decode (hex_encode s) ≡ ok (some s)
unfolding hex_decode
hex_decode-hex_encode s h = rw (length-hex_encode s, hex_pairs-encode s h) refl

upper_digit-boundary : (d : ℕ) (s : List ℕ) → d < 16 → at_boundary (upper_digit d ∷ s) ≡ true
unfolding at_boundary is_continuation upper_digit
upper_digit-boundary d s h = ground arith

plain-range :
    (c : ℕ)
    → is_plain c ≡ true
    → ((c == b'%') ≡ false) × ((c == b'+') ≡ false) × (is_continuation c ≡ false)
unfolding is_plain is_ascii_alphanumeric is_ascii_digit is_continuation
plain-range c h = ground arith

encode_uri-boundary : (s : List ℕ) → at_boundary (encode_uri s) ≡ true
unfolding encode_uri at_boundary
encode_uri-boundary [] = refl
encode_uri-boundary (c ∷ s) = elim (Bool-cases (is_plain c)) [
  | inl plain ↦ let (_, _, e) = plain-range c plain in rw (plain, e) refl
  | inr other ↦ rw other refl
]

percent_bytes-encode : (s : List ℕ) → All (λ c. c < 256) s → percent_bytes 0 (encode_uri s) ≡ ok s
unfolding encode_uri percent_bytes escape_value
percent_bytes-encode [] h = refl
percent_bytes-encode (c ∷ s) h = elim (Bool-cases (is_plain c)) [
  | inl plain ↦ let (p, q, _) = plain-range c plain in rw (plain, p, q, percent_bytes-encode s h.1)
  | inr other ↦
      let (p, q, _) = byte-digits c h.0 in
      rw (
        other,
        upper_digit-boundary (c / 16) (upper_digit (c % 16) ∷ encode_uri s) p,
        encode_uri-boundary s,
        from_hex-upper c h.0,
        percent_bytes-encode s h.1,
      )
]

-- A percent-encoded text in UTF-8 is decoded to that text: no escape of the encoder is refused, and
-- none makes a slice panic.
pub percent_decode-encode_uri :
    (s : List ℕ) → All (λ c. c < 256) s → is_utf8 s ≡ true → percent_decode (encode_uri s) ≡ ok s
unfolding percent_decode
percent_decode-encode_uri s h utf8 = rw (percent_bytes-encode s h, utf8)
