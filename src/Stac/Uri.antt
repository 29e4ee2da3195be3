-- ===== src/Stac/Uri.antt =====
-- `file_uri` and `path_from_file_uri` of stac.rs, on the UTF-8 bytes of the texts.
pub mod RoundTrip
use feather_mesh.Prelude.{
  ℕ, zero, suc, ◌+◌, ◌*◌, ◌/◌, ◌%◌, Bool, ◌||◌, Option, none, some, List, [], ◌∷◌, ◌++◌, ◌==◌,
  if◌then◌else◌, Text, codes, ok, err, ok_or, guard, ◌>>=◌, ◌>>◌,
}
use feather_mesh.Std.Char.{is_ascii_alphanumeric}
use feather_mesh.Std.Str.{strip_prefix}
use feather_mesh.Std.FilePath.{is_absolute}
use feather_mesh.Std.Hex.{hex_digit, upper_digit}
use feather_mesh.Std.Utf8.{is_utf8}
use feather_mesh.Peer.Error.{PeerError, PeerResult, validation}

unfoldable pub is_plain : ℕ → Bool
is_plain c =
    is_ascii_alphanumeric c || c == b'-' || c == b'.' || c == b'_' || c == b'~' || c == b'/'

unfoldable pub encode_uri : List ℕ → List ℕ
unfolding is_plain upper_digit
encode_uri [] = []
encode_uri (c ∷ s) =
    let rest = encode_uri s in
    if is_plain c then c ∷ rest else b'%' ∷ upper_digit (c / 16) ∷ upper_digit (c % 16) ∷ rest

unfoldable pub file_uri : List ℕ → List ℕ
unfolding encode_uri
file_uri path = codes "file://" ++ encode_uri path

abbrev pub invalid_href : PeerError
invalid_href = validation "asset.href"

-- The two digits after a `%`.
unfoldable pub escaped_byte : List ℕ → PeerResult ℕ
unfolding hex_digit
escaped_byte [] = err invalid_href
escaped_byte (a ∷ []) = err invalid_href
escaped_byte (a ∷ b ∷ s) = do
  high ← ok_or (hex_digit a) invalid_href
  low ← ok_or (hex_digit b) invalid_href
  ok (high * 16 + low)

-- The loop: the first argument counts the bytes that an escape has taken already.
unfoldable pub decode_uri : ℕ → List ℕ → PeerResult (List ℕ)
unfolding escaped_byte
decode_uri n [] = ok []
decode_uri (suc n) (c ∷ s) = decode_uri n s
decode_uri zero (c ∷ s) =
    let rest = decode_uri (if c == b'%' then 2 else 0) s in
    if c == b'%'
    then escaped_byte s >>= (λ byte. rest >>= λ bytes. ok (byte ∷ bytes))
    else (rest >>= λ bytes. ok (c ∷ bytes))

unfoldable pub path_from_file_uri : List ℕ → PeerResult (List ℕ)
unfolding strip_prefix decode_uri is_utf8 is_absolute
path_from_file_uri value = do
  encoded ← ok_or (strip_prefix (codes "file://") value) invalid_href
  decoded ← decode_uri 0 encoded
  guard (is_utf8 decoded) invalid_href
  guard (is_absolute decoded) invalid_href
  ok decoded
