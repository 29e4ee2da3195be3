-- ===== src/Peer/Token.antt =====
-- Tokens, references and relative paths: `non_blank`, `validate_token`, `reference`,
-- `parse_reference` and `validate_relative_path` of peer_access.rs.
pub mod References
pub mod RelativePaths
use feather_mesh.Prelude.{
  ℕ, String, ◌≡◌, refl, Bool, true, false, ◌&&◌, ◌||◌, not, Option, none, some, List, [], ◌∷◌, ◌++◌,
  arith, ◌==◌, if◌then◌else◌, Text, codes, is_empty, all, Result, ok, err, ◌>>=◌, ◌>>◌, guard,
  ok_or, for_each,
}
use feather_mesh.Std.Char.{is_ascii_alphanumeric}
use feather_mesh.Std.Str.{trim, split_once, strip_prefix, contains_char, is_blank}
use feather_mesh.Std.FilePath.{Component, normal, components, is_absolute}
use feather_mesh.Peer.Error.{PeerError, PeerResult, validation}

unfoldable pub non_blank : String → Text → PeerResult (Unit {0})
unfolding trim
non_blank field value = guard (not (is_blank value)) (validation field)

unfoldable pub is_token_char : ℕ → Bool
unfolding is_ascii_alphanumeric
is_token_char c = is_ascii_alphanumeric c || c == b'-' || c == b'_' || c == b'.'

unfoldable pub validate_token : String → Text → PeerResult (Unit {0})
unfolding non_blank is_token_char
validate_token field value = do
  non_blank field value
  guard (all is_token_char value) (validation field)

unfoldable pub validate_namespace : Text → PeerResult (Unit {0})
unfolding validate_token
validate_namespace value = validate_token "namespace" value

unfoldable pub validate_product_id : Text → PeerResult (Unit {0})
unfolding validate_token
validate_product_id value = validate_token "product_id" value

unfoldable pub validate_version : Text → PeerResult (Unit {0})
unfolding validate_token
validate_version value = validate_token "version" value

abbrev pub scheme : Text
scheme = codes "product://"

unfoldable pub reference : Text → Text → Text
reference namespace product_id = scheme ++ (namespace ++ b'/' ∷ product_id)

unfoldable pub parse_reference : Text → PeerResult (Text × Text)
parse_reference value = do
  without_scheme ← ok_or (strip_prefix scheme value) (validation "reference")
  (namespace, product_id) ← ok_or (split_once b'/' without_scheme) (validation "reference")
  guard (not (contains_char b'/' product_id)) (validation "reference")
  validate_namespace namespace
  validate_product_id product_id
  ok (namespace, product_id)

unfoldable pub is_normal : Component → Bool
is_normal (normal s) = true
is_normal _ = false

unfoldable pub validate_relative_path : Text → String → PeerResult (Unit {0})
unfolding is_normal
validate_relative_path path field = do
  guard (not (is_empty path || is_absolute path)) (validation field)
  for_each (λ c. guard (is_normal c) (validation field)) (components path)
