-- ===== src/Examples/Web.antt =====
-- STAC requests at concrete inputs: two items, one per page.
use feather_mesh.Prelude.{
  ℕ, map, zero, suc, ◌<◌, ◌≡◌, refl, none, some, List, [], ◌∷◌, ◌++◌, arith, All, codes, lookup,
  length, ok, ◌↔◌, true, ◌≤◌, text_eq,
}
use feather_mesh.Std.Decimal.{parse_usize, parse_digits}
use feather_mesh.Std.Utf8.{is_utf8, utf8_from, lead}
use feather_mesh.Std.FilePath.{is_absolute}
use feather_mesh.Stac.Uri.{file_uri, path_from_file_uri, encode_uri}
use feather_mesh.Stac.Uri.RoundTrip.{path_from_file_uri-file_uri}
use feather_mesh.Stac.Search.{StacItem, search, is_match, matches_datetime}
use feather_mesh.Stac.Search.Intervals.{matches_datetime-closed}
use feather_mesh.Stac.Http.{
  Web, Parameters, hex_encode, hex_decode, percent_decode, bbox_parameter, limit_parameter,
  cursor_at, snapshot_of,
}
use feather_mesh.Stac.Http.Decoding.{hex_decode-hex_encode, percent_decode-encode_uri}
use feather_mesh.Stac.Http.Paging.{IsQuery, CursorCodec, all_pages, all_pages-matched}

abbrev path : List ℕ
path = codes "/a b/" ++ 0xc3 ∷ 0xa9 ∷ []

path-bytes : All (λ c. c < 256) path
path-bytes = (
  omega arith,
  (omega arith, (omega arith, (omega arith, (omega arith, (omega arith, (omega arith, tt)))))),
)

path-utf8 : is_utf8 path ≡ true
unfolding is_utf8 utf8_from lead
path-utf8 = refl

path-absolute : is_absolute path ≡ true
unfolding is_absolute
path-absolute = refl

path_from_file_uri-file_uri_example : path_from_file_uri (file_uri path) ≡ ok path
path_from_file_uri-file_uri_example =
    path_from_file_uri-file_uri path path-bytes path-utf8 path-absolute

percent_decode-encode_uri_example : percent_decode (encode_uri path) ≡ ok path
percent_decode-encode_uri_example = percent_decode-encode_uri path path-bytes path-utf8

hex_decode-hex_encode_example : hex_decode (hex_encode path) ≡ ok (some path)
hex_decode-hex_encode_example = hex_decode-hex_encode path path-bytes

matches_datetime-closed_example :
    (matches_datetime (λ t. some (length t)) 2 9 (codes "aaa/bbbbb") ≡ true)
    ↔ ((t : ℕ) × (2 ≤ t) × (t ≤ 9) × (3 ≤ t) × (t ≤ 5))
unfolding text_eq
matches_datetime-closed_example =
    matches_datetime-closed (λ t. some (length t)) 2 9 (codes "aaa") (codes "bbbbb") 3 5 refl refl
      refl refl refl (omega arith) (omega arith)

abbrev item : ℕ → StacItem ℕ
item n = record {
  id = codes "i";
  collection_id = codes "c";
  namespace = codes "lab";
  product_id = codes "obs";
  version = codes "v1";
  manifest_revision = n;
  bbox = record { left = 0; bottom = 0; right = 0; top = 0 };
  start_datetime = 0;
  end_datetime = 0;
  value = n;
}

abbrev items : List (StacItem ℕ)
items = item 1 ∷ item 2 ∷ []

abbrev parameters : Parameters
parameters = (codes "limit", codes "1") ∷ []

abbrev unary : ℕ → List ℕ
unary zero = []
unary (suc n) = 1 ∷ unary n

abbrev web : Web
web = record {
  parse_rfc3339 = λ t. none;
  parse_f64 = λ t. none;
  encode_json = λ c. unary c.offset;
  decode_json = λ b. some (cursor_at parameters (snapshot_of items) (length b));
}

unary-bytes : (n : ℕ) → All (λ c. c < 256) (unary n)
unary-bytes zero = tt
unary-bytes (suc n) = (omega arith, unary-bytes n)

length-unary : (n : ℕ) → length (unary n) ≡ n
length-unary zero = refl
length-unary (suc n) = omega (arith, length-unary n)

one_per_page : IsQuery web items parameters none 1
unfolding bbox_parameter limit_parameter lookup text_eq parse_usize parse_digits
one_per_page = record { boxed = refl; limited = refl; positive = omega arith; small = omega arith }

cursors : CursorCodec web items parameters none 1
unfolding cursor_at
cursors = record { bytes = λ o. unary-bytes o; read_back = λ o. rw (length-unary o) }

no_cursor : lookup (codes "cursor") parameters ≡ none
unfolding lookup text_eq
no_cursor = refl

two_matches :
    length (
      search web.parse_rfc3339 items
        (lookup (codes "collections") parameters)
        none
        (lookup (codes "datetime") parameters))
    ≤ 2
unfolding lookup text_eq search is_match
two_matches = omega arith

all_pages-matched_example :
    all_pages web items parameters none 1 2
    ≡ ok (
        map
          (λ (i : StacItem ℕ). i.value)
          (search web.parse_rfc3339 items
            (lookup (codes "collections") parameters)
            none
            (lookup (codes "datetime") parameters)))
all_pages-matched_example =
    all_pages-matched web items parameters none 1 2 one_per_page cursors no_cursor two_matches
