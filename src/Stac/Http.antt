-- ===== src/Stac/Http.antt =====
-- Query strings, cursors and the search route of stac_http.rs, on the UTF-8 bytes of the texts.
-- serde_json, chrono and the parsing of floating-point numbers are the record `Web`; the JSON that is
-- built from a page is not modelled.
pub mod Decoding
pub mod Paging
use feather_mesh.Prelude.{
  ℕ, zero, suc, ◌+◌, ◌/◌, ◌%◌, Bool, true, false, ◌&&◌, ◌||◌, not, Option, none, some, List, [],
  ◌∷◌, ◌++◌, map, ◌==◌, ltb, if◌then◌else◌, Text, text_eq, codes, lookup, insert, length, take,
  drop, Result, ok, err, ok_or, guard, ◌>>=◌, ◌>>◌,
}
use feather_mesh.Std.Str.{split_once, split_on}
use feather_mesh.Std.Float.{f64_gt}
use feather_mesh.Std.Decimal.{decimal, parse_usize}
use feather_mesh.Std.Hex.{from_hex, lower_digit}
use feather_mesh.Std.Utf8.{is_utf8, at_boundary}
use feather_mesh.Stac.Search.{Bbox, StacItem, search}

-- What stops a request: an answer with an error status, or a panic.
pub data Stop : Type 0 where
  http_error : ℕ → Stop
  panicked : Stop

abbrev pub HttpResult {ℓ} : Type ℓ → Type ℓ
HttpResult A = Result Stop A

abbrev pub bad : Stop
bad = http_error 400

abbrev pub Parameters : Type 0
Parameters = List (Text × Text)

pub record Cursor : Type 0 where
  pub snapshot : Text
  pub offset : ℕ
  pub collection : Option Text
  pub bbox : Option Text
  pub datetime : Option Text

pub record Web : Type 0 where
  pub parse_rfc3339 : Text → Option ℕ
  pub parse_f64 : Text → Option ℕ
  pub encode_json : Cursor → List ℕ
  pub decode_json : List ℕ → Option Cursor

unfoldable pub hex_encode : List ℕ → Text
unfolding lower_digit
hex_encode [] = []
hex_encode (c ∷ s) = lower_digit (c / 16) ∷ lower_digit (c % 16) ∷ hex_encode s

unfoldable pub cons_byte : Option ℕ → HttpResult (Option (List ℕ)) → HttpResult (Option (List ℕ))
cons_byte none rest = ok none
cons_byte (some c) (ok (some s)) = ok (some (c ∷ s))
cons_byte (some c) (ok none) = ok none
cons_byte (some c) (err e) = err e

-- Pairs of bytes; a slice that cuts a character panics.
unfoldable pub hex_pairs : Text → HttpResult (Option (List ℕ))
unfolding cons_byte from_hex at_boundary
hex_pairs [] = ok (some [])
hex_pairs (a ∷ []) = ok none
hex_pairs (a ∷ b ∷ s) =
    let rest = hex_pairs s in
    if at_boundary (a ∷ b ∷ s) && at_boundary s then cons_byte (from_hex a b) rest else err panicked

unfoldable pub hex_decode : Text → HttpResult (Option (List ℕ))
unfolding hex_pairs
hex_decode value = if length value % 2 == 0 then hex_pairs value else ok none

unfoldable pub encode_cursor : Web → Cursor → Text
unfolding hex_encode
encode_cursor x cursor = hex_encode (x.encode_json cursor)

unfoldable pub decode_cursor : Web → Text → HttpResult Cursor
unfolding hex_decode
decode_cursor x value = do
  decoded ← hex_decode value
  bytes ← ok_or decoded bad
  ok_or (x.decode_json bytes) bad

-- The two characters after a `%`.
unfoldable pub escape_value : Text → HttpResult ℕ
unfolding from_hex at_boundary
escape_value [] = err bad
escape_value (a ∷ []) = err bad
escape_value (a ∷ b ∷ s) =
    if at_boundary (a ∷ b ∷ s) && at_boundary s then ok_or (from_hex a b) bad else err panicked

-- The loop: the first argument counts the bytes that an escape has taken already.
unfoldable pub percent_bytes : ℕ → Text → HttpResult (List ℕ)
unfolding escape_value
percent_bytes n [] = ok []
percent_bytes (suc n) (c ∷ s) = percent_bytes n s
percent_bytes zero (c ∷ s) =
    let rest = percent_bytes (if c == b'%' then 2 else 0) s in
    if c == b'%'
    then escape_value s >>= (λ byte. rest >>= λ bytes. ok (byte ∷ bytes))
    else (rest >>= λ bytes. ok ((if c == b'+' then b' ' else c) ∷ bytes))

unfoldable pub percent_decode : Text → HttpResult Text
unfolding percent_bytes is_utf8
percent_decode value = do bytes ← percent_bytes 0 value; guard (is_utf8 bytes) bad; ok bytes

unfoldable pub query_pieces : Parameters → List Text → HttpResult Parameters
unfolding split_once percent_decode insert
query_pieces result [] = ok result
query_pieces result (piece ∷ pieces) = do
  parts ← ok_or (split_once b'=' piece) bad
  key ← percent_decode (parts.0)
  value ← percent_decode (parts.1)
  query_pieces (insert key value result) pieces

unfoldable pub query_map : Text → HttpResult Parameters
unfolding query_pieces split_on
query_map [] = ok []
query_map (c ∷ s) = query_pieces [] (split_on b'&' (c ∷ s))

unfoldable pub parse_numbers : Web → List Text → HttpResult (List ℕ)
parse_numbers x [] = ok []
parse_numbers x (part ∷ parts) = do
  number ← ok_or (x.parse_f64 part) bad
  numbers ← parse_numbers x parts
  ok (number ∷ numbers)

unfoldable pub bbox_values : List ℕ → HttpResult Bbox
unfolding f64_gt
bbox_values (w ∷ s ∷ e ∷ n ∷ []) = do
  guard (not (f64_gt w e || f64_gt s n)) bad
  ok (record { left = w; bottom = s; right = e; top = n })
bbox_values _ = err bad

unfoldable pub parse_bbox : Web → Text → HttpResult Bbox
unfolding parse_numbers bbox_values split_on
parse_bbox x value = parse_numbers x (split_on b',' value) >>= bbox_values

unfoldable pub bbox_parameter : Web → Option Text → HttpResult (Option Bbox)
unfolding parse_bbox
bbox_parameter x none = ok none
bbox_parameter x (some value) = parse_bbox x value >>= λ b. ok (some b)

unfoldable pub limit_parameter : Option Text → HttpResult ℕ
unfolding parse_usize
limit_parameter none = ok 10
limit_parameter (some value) = ok_or (parse_usize value) bad

unfoldable pub snapshot_material : {V : Type 0} → List (StacItem V) → Text
unfolding decimal
snapshot_material [] = []
snapshot_material (item ∷ items) =
    item.id ++ b':' ∷ decimal item.manifest_revision ++ b';' ∷ snapshot_material items

unfoldable pub snapshot_of : {V : Type 0} → List (StacItem V) → Text
unfolding snapshot_material hex_encode
snapshot_of items = hex_encode (snapshot_material items)

abbrev pub option_eq : Option Text → Option Text → Bool
option_eq none none = true
option_eq (some s) (some t) = text_eq s t
option_eq _ _ = false

-- The offset of a cursor that was made for the same items and the same query.
unfoldable pub check_cursor : Parameters → Text → Cursor → HttpResult ℕ
unfolding lookup
check_cursor parameters snapshot c = do
  guard
      (text_eq c.snapshot snapshot
        && option_eq c.collection (lookup (codes "collections") parameters)
        && option_eq c.bbox (lookup (codes "bbox") parameters)
        && option_eq c.datetime (lookup (codes "datetime") parameters))
      (http_error 409)
  ok c.offset

unfoldable pub offset_parameter : Web → Parameters → Text → Option Text → HttpResult ℕ
unfolding check_cursor decode_cursor
offset_parameter x parameters snapshot none = ok 0
offset_parameter x parameters snapshot (some value) =
    decode_cursor x value >>= check_cursor parameters snapshot

unfoldable pub query_piece : Text → Option Text → Text
query_piece key none = []
query_piece key (some value) = b'&' ∷ key ++ b'=' ∷ value

-- The query string of the next link: the values stand in it as they are.
unfoldable pub next_query : Web → Cursor → ℕ → Text
unfolding query_piece encode_cursor decimal
next_query x c limit =
    codes "cursor="
    ++ encode_cursor x c
    ++ codes "&limit="
    ++ decimal limit
    ++ query_piece (codes "collections") c.collection
    ++ query_piece (codes "bbox") c.bbox
    ++ query_piece (codes "datetime") c.datetime

-- The feature collection, without the links that every page has.
pub record Page (V : Type 0) : Type 0 where
  pub features : List V
  pub next : Option (Cursor × Text)
  pub number_matched : ℕ
  pub number_returned : ℕ

unfoldable pub cursor_at : Parameters → Text → ℕ → Cursor
unfolding lookup
cursor_at parameters snapshot offset = record {
  snapshot = snapshot;
  offset = offset;
  collection = lookup (codes "collections") parameters;
  bbox = lookup (codes "bbox") parameters;
  datetime = lookup (codes "datetime") parameters;
}

unfoldable pub page_at : {V : Type 0} → Web → Parameters → ℕ → Text → List (StacItem V) → ℕ → Page V
unfolding next_query cursor_at
page_at x parameters limit snapshot filtered offset =
    let page = map (λ item. item.value) (take limit (drop offset filtered)) in
    let cursor = cursor_at parameters snapshot (offset + length page) in
    record {
      features = page;
      next =
          if ltb (offset + length page) (length filtered)
          then some (cursor, next_query x cursor limit)
          else none;
      number_matched = length filtered;
      number_returned = length page;
    }

-- `search_response`, with what `items` has answered.
unfoldable pub search_response :
    {V : Type 0} → Web → HttpResult (List (StacItem V)) → Parameters → HttpResult (Page V)
unfolding page_at bbox_parameter limit_parameter offset_parameter search snapshot_of lookup
search_response x listed parameters = do
  all ← listed
  bbox ← bbox_parameter x (lookup (codes "bbox") parameters)
  limit ← limit_parameter (lookup (codes "limit") parameters)
  guard (not (limit == 0 || ltb 1000 limit)) bad
  let filtered =
      search x.parse_rfc3339 all (lookup (codes "collections") parameters) bbox
        (lookup (codes "datetime") parameters)
  offset ← offset_parameter x parameters (snapshot_of all) (lookup (codes "cursor") parameters)
  guard (not (ltb (length filtered) offset)) bad
  ok (page_at x parameters limit (snapshot_of all) filtered offset)
