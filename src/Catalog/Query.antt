-- ===== src/Catalog/Query.antt =====
-- `query_catalog` of catalog_service.rs: the fingerprint, the cursors and a page. The message of a failed
-- namespace is its cause, and one clock reading stands for all of a listing.
use feather_mesh.Prelude.{
  ℕ, ◌%◌, ◌==◌, Bool, true, false, ◌&&◌, Option, none, some, List, [], ◌∷◌, ◌++◌, map, Text, codes,
  text_eq, text_less, all, filter, take, length, leb, ltb, ok, ok_or, guard, ◌>>=◌, ◌>>◌,
  if◌then◌else◌,
}
use feather_mesh.Std.Str.{strip_prefix}
use feather_mesh.Std.Hex.{from_hex}
use feather_mesh.Std.Decimal.{decimal}
use feather_mesh.Agent.Json.{byte_length}
use feather_mesh.Peer.Error.{PeerResult, validation, conflict, json}
use feather_mesh.Peer.Types.{Project}
use feather_mesh.Peer.Env.{Fs, External}
use feather_mesh.Peer.Opening.{ProjectFiles, configuration_fingerprint}
use feather_mesh.Peer.Listing.{Unavailable, PeerCoverage, list_registered_with_coverage}
use feather_mesh.Stac.Http.{hex_encode}
use feather_mesh.Catalog.{
  CatalogQuery, CatalogEntry, CatalogPage, CatalogCursor, CatalogCodec, max_catalog_page_size,
  all_matches, key_less, sort_entries,
}

unfoldable pub insert_row : List ℕ → List (List ℕ) → List (List ℕ)
unfolding text_less
insert_row r [] = r ∷ []
insert_row r (x ∷ xs) = let rest = insert_row r xs in if text_less x r then x ∷ rest else r ∷ x ∷ xs

unfoldable pub sort_rows : List (List ℕ) → List (List ℕ)
unfolding insert_row
sort_rows [] = []
sort_rows (r ∷ rs) = insert_row r (sort_rows rs)

abbrev pub row_stream : List (List ℕ) → List ℕ
row_stream [] = []
row_stream (r ∷ rs) = r ++ 0 ∷ row_stream rs

abbrev pub revision_text : Option ℕ → Text
revision_text none = codes "None"
revision_text (some n) = codes "Some(" ++ decimal n ++ codes ")"

abbrev pub available_text : Bool → Text
available_text true = codes "true"
available_text false = codes "false"

abbrev pub error_text : CatalogCodec → Option Unavailable → Text
error_text codec none = []
error_text codec (some cause) = codec.message cause

-- `format!("{}|{:?}|{}|{}", ...)` of a row, without the time at which it was observed.
unfoldable pub coverage_row : CatalogCodec → PeerCoverage → Text
unfolding decimal
coverage_row codec row =
    row.namespace
    ++ b'|' ∷ revision_text row.revision
    ++ b'|' ∷ available_text row.available
    ++ b'|' ∷ error_text codec row.error

unfoldable pub snapshot_fingerprint_of : External → CatalogCodec → List PeerCoverage → Text
unfolding sort_rows coverage_row
snapshot_fingerprint_of x codec coverage =
    x.sha256_hex
      (row_stream (sort_rows (map (λ row. codec.utf8 (coverage_row codec row)) coverage)))

unfoldable pub encode_catalog_cursor : CatalogCodec → CatalogCursor → Text
unfolding hex_encode
encode_catalog_cursor codec cursor = codes "v1:" ++ hex_encode (codec.encode_json cursor)

-- Two digits at a time of an ASCII text of even length.
unfoldable pub cons_digit : Option ℕ → Option (List ℕ) → Option (List ℕ)
cons_digit (some c) (some s) = some (c ∷ s)
cons_digit (some c) none = none
cons_digit none rest = none

unfoldable pub hex_bytes : Text → Option (List ℕ)
unfolding cons_digit from_hex
hex_bytes [] = some []
hex_bytes (a ∷ []) = none
hex_bytes (a ∷ b ∷ s) = cons_digit (from_hex a b) (hex_bytes s)

abbrev pub is_ascii : Text → Bool
is_ascii s = all (λ c. ltb c 128) s

unfoldable pub decode_catalog_cursor : CatalogCodec → Text → PeerResult CatalogCursor
unfolding byte_length strip_prefix hex_bytes
decode_catalog_cursor codec value = do
  guard (leb (byte_length value) 4096 && is_ascii value) (validation "cursor")
  encoded ← ok_or (strip_prefix (codes "v1:") value) (validation "cursor")
  guard (byte_length encoded % 2 == 0) (validation "cursor")
  bytes ← ok_or (hex_bytes encoded) (validation "cursor")
  ok_or (codec.decode_json bytes) (validation "cursor")

-- The cursor of a query, if it has one, must be of the same snapshot and query.
unfoldable pub check_cursor : CatalogCodec → Text → Option Text → PeerResult (Option CatalogCursor)
unfolding decode_catalog_cursor text_eq
check_cursor codec fingerprint none = ok none
check_cursor codec fingerprint (some value) = do
  cursor ← decode_catalog_cursor codec value
  guard (text_eq cursor.snapshot_fingerprint fingerprint) conflict
  ok (some cursor)

abbrev pub key_of : CatalogEntry → Text × Text
key_of e = (e.reference, e.version)

unfoldable pub after_cursor : Option CatalogCursor → List CatalogEntry → List CatalogEntry
unfolding key_less
after_cursor none entries = entries
after_cursor (some c) entries =
    filter (λ e. key_less (c.after_reference, c.after_version) (key_of e)) entries

abbrev pub last_of : {A : Type 0} → List A → Option A
last_of [] = none
last_of (a ∷ []) = some a
last_of (a ∷ b ∷ rest) = last_of (b ∷ rest)

abbrev pub cursor_after : Text → CatalogEntry → CatalogCursor
cursor_after fingerprint e = record {
  snapshot_fingerprint = fingerprint;
  after_reference = e.reference;
  after_version = e.version;
}

-- `truncated.then(...)`; a page with more after it has a last entry.
unfoldable pub cursor_of : CatalogCodec → Text → Option CatalogEntry → Option Text
unfolding encode_catalog_cursor
cursor_of codec fingerprint none = none
cursor_of codec fingerprint (some e) =
    some (encode_catalog_cursor codec (cursor_after fingerprint e))

unfoldable pub next_of : CatalogCodec → Text → Bool → List CatalogEntry → Option Text
unfolding cursor_of
next_of codec fingerprint false entries = none
next_of codec fingerprint true entries = cursor_of codec fingerprint (last_of entries)

unfoldable pub page_of :
    CatalogCodec → Text → List PeerCoverage → ℕ → List CatalogEntry → CatalogPage
unfolding next_of
page_of codec fingerprint coverage limit matches = record {
  entries = take limit matches;
  coverage = coverage;
  snapshot_fingerprint = fingerprint;
  next_cursor = next_of codec fingerprint (ltb limit (length matches)) (take limit matches);
  result_limit = limit;
  truncated = ltb limit (length matches);
}

unfoldable pub query_fingerprint :
    ProjectFiles
    → External
    → CatalogCodec
    → Fs
    → Project
    → List PeerCoverage
    → CatalogQuery
    → PeerResult Text
unfolding snapshot_fingerprint_of configuration_fingerprint
query_fingerprint t x codec fs project coverage query = do
  configuration ← configuration_fingerprint t x fs project
  bytes ←
      ok_or
        (codec.query_bytes (snapshot_fingerprint_of x codec coverage) configuration project.root
          (record query { cursor = none }))
        json
  ok (x.sha256_hex bytes)

unfoldable pub query_catalog :
    ProjectFiles
    → External
    → CatalogCodec
    → Fs
    → Project
    → Text
    → CatalogQuery
    → PeerResult CatalogPage
unfolding list_registered_with_coverage query_fingerprint check_cursor sort_entries all_matches
    after_cursor page_of
query_catalog t x codec fs project now query = do
  guard (leb 1 query.limit && leb query.limit max_catalog_page_size) (validation "limit")
  listing ← list_registered_with_coverage x fs project now
  fingerprint ← query_fingerprint t x codec fs project listing.coverage query
  cursor ← check_cursor codec fingerprint query.cursor
  ok (
      page_of codec fingerprint listing.coverage query.limit
        (after_cursor cursor (sort_entries (all_matches query listing.entries))))
