-- ===== src/Peer/Validation/Inspect.antt =====
-- `inspect_parquet`, `inspect_geotiff`, `epsg_from_geo_keys`, `merge_table_descriptors`,
-- `merge_raster_descriptors` and `sha256_file` of peer_access.rs.
use feather_mesh.Prelude.{
  ℕ, ◌+◌, ◌%◌, ◌^◌, Bool, true, false, not, ◌&&◌, ◌==◌, ◌||◌, Option, none, some, List, [], ◌∷◌,
  ◌++◌, Text, text_eq, codes, all, is_empty, length, lookup, ok, err, ◌>>=◌, ◌>>◌, guard, ok_or,
  for_each, if◌then◌else◌, ltb, drop, leb,
}
use feather_mesh.Std.Decimal.{decimal}
use feather_mesh.Peer.Error.{PeerResult, validation, parquet, geo_tiff, json}
use feather_mesh.Peer.Token.{non_blank}
use feather_mesh.Peer.Types.{
  TextMap, TablePublication, RasterPublication, TableDescriptor, RasterDescriptor,
}
use feather_mesh.Peer.Env.{Fs, External, lift_io}

unfoldable pub sha256_file : External → Fs → Text → PeerResult Text
sha256_file x fs path = do bytes ← lift_io (fs.read path); ok (x.sha256_hex bytes)

unfoldable pub inspect_parquet : External → Fs → Text → PeerResult (TextMap × ℕ)
inspect_parquet x fs path = do
  bytes ← lift_io (fs.read path)
  (columns, rows) ← ok_or (x.decode_parquet bytes) parquet
  guard (not (is_empty columns)) parquet
  ok (columns, rows)

-- The first entry of four keys that names a CRS code directly; a last part of fewer keys is no entry.
unfoldable pub find_epsg : List ℕ → Option ℕ
find_epsg (id ∷ location ∷ count ∷ value ∷ rest) =
    if (id == 2048 || id == 3072) && location == 0 && count == 1 then some value else find_epsg rest
find_epsg _ = none

unfoldable pub epsg_from_geo_keys : List ℕ → Option ℕ
unfolding find_epsg
epsg_from_geo_keys keys = if ltb (length keys) 4 then none else find_epsg (drop 4 keys)

unfoldable pub epsg_text : Option ℕ → Option Text
epsg_text none = none
epsg_text (some code) = some (codes "EPSG:" ++ decimal code)

unfoldable pub inspect_geotiff :
    External → Fs → Text → RasterPublication → PeerResult RasterDescriptor
inspect_geotiff x fs path profile = do
  bytes ← lift_io (fs.read path)
  tags ← ok_or (x.decode_tiff bytes) geo_tiff
  geo_keys ← ok_or tags.geo_keys geo_tiff
  guard (leb 4 (length geo_keys)) geo_tiff
  guard (tags.has_pixel_scale || tags.has_transformation) geo_tiff
  ok (record {
    width = tags.width;
    height = tags.height;
    color_type = tags.color_type;
    geo_key_directory = geo_keys;
    crs = epsg_text (epsg_from_geo_keys geo_keys);
    nodata = tags.nodata;
    datetime = profile.datetime;
    start_datetime = profile.start_datetime;
    end_datetime = profile.end_datetime;
    bbox = profile.bbox;
    semantics = profile.semantics;
  })

unfoldable pub map_eq : TextMap → TextMap → Bool
map_eq [] [] = true
map_eq ((k, v) ∷ m) ((j, w) ∷ n) = text_eq k j && text_eq v w && map_eq m n
map_eq _ _ = false

unfoldable pub check_column : TablePublication → Text × Text → PeerResult (Unit {0})
check_column declared (name, physical) = do
  meaning ← ok_or (lookup name declared.column_meanings) (validation "table.column_meanings")
  unit ← ok_or (lookup name declared.column_units) (validation "table.column_units")
  non_blank "table.column_meanings" meaning
  non_blank "table.column_units" unit

unfoldable pub is_column : Text → TextMap → Bool
is_column name columns = elim (lookup name columns) [ none ↦ false | some v ↦ true ]

-- `i64` addition, on bit patterns.
unfoldable pub sum_rows : List (TextMap × ℕ) → ℕ
sum_rows [] = 0
sum_rows ((columns, rows) ∷ rest) = (rows + sum_rows rest) % 2 ^ 64

unfoldable pub merge_table_descriptors :
    External → List (TextMap × ℕ) → TablePublication → PeerResult TableDescriptor
unfolding check_column is_column sum_rows map_eq
merge_table_descriptors x [] declared = err (validation "assets")
merge_table_descriptors x ((columns, rows) ∷ rest) declared = do
  guard (all (λ d. map_eq d.0 columns) rest) parquet
  for_each (check_column declared) columns
  for_each (λ p. guard (not (is_column p columns)) (validation "table.partition_columns"))
      declared.partition_columns
  encoded ← ok_or (x.encode_columns columns) json
  ok (record {
    columns = columns;
    schema_fingerprint = x.sha256_hex encoded;
    row_count = sum_rows ((columns, rows) ∷ rest);
    partition_columns = declared.partition_columns;
    column_meanings = declared.column_meanings;
    column_units = declared.column_units;
  })

unfoldable pub merge_raster_descriptors : List RasterDescriptor → PeerResult RasterDescriptor
merge_raster_descriptors [] = err (validation "assets")
merge_raster_descriptors (d ∷ rest) = ok d
