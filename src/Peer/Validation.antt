-- ===== src/Peer/Validation.antt =====
-- `validate_publication_fields`, `raster_time_bounds` and `validate_publication` of peer_access.rs.
pub mod Inspect
use feather_mesh.Prelude.{
  ℕ, String, Bool, true, false, not, ◌==◌, ◌||◌, Option, none, some, List, [], ◌∷◌, ◌++◌, Text,
  text_eq, any, is_empty, contains, Result, ok, err, ◌>>=◌, ◌>>◌, guard, ok_or, for_each,
  if◌then◌else◌, ltb,
}
use feather_mesh.Std.Float.{f64_gt}
use feather_mesh.Std.FilePath.{path_eq}
use feather_mesh.Peer.Error.{PeerError, PeerResult, validation, policy, unsupported_format}
use feather_mesh.Peer.Token.{
  non_blank, validate_namespace, validate_product_id, validate_version, validate_relative_path,
}
use feather_mesh.Peer.Types.{
  DataKind, table, raster, DataFormat, parquet, geotiff, active, Project, LineageReference,
  DeclaredAsset, TextMap, TablePublication, RasterPublication, PublicationRequest, AssetRecord,
  TableDescriptor, RasterDescriptor, PublishedVersion,
}
use feather_mesh.Peer.Env.{Fs, Metadata, External, lift_io}
use feather_mesh.Peer.Project.{namespace, serving_root, checked_asset_path}
use Inspect.{
  inspect_parquet, inspect_geotiff, merge_table_descriptors, merge_raster_descriptors, sha256_file,
}

unfoldable pub parse_time : External → Text → PeerResult ℕ
parse_time x value = ok_or (x.parse_rfc3339 value) (validation "raster.datetime")

unfoldable pub raster_time_bounds :
    External → Option Text → Option Text → Option Text → PeerResult (ℕ × ℕ)
unfolding parse_time
raster_time_bounds x (some value) none none = do instant ← parse_time x value; ok (instant, instant)
raster_time_bounds x none (some start) (some end) = do
  s ← parse_time x start
  e ← parse_time x end
  guard (not (ltb e s)) (validation "raster.datetime")
  ok (s, e)
raster_time_bounds x _ _ _ = err (validation "raster.datetime")

unfoldable pub check_raster : External → RasterPublication → PeerResult (Unit {0})
unfolding raster_time_bounds f64_gt
check_raster x profile = do
  bounds ← raster_time_bounds x profile.datetime profile.start_datetime profile.end_datetime
  guard (not (f64_gt profile.bbox.0 profile.bbox.2 || f64_gt profile.bbox.1 profile.bbox.3))
      (validation "raster.bbox")

unfoldable pub check_profiles :
    External
    → DataKind
    → DataFormat
    → Option TablePublication
    → Option RasterPublication
    → PeerResult (Unit {0})
check_profiles x table parquet (some t) none = ok tt
check_profiles x raster geotiff none (some r) = check_raster x r
check_profiles x _ _ _ _ = err (validation "data_kind/data_format")

unfoldable pub check_lineage : LineageReference → PeerResult (Unit {0})
check_lineage lineage = do
  non_blank "lineage.product" lineage.product
  elim lineage.version [ none ↦ ok tt | some version ↦ validate_version version ]

unfoldable pub text_fields : PublicationRequest → List (String × Text)
text_fields r =
    ("name", r.name)
    ∷ ("description", r.description)
    ∷ ("intended_use", r.intended_use)
    ∷ ("limitations", r.limitations)
    ∷ ("owner_team", r.owner_team)
    ∷ ("producer", r.producer)
    ∷ ("contact", r.contact)
    ∷ ("usage_policy", r.usage_policy)
    ∷ ("classification", r.classification)
    ∷ ("quality", r.quality)
    ∷ []

unfoldable pub validate_publication_fields :
    External → Project → PublicationRequest → PeerResult (Unit {0})
validate_publication_fields x project request = do
  guard (request.schema_version == 1) (validation "schema_version")
  guard (text_eq request.namespace (namespace project)) policy
  guard (any (λ team. text_eq team request.owner_team) project.config.owner_teams) policy
  validate_namespace request.namespace
  validate_product_id request.product_id
  validate_version request.version
  for_each (λ field. non_blank field.0 field.1) (text_fields request)
  guard (not (is_empty request.assets)) (validation "assets")
  check_profiles x request.data_kind request.data_format request.table_profile
      request.raster_profile
  for_each check_lineage request.lineage

-- What the loop over the declared assets gathers.
pub record Inventory : Type 0 where
  pub ids : List Text
  pub paths : List Text
  pub assets : List AssetRecord
  pub parquet_descriptors : List (TextMap × ℕ)
  pub raster_descriptors : List RasterDescriptor

-- The profile is there after `validate_publication_fields`; without it the code would panic, and the
-- model refuses the format.
unfoldable pub inspect_asset :
    External → Fs → PublicationRequest → Text → Inventory → PeerResult Inventory
inspect_asset x fs request canonical inv = elim request.data_kind [
  | table ↦ elim request.data_format [
    | parquet ↦ do
      d ← inspect_parquet x fs canonical
      ok (record inv { parquet_descriptors = inv.parquet_descriptors ++ d ∷ [] })
    | geotiff ↦ err unsupported_format
  ]
  | raster ↦ elim request.data_format [
    | parquet ↦ err unsupported_format
    | geotiff ↦ do
      profile ← ok_or request.raster_profile unsupported_format
      d ← inspect_geotiff x fs canonical profile
      ok (record inv { raster_descriptors = inv.raster_descriptors ++ d ∷ [] })
  ]
]

unfoldable pub optional_digest : External → Fs → Bool → Text → PeerResult (Option Text)
optional_digest x fs true canonical = ok none
optional_digest x fs false canonical = do d ← sha256_file x fs canonical; ok (some d)

unfoldable pub validate_asset :
    External → Fs → PublicationRequest → Text → DeclaredAsset → Inventory → PeerResult Inventory
validate_asset x fs request root asset inv = do
  non_blank "assets.id" asset.id
  non_blank "assets.role" asset.role
  non_blank "assets.media_type" asset.media_type
  guard (not (contains asset.id inv.ids)) (validation "assets.id")
  validate_relative_path asset.path "assets.path"
  guard (not (any (path_eq asset.path) inv.paths)) (validation "assets.path")
  (access, canonical) ← checked_asset_path fs root root asset.path
  metadata ← lift_io (fs.metadata canonical)
  guard metadata.is_file policy
  inspected ← inspect_asset x fs request canonical inv
  digest ← optional_digest x fs asset.digest_opt_out canonical
  ok (record inspected {
    ids = asset.id ∷ inv.ids;
    paths = asset.path ∷ inv.paths;
    assets =
        inv.assets
        ++ record {
          id = asset.id;
          path = asset.path;
          role = asset.role;
          media_type = asset.media_type;
          size = metadata.len;
          sha256 = digest;
        }
          ∷ [];
  })

unfoldable pub validate_assets :
    External
    → Fs
    → PublicationRequest
    → Text
    → List DeclaredAsset
    → Inventory
    → PeerResult Inventory
validate_assets x fs request root [] inv = ok inv
validate_assets x fs request root (asset ∷ rest) inv = do
  inv' ← validate_asset x fs request root asset inv
  validate_assets x fs request root rest inv'

unfoldable pub merge_descriptors :
    External
    → PublicationRequest
    → Inventory
    → PeerResult (Option TableDescriptor × Option RasterDescriptor)
merge_descriptors x request inv = elim request.data_kind [
  | table ↦ do
    profile ← ok_or request.table_profile unsupported_format
    t ← merge_table_descriptors x inv.parquet_descriptors profile
    ok (some t, none)
  | raster ↦ do r ← merge_raster_descriptors inv.raster_descriptors; ok (none, some r)
]

abbrev pub empty_inventory : Inventory
empty_inventory = record {
  ids = [];
  paths = [];
  assets = [];
  parquet_descriptors = [];
  raster_descriptors = [];
}

unfoldable pub validate_publication :
    External → Fs → Text → Project → PublicationRequest → PeerResult PublishedVersion
validate_publication x fs now project request = do
  validate_publication_fields x project request
  root ← serving_root fs project
  inv ← validate_assets x fs request root request.assets empty_inventory
  (table_part, raster_part) ← merge_descriptors x request inv
  ok (record {
    product_id = request.product_id;
    name = request.name;
    version = request.version;
    lifecycle = active;
    withdrawal_reason = none;
    data_kind = request.data_kind;
    data_format = request.data_format;
    description = request.description;
    intended_use = request.intended_use;
    limitations = request.limitations;
    owner_team = request.owner_team;
    producer = request.producer;
    contact = request.contact;
    usage_policy = request.usage_policy;
    classification = request.classification;
    quality = request.quality;
    assets = inv.assets;
    lineage = request.lineage;
    table_descriptor = table_part;
    raster_descriptor = raster_part;
    published_at = now;
    withdrawn_at = none;
  })
